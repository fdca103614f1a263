-- ===== src/Wg/Sync.antt =====
-- `SyncInterface` and `SyncAll` of internal/wg/manager.go.
pub mod Applied
pub mod Pushed
pub mod Outcome
use wgrift.Base.{
  Bool, true, false, not, Option, none, some, List, [], ◌∷◌, ◌++◌, Text, codes, is_nil,
  if◌then◌else◌,
}
use wgrift.Base.Result.{Result, ok, err}
use wgrift.Models.{Interface, Peer}
use wgrift.App.{
  App, Error, message_about, message, pure, fail, ◌>>=◌, ◌>>◌, wrapping, attempt, external_call,
  net_call, net_exists, set_down, quick_up, sync_conf, save_conf,
}
use wgrift.Store.Interfaces.{get_interface, list_interfaces}
use wgrift.Store.Peers.{list_peers}
use wgrift.Confgen.Generate.{
  ServerPeerBlock, ServerConfParams, generate_server_conf, generate_stripped_conf,
}
use wgrift.Wg.AllowedIps.{ensure_host_32, merge_allowed_ip_strings}

-- `m.enc.Decrypt`.
unfoldable pub decrypt : Text → App Text
decrypt text = external_call (λ env t. env.decrypt text)

-- `m.enc.Encrypt`, which draws a fresh salt and key.
unfoldable pub encrypt : Text → App Text
encrypt text = external_call (λ env t. env.encrypt t text)

merge_tunnel_ip : Text → Text → Text
merge_tunnel_ip tunnel_ip allowed_ips =
    if is_nil tunnel_ip then allowed_ips else merge_allowed_ip_strings tunnel_ip allowed_ips

-- The allowed addresses of a peer, always with its tunnel address.
unfoldable pub server_allowed_ips : Peer → Text
unfolding merge_tunnel_ip
server_allowed_ips p =
    if is_nil p.address
    then p.allowed_ips
    else merge_tunnel_ip (ensure_host_32 p.address) p.allowed_ips

abbrev pub block_with : Peer → Text → ServerPeerBlock
block_with p preshared_key = record {
  name = p.name;
  public_key = p.public_key;
  preshared_key = preshared_key;
  allowed_ips = server_allowed_ips p;
  endpoint = p.endpoint;
  persistent_keepalive = p.persistent_keepalive;
}

-- The preshared key is decrypted if the peer has one.
unfoldable pub peer_block : Peer → App ServerPeerBlock
peer_block p = if is_nil p.preshared_key_encrypted then pure (block_with p []) else (do
  psk ← wrapping "decrypting preshared key" (decrypt p.preshared_key_encrypted)
  pure (block_with p psk))

-- The loop over the peers: a disabled peer is left out.
unfoldable pub collect_blocks : List Peer → App (List ServerPeerBlock)
unfolding peer_block
collect_blocks [] = pure []
collect_blocks (p ∷ ps) =
    let rest = collect_blocks ps in
    if not p.enabled then rest else (do block ← peer_block p; blocks ← rest; pure (block ∷ blocks))

abbrev pub conf_params : Interface → Text → List ServerPeerBlock → ServerConfParams
conf_params iface private_key peers = record {
  private_key = private_key;
  address = iface.address;
  listen_port = iface.listen_port;
  mtu = iface.mtu;
  dns = iface.dns;
  post_up = iface.post_up;
  post_down = iface.post_down;
  peers = peers;
}

-- A running interface takes the stripped file, and where that works the full one is saved, of which
-- an error is ignored; one that is not running is brought up from the full file.
unfoldable pub apply_conf : Text → ServerConfParams → Bool → App (Unit {0})
apply_conf id params true = do
  wrapping "syncing config" (net_call (sync_conf id (generate_stripped_conf params)))
  attempt (net_call (save_conf id (generate_server_conf params)))
  pure tt
apply_conf id params false = do
  wrapping "saving config" (net_call (save_conf id (generate_server_conf params)))
  wrapping "bringing up interface" (net_call (quick_up id))

unfoldable pub sync_enabled : Text → Interface → App (Unit {0})
unfolding collect_blocks apply_conf
sync_enabled id iface = do
  private_key ← wrapping "decrypting private key" (decrypt iface.private_key_encrypted)
  peers ← wrapping "listing peers" (list_peers id)
  blocks ← collect_blocks peers
  exists ← wrapping "checking interface" net_exists
  apply_conf id (conf_params iface private_key blocks) exists

-- A disabled interface is set down, and an error of that is ignored.
unfoldable pub sync_found : Text → Option Interface → App (Unit {0})
unfolding sync_enabled
sync_found id none = fail (message_about "interface %q not found" id)
sync_found id (some iface) =
    if not iface.enabled
    then (do attempt (net_call (set_down id)); pure tt)
    else sync_enabled id iface

unfoldable pub sync_interface : Text → App (Unit {0})
unfolding sync_found
sync_interface id = do found ← wrapping "getting interface" (get_interface id); sync_found id found

add_error : Text → Result Error (Unit {0}) → List (Text × Error) → List (Text × Error)
add_error id (ok _) errs = errs
add_error id (err e) errs = (id, e) ∷ errs

-- The loop of `SyncAll`, with the errors in order.
unfoldable pub sync_each : List Interface → App (List (Text × Error))
unfolding add_error
sync_each [] = pure []
sync_each (iface ∷ rest) = do
  result ← attempt (sync_interface iface.id)
  errs ← sync_each rest
  pure (add_error iface.id result errs)

-- All interfaces are synced, whatever becomes of the others, and the errors are joined.
unfoldable pub sync_all : App (Unit {0})
unfolding sync_each
sync_all = do
  ifaces ← wrapping "listing interfaces" list_interfaces
  errs ← sync_each ifaces
  if is_nil errs then pure tt else fail (message "sync errors")
