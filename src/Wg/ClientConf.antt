-- ===== src/Wg/ClientConf.antt =====
-- `GenerateConfig` of internal/wg/manager.go.
pub mod Sound
use wgrift.Base.{
  ℤ, pos, is_positive, print_int, Bool, true, false, Option, none, some, List, [], ◌∷◌, ◌++◌, Text,
  codes, is_nil, if◌then◌else◌,
}
use wgrift.Models.{Interface, Peer}
use wgrift.App.{App, Error, message, pure, fail, ◌>>=◌, ◌>>◌, wrapping}
use wgrift.Store.Interfaces.{get_interface}
use wgrift.Store.Peers.{get_peer}
use wgrift.Confgen.Generate.{PeerConfParams, generate_peer_conf}
use wgrift.Wg.Sync.{decrypt}
use wgrift.Wg.Manager.{required, no_interface, no_peer}
use wgrift.Wg.Status.{public_key_from_private}

abbrev or_text : Text → Text → Text
or_text text other = if is_nil text then other else text

abbrev or_not_positive : ℤ → ℤ
or_not_positive n = if is_positive n then n else pos 0

-- The parameters of the file: the manager's external address stands in for an endpoint, the full
-- tunnel for the client's addresses, and the interface's DNS servers for the peer's.
unfoldable pub client_params : Text → Peer → Interface → Text → Text → Text → PeerConfParams
client_params external_ip peer iface private_key server_public_key psk = record {
  name = peer.name;
  private_key = private_key;
  address = peer.address;
  dns = or_text peer.dns iface.dns;
  server_public_key = server_public_key;
  server_endpoint = or_text iface.endpoint external_ip ++ (b':' ∷ print_int iface.listen_port);
  allowed_ips = or_text peer.client_allowed_ips (codes "0.0.0.0/0, ::/0");
  preshared_key = psk;
  persistent_keepalive = or_not_positive peer.persistent_keepalive;
  mtu = iface.mtu;
}

-- A peer that was imported has no private key.
unfoldable pub require_key : Peer → App (Unit {0})
require_key peer =
    if is_nil peer.private_key_encrypted
    then fail (message "no private key available for this peer")
    else pure tt

unfoldable pub decrypt_psk : Peer → App Text
decrypt_psk peer =
    if is_nil peer.preshared_key_encrypted
    then pure []
    else wrapping "decrypting preshared key" (decrypt peer.preshared_key_encrypted)

-- `Manager.GenerateConfig`, for a manager with the external address.
unfoldable pub generate_config : Text → Text → App Text
unfolding require_key decrypt_psk
generate_config external_ip peer_id = do
  found ← wrapping "getting peer" (get_peer peer_id)
  peer ← required (no_peer peer_id) found
  found_iface ← wrapping "getting interface" (get_interface peer.interface_id)
  iface ← required (no_interface peer.interface_id) found_iface
  require_key peer
  private_key ← wrapping "decrypting peer private key" (decrypt peer.private_key_encrypted)
  server_key ← wrapping "decrypting server private key" (decrypt iface.private_key_encrypted)
  server_public_key ← wrapping "deriving server public key" (public_key_from_private server_key)
  psk ← decrypt_psk peer
  pure (generate_peer_conf (client_params external_ip peer iface private_key server_public_key psk))
