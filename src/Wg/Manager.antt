-- ===== src/Wg/Manager.antt =====
-- The operations of `Manager` in internal/wg/manager.go on interfaces and peers.
pub mod Kept
use wgrift.Base.{
  ℕ, ℤ, pos, is_zero, Bool, true, false, not, ◌&&◌, Option, none, some, List, [], ◌∷◌, ◌++◌, Text,
  codes, trim_space, split_at, join_with, is_nil, length, if◌then◌else◌,
}
use wgrift.Base.Result.{Result, ok, err}
use wgrift.Models.{Interface, Peer}
use wgrift.App.{
  App, Error, message, message_about, pure, fail, ◌>>=◌, ◌>>◌, wrapping, attempt, external_call,
  net_call, set_down, quick_up, quick_down, delete,
}
use wgrift.Store.Interfaces.{create_interface, get_interface, update_interface, delete_interface}
use wgrift.Store.Peers.{create_peer, get_peer, list_peers, update_peer, delete_peer}
use wgrift.Confgen.Parse.{ParsedConfig, ParsedPeer}
use wgrift.Wg.Sync.{encrypt, sync_interface}

-- `crypto.GenerateKeyPair`.
unfoldable pub generate_key_pair : App (Text × Text)
generate_key_pair = external_call (λ env t. env.generate_key_pair t)

-- `Manager.CreateInterface`, which keeps only the private key.
unfoldable pub manager_create_interface : Interface → App Interface
manager_create_interface iface = do
  keys ← wrapping "generating keys" generate_key_pair
  encrypted ← wrapping "encrypting private key" (encrypt keys.0)
  wrapping "storing interface"
      (create_interface (record iface { private_key_encrypted = encrypted; enabled = true }))

-- Without force, an interface that has peers is kept.
unfoldable pub refuse_if_peers : Text → Bool → App (Unit {0})
refuse_if_peers id true = pure tt
refuse_if_peers id false = do
  peers ← wrapping "listing peers" (list_peers id)
  if is_nil peers
      then pure tt
      else fail (message_about "interface has peers; use --force to delete" id)

abbrev pub required : {A : Type 0} → Error → Option A → App A
required e none = fail e
required e (some a) = pure a

abbrev pub no_interface : Text → Error
no_interface id = message_about "interface %q not found" id

abbrev pub no_peer : Text → Error
no_peer id = message_about "peer %q not found" id

-- `Manager.DeleteInterface`. Errors of the kernel are ignored.
unfoldable pub manager_delete_interface : Text → Bool → App (Unit {0})
unfolding refuse_if_peers
manager_delete_interface id force = do
  found ← wrapping "getting interface" (get_interface id)
  required (no_interface id) found
  refuse_if_peers id force
  attempt (net_call (delete id))
  wrapping "deleting interface from store" (delete_interface id)

unfoldable pub with_psk : Bool → Peer → App Peer
with_psk false peer = pure peer
with_psk true peer = do
  psk ← wrapping "generating preshared key" (external_call (λ env t. env.generate_preshared_key t))
  encrypted ← wrapping "encrypting preshared key" (encrypt psk)
  pure (record peer { preshared_key_encrypted = encrypted })

-- `Manager.AddPeer`. A failed sync is an error, and the peer stays stored.
unfoldable pub add_peer : Peer → Bool → App Peer
unfolding with_psk
add_peer peer generate_psk = do
  found ← wrapping "getting interface" (get_interface peer.interface_id)
  required (no_interface peer.interface_id) found
  keys ← wrapping "generating peer keys" generate_key_pair
  encrypted ← wrapping "encrypting peer private key" (encrypt keys.0)
  keyed ←
      with_psk generate_psk (record peer { public_key = keys.1; private_key_encrypted = encrypted })
  stored ← wrapping "storing peer" (create_peer (record keyed { enabled = true }))
  wrapping "syncing interface after adding peer" (sync_interface peer.interface_id)
  pure stored

-- `Manager.RemovePeer`.
unfoldable pub manager_remove_peer : Text → App (Unit {0})
manager_remove_peer id = do
  found ← wrapping "getting peer" (get_peer id)
  peer ← required (no_peer id) found
  wrapping "deleting peer" (delete_peer id)
  wrapping "syncing interface after removing peer" (sync_interface peer.interface_id)

-- `Manager.setPeerEnabled`.
unfoldable pub set_peer_enabled : Text → Bool → App (Unit {0})
set_peer_enabled id enabled = do
  found ← wrapping "getting peer" (get_peer id)
  peer ← required (no_peer id) found
  wrapping "updating peer" (update_peer (record peer { enabled = enabled }))
  wrapping "syncing interface after updating peer" (sync_interface peer.interface_id)

unfoldable pub enable_peer : Text → App (Unit {0})
enable_peer id = set_peer_enabled id true

unfoldable pub disable_peer : Text → App (Unit {0})
disable_peer id = set_peer_enabled id false

-- What is done in place of a call that failed.
unfoldable pub fall_back : App (Unit {0}) → Result Error (Unit {0}) → App (Unit {0})
fall_back other (ok _) = pure tt
fall_back other (err _) = other

-- `wg-quick up`, and a sync in its place if it fails.
unfoldable pub quick_up_or_sync : Text → App (Unit {0})
quick_up_or_sync id = do
  result ← attempt (net_call (quick_up id))
  fall_back (sync_interface id) result

-- `Manager.StartInterface`.
unfoldable pub start_interface : Text → App (Unit {0})
unfolding quick_up_or_sync fall_back
start_interface id = do
  found ← wrapping "getting interface" (get_interface id)
  iface ← required (no_interface id) found
  wrapping "updating interface" (update_interface (record iface { enabled = true }))
  quick_up_or_sync id

-- `wg-quick down`, and setting the link down in its place if it fails.
unfoldable pub quick_down_or_set_down : Text → App (Unit {0})
quick_down_or_set_down id = do
  result ← attempt (net_call (quick_down id))
  fall_back (wrapping "bringing down interface" (net_call (set_down id))) result

-- `Manager.StopInterface`: the store is written after the link is down.
unfoldable pub stop_interface : Text → App (Unit {0})
unfolding quick_down_or_set_down fall_back
stop_interface id = do
  found ← wrapping "getting interface" (get_interface id)
  iface ← required (no_interface id) found
  quick_down_or_set_down id
  wrapping "updating interface" (update_interface (record iface { enabled = false }))
  pure tt

-- `Manager.RestartInterface`.
unfoldable pub restart_interface : Text → App (Unit {0})
unfolding quick_up_or_sync fall_back
restart_interface id = do attempt (net_call (quick_down id)); quick_up_or_sync id
