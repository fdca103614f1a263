-- ===== src/Wg/Import.antt =====
-- `ImportInterface` of internal/wg/manager.go.
pub mod Refused
use wgrift.Base.{
  pos, ℤ, is_zero, Bool, true, false, none, List, [], ◌∷◌, Text, codes, trim_space, split_at,
  join_with, is_nil, if◌then◌else◌,
}
use wgrift.Models.{Interface, Peer}
use wgrift.App.{App, pure, ◌>>=◌, ◌>>◌, wrapping}
use wgrift.Store.Interfaces.{create_interface}
use wgrift.Store.Peers.{create_peer}
use wgrift.Confgen.Parse.{ParsedConfig, ParsedPeer}
use wgrift.Wg.Sync.{encrypt}

-- The first of several allowed addresses, trimmed; a single one as it stands.
first_cidr : Text → List Text → Text
first_cidr all (first ∷ _ ∷ _) = trim_space first
first_cidr all _ = all

abbrev default_mtu : ℤ → ℤ
default_mtu mtu = if is_zero mtu then pos 1420 else mtu

-- The interface of the configuration. What it does not name is the zero value of its type.
unfoldable pub imported_interface : ParsedConfig → Text → Text → Text → Interface
imported_interface parsed id iface_type encrypted = record {
  id = id;
  interface_type = iface_type;
  listen_port = parsed.interface.listen_port;
  private_key_encrypted = encrypted;
  address = parsed.interface.address;
  dns = parsed.interface.dns;
  mtu = default_mtu parsed.interface.mtu;
  endpoint = [];
  post_up = join_with (codes "\n") parsed.interface.post_up;
  post_down = join_with (codes "\n") parsed.interface.post_down;
  enabled = true;
  created_at = 0;
  updated_at = 0;
}

-- The peer of the configuration. What it does not name, its type among it, is the zero value.
unfoldable pub imported_peer : Text → ParsedPeer → Peer
unfolding first_cidr
imported_peer id pp = record {
  id = [];
  interface_id = id;
  peer_type = [];
  name = pp.name;
  public_key = pp.public_key;
  private_key_encrypted = [];
  preshared_key_encrypted = [];
  address = first_cidr pp.allowed_ips (split_at b',' pp.allowed_ips);
  allowed_ips = pp.allowed_ips;
  client_allowed_ips = [];
  dns = [];
  endpoint = pp.endpoint;
  persistent_keepalive = pp.persistent_keepalive;
  alert_on_connect = false;
  alert_on_disconnect = false;
  alert_emails = [];
  enabled = true;
  expires_at = none;
  last_handshake = none;
  transfer_rx = pos 0;
  transfer_tx = pos 0;
  created_at = 0;
  updated_at = 0;
}

unfoldable pub with_imported_psk : Text → Peer → App Peer
with_imported_psk psk peer = if is_nil psk then pure peer else (do
  encrypted ← wrapping "encrypting preshared key" (encrypt psk)
  pure (record peer { preshared_key_encrypted = encrypted }))

-- The loop over the peers, which the first error ends.
unfoldable pub import_peers : Text → List ParsedPeer → App (Unit {0})
unfolding imported_peer with_imported_psk
import_peers id [] = pure tt
import_peers id (pp ∷ rest) = do
  peer ← with_imported_psk pp.preshared_key (imported_peer id pp)
  wrapping "storing peer" (create_peer peer)
  import_peers id rest

unfoldable pub import_interface : ParsedConfig → Text → Text → App Interface
unfolding imported_interface import_peers
import_interface parsed id iface_type = do
  encrypted ← wrapping "encrypting private key" (encrypt parsed.interface.private_key)
  iface ←
      wrapping "storing interface"
        (create_interface (imported_interface parsed id iface_type encrypted))
  import_peers id parsed.peers
  pure iface
