-- ===== src/Wg/Status.antt =====
-- `GetStatus` of internal/wg/manager.go.
use wgrift.Base.{
  ℕ, ℤ, pos, ◌-◌, ◌*◌, ◌==◌, ltb, Bool, false, not, ◌&&◌, Option, none, some, List, [], ◌∷◌, map,
  Text, text_eq, is_nil, if◌then◌else◌,
}
use wgrift.Base.Result.{Result, ok, err}
use wgrift.Models.{Time, Interface, Peer}
use wgrift.App.{
  App, Error, LivePeer, pure, ◌>>=◌, wrapping, attempt, time_now, external_call, net_exists,
}
use wgrift.Store.Interfaces.{get_interface}
use wgrift.Store.Peers.{list_peers}
use wgrift.Wg.Sync.{decrypt}
use wgrift.Wg.Manager.{required, no_interface}

-- The poller's `ConnectedSince` is not filled in here.
pub record PeerStatus : Type 0 where
  pub peer : Peer
  pub has_private_key : Bool
  pub last_handshake : Time
  pub transfer_rx : ℤ
  pub transfer_tx : ℤ
  pub connected : Bool
  pub endpoint : Text

pub record InterfaceStatus : Type 0 where
  pub interface : Interface
  pub public_key : Text
  pub running : Bool
  pub peers : List PeerStatus

-- `crypto.PublicKeyFromPrivate`.
unfoldable pub public_key_from_private : Text → App Text
public_key_from_private key = external_call (λ env t. env.public_key key)

-- 135 seconds.
abbrev pub threshold : ℕ
threshold = 135 * 1_000_000_000

-- The status of a peer by the store alone.
abbrev pub stored_status : Peer → PeerStatus
stored_status p = record {
  peer = p;
  has_private_key = not (is_nil p.private_key_encrypted);
  last_handshake = 0;
  transfer_rx = pos 0;
  transfer_tx = pos 0;
  connected = false;
  endpoint = [];
}

abbrev or_no_text : Option Text → Text
or_no_text none = []
or_no_text (some t) = t

-- A handshake later than `now` counts as recent.
unfoldable pub is_recent : Time → Time → Bool
is_recent now handshake = not (handshake == 0) && ltb (now - handshake) threshold

abbrev pub with_live : Time → Peer → Option LivePeer → PeerStatus
with_live now p none = stored_status p
with_live now p (some live) = record {
  peer = p;
  has_private_key = not (is_nil p.private_key_encrypted);
  last_handshake = live.last_handshake;
  transfer_rx = live.receive_bytes;
  transfer_tx = live.transmit_bytes;
  connected = is_recent now live.last_handshake;
  endpoint = or_no_text live.endpoint;
}

abbrev or_earlier : Option LivePeer → Option LivePeer → Option LivePeer
or_earlier none earlier = earlier
or_earlier (some l) earlier = some l

-- The map of live peers by public key: a later entry replaces an earlier one.
unfoldable pub live_peer : Text → List LivePeer → Option LivePeer
live_peer key [] = none
live_peer key (l ∷ ls) =
    or_earlier (live_peer key ls) (if text_eq l.public_key key then some l else none)

unfoldable pub live_statuses : Time → List LivePeer → List Peer → List PeerStatus
live_statuses now live peers = map (λ p. with_live now p (live_peer p.public_key live)) peers

-- An error of `Exists` counts as not running.
abbrev pub exists_or_false : Result Error Bool → Bool
exists_or_false (ok b) = b
exists_or_false (err e) = false

-- Without a device, the store's data alone.
abbrev pub peer_statuses : List Peer → Result Error (List LivePeer) → App (List PeerStatus)
peer_statuses peers (err e) = pure (map stored_status peers)
peer_statuses peers (ok live) = do now ← time_now; pure (live_statuses now live peers)

unfoldable pub get_status : Text → App InterfaceStatus
get_status id = do
  found ← wrapping "getting interface" (get_interface id)
  iface ← required (no_interface id) found
  private_key ← wrapping "decrypting private key" (decrypt iface.private_key_encrypted)
  public_key ← wrapping "deriving public key" (public_key_from_private private_key)
  peers ← wrapping "listing peers" (list_peers id)
  exists ← attempt net_exists
  device ← attempt (external_call (λ env t. env.device t id))
  statuses ← peer_statuses peers device
  pure (record {
    interface = iface;
    public_key = public_key;
    running = exists_or_false exists;
    peers = statuses;
  })
