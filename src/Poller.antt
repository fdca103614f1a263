-- ===== src/Poller.antt =====
-- internal/server/poller.go: the loop that watches which peers are connected.
pub mod Tracked
pub mod Alternating
use wgrift.Base.{
  ℕ, suc, negate, ℤ, pos, negsuc, ◌-◌, ◌==◌, min, Bool, true, false, not, ◌&&◌, ◌||◌, Option, none,
  some, List, [], ◌∷◌, ◌++◌, Text, codes, text_eq, is_nil, leb, max_int, if◌then◌else◌,
}
use wgrift.Base.Result.{Result, ok, err}
use wgrift.Models.{Time, Interface, Peer, ConnectionLog}
use wgrift.App.{App, Error, pure, ◌>>=◌, ◌>>◌, attempt, time_now}
use wgrift.Store.Interfaces.{list_interfaces}
use wgrift.Store.Peers.{update_peer}
use wgrift.Store.Logs.{create_connection_log, last_connected_events, connected, disconnected}
use wgrift.Wg.Status.{PeerStatus, InterfaceStatus, get_status}

-- `peerSnapshot`; the zero time stands for no connection.
pub record PeerSnapshot : Type 0 where
  pub is_connected : Bool
  pub connected_since : Time
  pub transfer_rx : ℤ
  pub transfer_tx : ℤ
  pub endpoint : Text

-- A call of `alertFn`, with the duration in nanoseconds.
pub record Alert : Type 0 where
  pub peer : Peer
  pub interface : Interface
  pub event : Text
  pub endpoint : Text
  pub duration : ℤ

-- The poller's state: the snapshots by public key, and the times that seed them. The alerts are
-- those started so far.
pub record Poller : Type 0 where
  pub last_state : List (Text × PeerSnapshot)
  pub seed_connected : List (Text × Time)
  pub alerts : List Alert
  pub has_alert_fn : Bool

module _ {A : Type 0} where
  -- A map's entry.
  unfoldable pub lookup : Text → List (Text × A) → Option A
  lookup key [] = none
  lookup key ((k, a) ∷ rest) =
      let found = lookup key rest in if text_eq k key then some a else found

  unfoldable pub store : Text → A → List (Text × A) → List (Text × A)
  store key a [] = (key, a) ∷ []
  store key a ((k, b) ∷ rest) =
      let stored = store key a rest in if text_eq k key then (k, a) ∷ rest else (k, b) ∷ stored

unfoldable pub int_eq : ℤ → ℤ → Bool
int_eq (pos m) (pos n) = m == n
int_eq (negsuc m) (negsuc n) = m == n
int_eq _ _ = false

-- The last handshake, or now where there was none.
unfoldable pub handshake_or_now : Time → App Time
handshake_or_now handshake = if handshake == 0 then time_now else pure handshake

abbrev pub seeded : Time → Option Time → App Time
seeded handshake (some t) = pure t
seeded handshake none = handshake_or_now handshake

-- `ConnectedSince` of a peer that is connected.
unfoldable pub connected_since : Poller → PeerStatus → Option PeerSnapshot → App Time
connected_since p ps (some prev) =
    if prev.is_connected then pure prev.connected_since else handshake_or_now ps.last_handshake
connected_since p ps none = seeded ps.last_handshake (lookup ps.peer.id p.seed_connected)

unfoldable pub take_snapshot : Poller → PeerStatus → Option PeerSnapshot → App PeerSnapshot
unfolding connected_since
take_snapshot p ps prev = do
  since ← (if ps.connected then connected_since p ps prev else pure 0)
  pure (record {
    is_connected = ps.connected;
    connected_since = since;
    transfer_rx = ps.transfer_rx;
    transfer_tx = ps.transfer_tx;
    endpoint = ps.endpoint;
  })

-- The event of a peer that was seen before and is now connected or not.
unfoldable pub transition : Option PeerSnapshot → Bool → Option Text
transition none now = none
transition (some prev) true = if prev.is_connected then none else some connected
transition (some prev) false = if prev.is_connected then some disconnected else none

abbrev pub log_entry : Text → PeerStatus → Text → ConnectionLog
log_entry interface_id ps event = record {
  id = 0;
  peer_id = ps.peer.id;
  peer_name = [];
  interface_id = interface_id;
  event = event;
  endpoint = ps.endpoint;
  transfer_rx = ps.transfer_rx;
  transfer_tx = ps.transfer_tx;
  recorded_at = 0;
  duration = pos 0;
}

unfoldable pub should_alert : Poller → PeerStatus → Text → Bool
should_alert p ps event =
    p.has_alert_fn
    && (text_eq event connected && ps.peer.alert_on_connect
        || text_eq event disconnected && ps.peer.alert_on_disconnect)
    && not (is_nil ps.peer.alert_emails)

abbrev pub since_of : Option PeerSnapshot → Time
since_of none = 0
since_of (some prev) = prev.connected_since

-- `now.Sub(since)`, which stays in the range of a duration.
unfoldable pub time_between : Time → Time → ℤ
time_between now since =
    if leb since now
    then pos (min (now - since) max_int)
    else negate (min (since - now) (suc max_int))

-- How long the connection lasted that a disconnection ends.
unfoldable pub duration_of : Text → Time → App ℤ
unfolding time_between
duration_of event since =
    if text_eq event disconnected && not (since == 0)
    then (do now ← time_now; pure (time_between now since))
    else pure (pos 0)

unfoldable pub add_alert : Poller → Interface → PeerStatus → Text → Time → App Poller
add_alert p iface ps event since =
    if should_alert p ps event
    then (do
      duration ← duration_of event since
      pure (record p {
        alerts =
            p.alerts
            ++ record {
              peer = record ps.peer { transfer_rx = ps.transfer_rx; transfer_tx = ps.transfer_tx };
              interface = iface;
              event = event;
              endpoint = ps.endpoint;
              duration = duration;
            }
              ∷ [];
      }))
    else pure p

-- A transition is logged, whether or not the store takes the entry, and may raise an alert.
unfoldable pub report :
    Poller → Interface → PeerStatus → Option PeerSnapshot → Option Text → App Poller
unfolding add_alert
report p iface ps prev none = pure p
report p iface ps prev (some event) = do
  attempt (create_connection_log (log_entry iface.id ps event))
  add_alert p iface ps event (since_of prev)

abbrev pub transferred : Option PeerSnapshot → ℤ × ℤ
transferred none = (pos 0, pos 0)
transferred (some prev) = (prev.transfer_rx, prev.transfer_tx)

-- The peer's row is written back where the counters moved.
unfoldable pub save_counters : PeerStatus → ℤ × ℤ → App (Unit {0})
save_counters ps (rx, tx) =
    if int_eq ps.transfer_rx rx && int_eq ps.transfer_tx tx then pure tt else (do
      attempt (
          update_peer (record ps.peer {
            last_handshake =
                if ps.last_handshake == 0 then ps.peer.last_handshake else some ps.last_handshake;
            transfer_rx = ps.transfer_rx;
            transfer_tx = ps.transfer_tx;
          }))
      pure tt)

-- The body of the loop over the peers.
unfoldable pub poll_peer : Interface → Poller → PeerStatus → App Poller
poll_peer iface p ps = do
  let prev = lookup ps.peer.public_key p.last_state
  current ← take_snapshot p ps prev
  reported ← report p iface ps prev (transition prev ps.connected)
  save_counters ps (transferred prev)
  pure (record reported { last_state = store ps.peer.public_key current p.last_state })

unfoldable pub poll_peers : Interface → Poller → List PeerStatus → App Poller
poll_peers iface p [] = pure p
poll_peers iface p (ps ∷ rest) = do q ← poll_peer iface p ps; poll_peers iface q rest

abbrev pub poll_status : Interface → Poller → Result Error InterfaceStatus → App Poller
poll_status iface p (ok status) = poll_peers iface p status.peers
poll_status iface p (err e) = pure p

unfoldable pub poll_interface : Poller → Interface → App Poller
unfolding poll_peers
poll_interface p iface =
    if not iface.enabled
    then pure p
    else (do status ← attempt (get_status iface.id); poll_status iface p status)

unfoldable pub poll_interfaces : Poller → List Interface → App Poller
unfolding poll_interface
poll_interfaces p [] = pure p
poll_interfaces p (iface ∷ rest) = do q ← poll_interface p iface; poll_interfaces q rest

abbrev pub poll_listed : Poller → Result Error (List Interface) → App Poller
poll_listed p (ok ifaces) = poll_interfaces p ifaces
poll_listed p (err e) = pure p

unfoldable pub poll : Poller → App Poller
unfolding poll_interfaces
poll p = do ifaces ← attempt list_interfaces; poll_listed p ifaces

abbrev pub or_no_times : Result Error (List (Text × Time)) → List (Text × Time)
or_no_times (ok times) = times
or_no_times (err e) = []

-- The start of `Run`: the first poll is seeded with the log's open connections.
unfoldable pub seed : Poller → App Poller
seed p = do
  times ← attempt last_connected_events
  q ← poll (record p { seed_connected = or_no_times times })
  pure (record q { seed_connected = [] })

abbrev pub since_if_connected : Option PeerSnapshot → Time
since_if_connected none = 0
since_if_connected (some snap) = if snap.is_connected then snap.connected_since else 0

unfoldable pub get_connected_since : Poller → Text → Time
get_connected_since p key = since_if_connected (lookup key p.last_state)
