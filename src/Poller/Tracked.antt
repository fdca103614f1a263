-- ===== src/Poller/Tracked.antt =====
-- What the poller of internal/server/poller.go remembers of a peer.
use wgrift.Base.{
  ℤ, ◌==◌, ◌≡◌, refl, true, false, not, ◌&&◌, Option, none, some, List, [], ◌∷◌, arith, Text,
  text_eq, text_eq_iff, text_eq_refl,
}
use wgrift.Models.{Time, Interface}
use wgrift.App.{Env}
use wgrift.App.Total.{
  Total, Total-pure, Total-time_now, Total-attempt, Total-bind, Total-if, Total-weaken,
}
use wgrift.Store.Logs.{disconnected}
use wgrift.Wg.Status.{PeerStatus}
use wgrift.Poller.{
  Poller, PeerSnapshot, lookup, store, handshake_or_now, seeded, connected_since, take_snapshot,
  report, add_alert, duration_of, save_counters, poll_peer, transition, since_of, transferred,
  should_alert, int_eq,
}

-- The snapshot is that of the status: it knows since when the peer is connected, and carries that
-- on from a snapshot that was connected already.
pub record IsSnapshotOf (ps : PeerStatus) (prev : Option PeerSnapshot) (snap : PeerSnapshot)
    : Type 0 where
  pub same_state : snap.is_connected ≡ ps.connected
  pub same_rx : snap.transfer_rx ≡ ps.transfer_rx
  pub same_tx : snap.transfer_tx ≡ ps.transfer_tx
  pub no_time : ps.connected ≡ false → snap.connected_since ≡ 0
  pub carried :
      (old : PeerSnapshot)
      → prev ≡ some old
      → old.is_connected ≡ true
      → ps.connected ≡ true
      → snap.connected_since ≡ old.connected_since

-- Behind a poll of one peer, its snapshot is new, and those of all others are as they were.
pub record IsTracked (p : Poller) (ps : PeerStatus) (q : Poller) : Type 0 where
  pub snapshot : PeerSnapshot
  pub is_snapshot : IsSnapshotOf ps (lookup ps.peer.public_key p.last_state) snapshot
  pub remembered : lookup ps.peer.public_key q.last_state ≡ some snapshot
  pub others :
      (key : Text)
      → text_eq ps.peer.public_key key ≡ false
      → lookup key q.last_state ≡ lookup key p.last_state

lookup-store :
    {A : Type 0} (key : Text) (a : A) (m : List (Text × A)) → lookup key (store key a m) ≡ some a
unfolding lookup store
lookup-store key a [] = ground (arith, text_eq_refl key)
lookup-store key a ((k, b) ∷ rest) = ground (arith, lookup-store key a rest)

lookup-store-other :
    {A : Type 0} (key other : Text) (a : A) (m : List (Text × A))
    → text_eq key other ≡ false
    → lookup other (store key a m) ≡ lookup other m
unfolding lookup store
lookup-store-other key other a [] h = ground arith
lookup-store-other key other a ((k, b) ∷ rest) h =
    ground (arith, lookup-store-other key other a rest h, text_eq_iff k key, text_eq_iff k other)

module _ {env : Env} where
  handshake_or_now-Total : (t : Time) → Total env (λ s. Unit) (handshake_or_now t)
  unfolding handshake_or_now
  handshake_or_now-Total t = Total-if _ (t == 0) _ _ (λ e. Total-time_now) (λ e. Total-pure _ t tt)

  seeded-Total : (t : Time) (found : Option Time) → Total env (λ s. Unit) (seeded t found)
  seeded-Total t (some s) = Total-pure _ s tt
  seeded-Total t none = handshake_or_now-Total t

  connected_since-Total :
      (p : Poller) (ps : PeerStatus) (prev : Option PeerSnapshot)
      → Total env
          (λ since.
            (old : PeerSnapshot)
            → prev ≡ some old
            → old.is_connected ≡ true
            → since ≡ old.connected_since)
          (connected_since p ps prev)
  unfolding connected_since
  connected_since-Total p ps none =
      Total-weaken (λ s. Unit) _ _ (λ s u old e on. ground arith)
        (seeded-Total ps.last_handshake (lookup ps.peer.id p.seed_connected))
  connected_since-Total p ps (some prev) =
      Total-if _ prev.is_connected _ _ (λ on. Total-pure _ _ (λ old e on'. ground arith))
        (λ off.
          Total-weaken (λ s. Unit) _ _ (λ s u old e on. ground arith)
            (handshake_or_now-Total ps.last_handshake))

  take_snapshot-Total :
      (p : Poller) (ps : PeerStatus) (prev : Option PeerSnapshot)
      → Total env (IsSnapshotOf ps prev) (take_snapshot p ps prev)
  unfolding take_snapshot
  take_snapshot-Total p ps prev =
      Total-bind
        (λ since.
          (ps.connected ≡ false → since ≡ 0)
          × ((old : PeerSnapshot)
              → prev ≡ some old
              → old.is_connected ≡ true
              → ps.connected ≡ true
              → since ≡ old.connected_since))
        _ _ _
        (Total-if _ ps.connected _ _
          (λ on.
            Total-weaken _ _ _ (λ since h. (λ off. ground arith, λ old e was now. h old e was))
              (connected_since-Total p ps prev))
          (λ off. Total-pure _ 0 (λ e. refl, λ old e was now. ground arith)))
        (λ since h. Total-pure _ _ (record {
          same_state = refl;
          same_rx = refl;
          same_tx = refl;
          no_time = h.0;
          carried = h.1;
        }))

  duration_of-Total :
      (event : Text) (since : Time) → Total env (λ d. Unit) (duration_of event since)
  unfolding duration_of
  duration_of-Total event since =
      Total-if _ (text_eq event disconnected && not (since == 0)) _ _
        (λ e. Total-bind (λ t. Unit) _ _ _ Total-time_now (λ t u. Total-pure _ _ tt))
        (λ e. Total-pure _ _ tt)

  report-Total :
      (p : Poller) (iface : Interface) (ps : PeerStatus) (prev : Option PeerSnapshot)
      (event : Option Text)
      → Total env (λ q. Unit) (report p iface ps prev event)
  unfolding report add_alert
  report-Total p iface ps prev none = Total-pure _ p tt
  report-Total p iface ps prev (some event) =
      Total-bind (λ r. Unit) _ _ _ (Total-attempt _)
        (λ r u.
          Total-if _ (should_alert p ps event) _ _
            (λ e.
              Total-bind (λ d. Unit) _ _ _ (duration_of-Total event (since_of prev))
                (λ d u. Total-pure _ _ tt))
            (λ e. Total-pure _ p tt))

  save_counters-Total :
      (ps : PeerStatus) (old : ℤ × ℤ) → Total env (λ u. Unit) (save_counters ps old)
  unfolding save_counters
  save_counters-Total ps (rx, tx) =
      Total-if _ (int_eq ps.transfer_rx rx && int_eq ps.transfer_tx tx) _ _
        (λ e. Total-pure _ tt tt)
        (λ e. Total-bind (λ r. Unit) _ _ _ (Total-attempt _) (λ r u. Total-pure _ tt tt))

-- The poll of one peer always completes, whatever of the store fails, and remembers the peer's state
-- and counters under its public key and nothing else: a peer that is not connected has no time, and
-- one that was connected already keeps the time since when it is.
pub poll_peer-Total :
    (env : Env) (iface : Interface) (p : Poller) (ps : PeerStatus)
    → Total env (IsTracked p ps) (poll_peer iface p ps)
unfolding poll_peer
poll_peer-Total env iface p ps =
    let prev = lookup ps.peer.public_key p.last_state in
    Total-bind (IsSnapshotOf ps prev) _ _ _ (take_snapshot-Total p ps prev) (λ snap is_snap.
      Total-bind (λ q. Unit) _ _ _ (report-Total p iface ps prev (transition prev ps.connected))
        (λ q u.
          Total-bind (λ u. Unit) _ _ _ (save_counters-Total ps (transferred prev))
            (λ u v. Total-pure _ _ (record {
              snapshot = snap;
              is_snapshot = is_snap;
              remembered = lookup-store ps.peer.public_key snap p.last_state;
              others = λ key h. lookup-store-other ps.peer.public_key key snap p.last_state h;
            }))))
