-- ===== src/Store/Logs.antt =====
-- internal/store/store_logs.go: the connection log.
pub mod Durations
use wgrift.Base.{
  ℕ, suc, ℤ, pos, ◌+◌, ◌-◌, ◌/◌, min, Bool, not, ◌&&◌, Option, none, some, List, [], ◌∷◌, ◌++◌, map,
  Text, codes, text_eq, select, find_first, any, length, take, drop, leb, ltb, ◌==◌, max_int,
  negate, if◌then◌else◌,
}
use wgrift.Base.Result.{Result, ok, err}
use wgrift.Models.{Time, ConnectionLog, Peer}
use wgrift.Store.Db.{
  Db, Constraint, check_failed, foreign_key_failed, delete_where, order_by, event_allowed,
  peer_exists,
}
use wgrift.App.{App, pure, ◌>>=◌, wrapping, time_now, query, execute}

abbrev pub connected : Text
connected = codes "connected"

abbrev pub disconnected : Text
disconnected = codes "disconnected"

-- `INSERT INTO connection_logs`, which numbers the row. Names and durations are no columns.
unfoldable pub insert_log : ConnectionLog → Bool → Db → Result Constraint Db
insert_log l fk db =
    let id = db.last_log_id + 1 in
    if not (event_allowed l.event)
    then err check_failed
    else if fk && not (peer_exists l.peer_id db)
    then err foreign_key_failed
    else ok (record db {
      connection_logs =
          db.connection_logs ++ record l { id = id; peer_name = []; duration = pos 0 } ∷ [];
      last_log_id = id;
    })

-- The time of a log that has none is now.
unfoldable pub ensure_recorded_at : ConnectionLog → App ConnectionLog
ensure_recorded_at l =
    if l.recorded_at == 0
    then (do now ← time_now; pure (record l { recorded_at = now }))
    else pure l

unfoldable pub create_connection_log : ConnectionLog → App (Unit {0})
unfolding ensure_recorded_at insert_log
create_connection_log log = do
  row ← ensure_recorded_at log
  wrapping "inserting connection log" (execute (insert_log row))

-- `LEFT JOIN peers`: the name, or the empty text where the peer is gone.
name_of : Text → List Peer → Text
name_of id peers = elim (find_first (λ p. text_eq p.id id) peers) [ none ↦ [] | some p ↦ p.name ]

with_name : List Peer → ConnectionLog → ConnectionLog
unfolding name_of
with_name peers l = record l { peer_name = name_of l.peer_id peers }

-- `ORDER BY recorded_at DESC LIMIT ? OFFSET ?`.
unfoldable pub select_logs : (ConnectionLog → Bool) → ℕ → ℕ → Db → List ConnectionLog
unfolding with_name
select_logs p limit offset db = map (with_name db.peers) (
    take limit (
      drop offset
        (order_by (λ a b. leb b.recorded_at a.recorded_at) (select p db.connection_logs))))

-- `int64(a.Sub(b).Seconds())`, up to the rounding of `float64` past some 97 days: the difference
-- saturates at the largest duration, about 292 years,
-- and the seconds are cut towards 0.
unfoldable pub seconds_between : Time → Time → ℤ
seconds_between a b =
    if leb b a
    then pos (min (a - b) max_int / 1_000_000_000)
    else negate (min (b - a) (suc max_int) / 1_000_000_000)

-- The first later entry that opened the connection of the same peer.
unfoldable pub matching_connect : Text → List ConnectionLog → Option Time
matching_connect peer_id [] = none
matching_connect peer_id (l ∷ ls) =
    let rest = matching_connect peer_id ls in
    if text_eq l.peer_id peer_id && text_eq l.event connected then some l.recorded_at else rest

abbrev with_duration : ConnectionLog → Option Time → ConnectionLog
with_duration l none = l
with_duration l (some t) = record l { duration = seconds_between l.recorded_at t }

-- The durations of the disconnections in a list with the latest entry first.
unfoldable pub compute_log_durations : List ConnectionLog → List ConnectionLog
unfolding matching_connect
compute_log_durations [] = []
compute_log_durations (l ∷ ls) =
    (if text_eq l.event disconnected then with_duration l (matching_connect l.peer_id ls) else l)
    ∷ compute_log_durations ls

-- A page of the log, and the number of entries on all pages.
unfoldable pub list_logs : (ConnectionLog → Bool) → ℕ → ℕ → App (List ConnectionLog × ℕ)
unfolding select_logs compute_log_durations
list_logs p limit offset = do
  total ← wrapping "counting connection logs" (query (λ db. length (select p db.connection_logs)))
  logs ← wrapping "querying connection logs" (query (select_logs p limit offset))
  pure (compute_log_durations logs, total)

unfoldable pub list_connection_logs : Text → ℕ → ℕ → App (List ConnectionLog × ℕ)
unfolding list_logs
list_connection_logs interface_id = list_logs (λ l. text_eq l.interface_id interface_id)

unfoldable pub list_peer_connection_logs : Text → ℕ → ℕ → App (List ConnectionLog × ℕ)
unfolding list_logs
list_peer_connection_logs peer_id = list_logs (λ l. text_eq l.peer_id peer_id)

-- The row is the latest connection of its peer, and no disconnection came after it.
unfoldable pub is_open_connection : List ConnectionLog → ConnectionLog → Bool
is_open_connection all l =
    text_eq l.event connected
    && not
        (any (λ o. text_eq o.peer_id l.peer_id && (text_eq o.event connected && ltb l.id o.id)) all)
    && not (
        any (λ o. text_eq o.peer_id l.peer_id && (text_eq o.event disconnected && ltb l.id o.id))
          all)

-- The map from peers to the times of their open connections.
unfoldable pub last_connected_events : App (List (Text × Time))
unfolding is_open_connection
last_connected_events = wrapping "querying last connected events" (
    query (λ db.
      map (λ l. (l.peer_id, l.recorded_at))
        (select (is_open_connection db.connection_logs) db.connection_logs)))

unfoldable pub delete_old_connection_logs : Time → App (Unit {0})
delete_old_connection_logs before = wrapping "deleting old connection logs" (
    execute (λ fk db. ok (record db {
      connection_logs = delete_where (λ l. ltb l.recorded_at before) db.connection_logs;
    })))
