-- ===== src/Store/Consistent/Logs.antt =====
-- The statements on connection logs of internal/store/store_logs.go and the consistency of the
-- tables.
use wgrift.Base.{
  ℕ, ◌≡◌, ◌∙◌, true, List, [], ◌∷◌, ◌+◌, pos, arith, every, ltb, every-append, inl, inr, Bool-cases,
}
use wgrift.Models.{ConnectionLog, Time}
use wgrift.App.Keeps.{After}
use wgrift.Store.Db.{Db, delete_where, event_allowed, peer_exists}
use wgrift.Store.Logs.{insert_log}
use wgrift.Store.Keys.{every-select}
use wgrift.Store.Apart.{IsNumbered, IsNumbered-append, IsNumbered-select}
use wgrift.Store.Consistent.{IsConsistent}

abbrev with_logs : Db → List ConnectionLog → ℕ → Db
with_logs db logs last = record db { connection_logs = logs; last_log_id = last }

pub logs-IsConsistent :
    (db : Db) (logs : List ConnectionLog) (last : ℕ)
    → IsConsistent db
    → every (λ l. peer_exists l.peer_id db) logs ≡ true
    → IsNumbered (λ l. l.id) last logs
    → every (λ l. event_allowed l.event) logs ≡ true
    → IsConsistent (with_logs db logs last)
logs-IsConsistent db logs last c h numbered events = record {
  interface_ids = c.interface_ids;
  interface_types = c.interface_types;
  peer_ids = c.peer_ids;
  public_keys = c.public_keys;
  peer_types = c.peer_types;
  peers_belong = c.peers_belong;
  logs_belong = h;
  user_ids = c.user_ids;
  usernames = c.usernames;
  roles = c.roles;
  sessions_belong = c.sessions_belong;
  session_ids = c.session_ids;
  log_ids = numbered;
  log_events = events;
  identities = c.identities;
  keyed = c.keyed;
}

-- An insertion of a log keeps the tables consistent.
pub insert_log-IsConsistent :
    (l : ConnectionLog) (db : Db) → IsConsistent db → After IsConsistent (insert_log l true db)
unfolding insert_log
insert_log-IsConsistent l db c = elim (Bool-cases (event_allowed l.event)) [
  | inr bad ↦ rw bad tt
  | inl allowed ↦ elim (Bool-cases (peer_exists l.peer_id db)) [
    | inr gone ↦ rw (allowed, gone) tt
    | inl belongs ↦
        rw (allowed, belongs)
          (logs-IsConsistent db _ _ c
            (every-append (λ m. peer_exists m.peer_id db) db.connection_logs
                (record l { id = db.last_log_id + 1; peer_name = []; duration = pos 0 } ∷ [])
              ∙ unfold every in ground (arith, c.logs_belong, belongs))
            (IsNumbered-append (λ m. m.id) db.last_log_id db.connection_logs _ (omega arith)
              c.log_ids)
            (every-append (λ m. event_allowed m.event) db.connection_logs _
              ∙ unfold every in ground (arith, c.log_events, allowed)))
  ]
]

-- The deletion of old logs does too.
pub old_logs-IsConsistent :
    (before : Time) (db : Db)
    → IsConsistent db
    → IsConsistent (record db {
      connection_logs = delete_where (λ l. ltb l.recorded_at before) db.connection_logs;
    })
unfolding delete_where
old_logs-IsConsistent before db c =
    logs-IsConsistent db _ db.last_log_id c
      (every-select _ _ _ db.connection_logs (λ l h k. h) c.logs_belong)
      (IsNumbered-select _ db.last_log_id _ db.connection_logs c.log_ids)
      (every-select _ _ _ db.connection_logs (λ l h k. h) c.log_events)
