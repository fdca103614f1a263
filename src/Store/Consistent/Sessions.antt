-- ===== src/Store/Consistent/Sessions.antt =====
-- The statements on sessions of internal/store/store_users.go and the consistency of the tables.
use wgrift.Base.{
  ◌≡◌, refl, ◌∙◌, Bool, true, List, [], ◌∷◌, ◌++◌, arith, Text, text_eq, any, every, every-append,
  inl, inr, Bool-cases,
}
use wgrift.Models.{Session, Time}
use wgrift.App.Keeps.{After}
use wgrift.Store.Db.{Db, update_where, delete_where, user_exists}
use wgrift.Store.Sessions.{
  insert_session, set_last_seen, remove_session, remove_expired_sessions, remove_user_sessions,
}
use wgrift.Store.Keys.{
  every-select, IsDistinct, IsDistinct-append, IsDistinct-select, IsDistinct-update_where,
}
use wgrift.Store.Consistent.{IsConsistent}

-- The session table may be replaced by one whose sessions have their users.
sessions-IsConsistent :
    (db : Db) (sessions : List Session)
    → IsConsistent db
    → every (λ s. user_exists s.user_id db) sessions ≡ true
    → IsDistinct (λ s. s.id) sessions
    → IsConsistent (record db { sessions = sessions })
sessions-IsConsistent db sessions c h ids = record {
  interface_ids = c.interface_ids;
  interface_types = c.interface_types;
  peer_ids = c.peer_ids;
  public_keys = c.public_keys;
  peer_types = c.peer_types;
  peers_belong = c.peers_belong;
  logs_belong = c.logs_belong;
  user_ids = c.user_ids;
  usernames = c.usernames;
  roles = c.roles;
  sessions_belong = h;
  session_ids = ids;
  log_ids = c.log_ids;
  log_events = c.log_events;
  identities = c.identities;
  keyed = c.keyed;
}

-- An insertion of a session keeps the tables consistent.
pub insert_session-IsConsistent :
    (s : Session) (db : Db) → IsConsistent db → After IsConsistent (insert_session s true db)
unfolding insert_session
insert_session-IsConsistent s db c =
    elim (Bool-cases (any (λ old. text_eq old.id s.id) db.sessions)) [
      | inl old ↦ rw old tt
      | inr new ↦ elim (Bool-cases (user_exists s.user_id db)) [
        | inr gone ↦ rw (new, gone) tt
        | inl there ↦
            rw (new, there)
              (sessions-IsConsistent db (db.sessions ++ s ∷ []) c
                (every-append (λ t. user_exists t.user_id db) db.sessions (s ∷ [])
                  ∙ unfold every in ground (arith, c.sessions_belong, there))
                (IsDistinct-append (λ t. t.id) db.sessions s new c.session_ids))
      ]
    ]

same_users :
    (now : Time) (id : Text) (db : Db) (ss : List Session)
    → every (λ s. user_exists s.user_id db) ss ≡ true
    → every
        (λ s. user_exists s.user_id db)
        (update_where (λ s. text_eq s.id id) (λ s. record s { last_seen_at = now }) ss)
      ≡ true
unfolding every update_where
same_users now id db [] h = refl
same_users now id db (s ∷ ss) h = elim (Bool-cases (text_eq s.id id)) [
  | inl yes' ↦ rw yes' (ground (arith, same_users now id db ss))
  | inr no' ↦ rw no' (ground (arith, same_users now id db ss))
]

pub set_last_seen-IsConsistent :
    (now : Time) (id : Text) (fk : Bool) (db : Db)
    → IsConsistent db
    → After IsConsistent (set_last_seen now id fk db)
unfolding set_last_seen
set_last_seen-IsConsistent now id fk db c =
    sessions-IsConsistent db _ c (same_users now id db db.sessions c.sessions_belong)
      (IsDistinct-update_where (λ s. s.id) _ _ db.sessions (λ s h. refl) c.session_ids)

pub remove_session-IsConsistent :
    (id : Text) (fk : Bool) (db : Db)
    → IsConsistent db
    → After IsConsistent (remove_session id fk db)
unfolding remove_session delete_where
remove_session-IsConsistent id fk db c =
    sessions-IsConsistent db _ c (every-select _ _ _ db.sessions (λ s h k. h) c.sessions_belong)
      (IsDistinct-select (λ s. s.id) _ db.sessions c.session_ids)

pub remove_expired_sessions-IsConsistent :
    (now : Time) (fk : Bool) (db : Db)
    → IsConsistent db
    → After IsConsistent (remove_expired_sessions now fk db)
unfolding remove_expired_sessions delete_where
remove_expired_sessions-IsConsistent now fk db c =
    sessions-IsConsistent db _ c (every-select _ _ _ db.sessions (λ s h k. h) c.sessions_belong)
      (IsDistinct-select (λ s. s.id) _ db.sessions c.session_ids)

pub remove_user_sessions-IsConsistent :
    (id : Text) (fk : Bool) (db : Db)
    → IsConsistent db
    → After IsConsistent (remove_user_sessions id fk db)
unfolding remove_user_sessions delete_where
remove_user_sessions-IsConsistent id fk db c =
    sessions-IsConsistent db _ c (every-select _ _ _ db.sessions (λ s h k. h) c.sessions_belong)
      (IsDistinct-select (λ s. s.id) _ db.sessions c.session_ids)
