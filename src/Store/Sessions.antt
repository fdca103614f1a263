-- ===== src/Store/Sessions.antt =====
-- The session methods of internal/store/store_users.go.
use wgrift.Base.{
  Bool, not, ◌&&◌, Option, [], ◌∷◌, ◌++◌, Text, text_eq, find_first, any, ltb, if◌then◌else◌,
}
use wgrift.Base.Result.{Result, ok, err}
use wgrift.Models.{Time, Session}
use wgrift.Store.Db.{
  Db, Constraint, not_unique, foreign_key_failed, update_where, delete_where, user_exists,
}
use wgrift.App.{App, pure, ◌>>=◌, ◌>>◌, wrapping, time_now, query, execute}

-- `INSERT INTO sessions`.
unfoldable pub insert_session : Session → Bool → Db → Result Constraint Db
insert_session s fk db =
    if any (λ old. text_eq old.id s.id) db.sessions
    then err not_unique
    else if fk && not (user_exists s.user_id db)
    then err foreign_key_failed
    else ok (record db { sessions = db.sessions ++ s ∷ [] })

unfoldable pub create_session : Session → App Session
unfolding insert_session
create_session session = do
  now ← time_now
  let row = record session { created_at = now; last_seen_at = now }
  wrapping "inserting session" (execute (insert_session row))
  pure row

unfoldable pub select_session : Text → Db → Option Session
select_session id db = find_first (λ s. text_eq s.id id) db.sessions

unfoldable pub get_session : Text → App (Option Session)
unfolding select_session
get_session id = wrapping "querying session" (query (select_session id))

unfoldable pub set_last_seen : Time → Text → Bool → Db → Result Constraint Db
set_last_seen now id fk db = ok (record db {
  sessions = update_where (λ s. text_eq s.id id) (λ s. record s { last_seen_at = now }) db.sessions;
})

unfoldable pub touch_session : Text → App (Unit {0})
unfolding set_last_seen
touch_session id = do now ← time_now; wrapping "touching session" (execute (set_last_seen now id))

unfoldable pub remove_session : Text → Bool → Db → Result Constraint Db
remove_session id fk db =
    ok (record db { sessions = delete_where (λ s. text_eq s.id id) db.sessions })

unfoldable pub delete_session : Text → App (Unit {0})
unfolding remove_session
delete_session id = wrapping "deleting session" (execute (remove_session id))

unfoldable pub remove_expired_sessions : Time → Bool → Db → Result Constraint Db
remove_expired_sessions now fk db =
    ok (record db { sessions = delete_where (λ s. ltb s.expires_at now) db.sessions })

unfoldable pub delete_expired_sessions : App (Unit {0})
unfolding remove_expired_sessions
delete_expired_sessions = do
  now ← time_now
  wrapping "deleting expired sessions" (execute (remove_expired_sessions now))

unfoldable pub remove_user_sessions : Text → Bool → Db → Result Constraint Db
remove_user_sessions user_id fk db =
    ok (record db { sessions = delete_where (λ s. text_eq s.user_id user_id) db.sessions })

unfoldable pub delete_user_sessions : Text → App (Unit {0})
unfolding remove_user_sessions
delete_user_sessions user_id =
    wrapping "deleting user sessions" (execute (remove_user_sessions user_id))
