-- ===== src/Store/Users.antt =====
-- The user methods of internal/store/store_users.go.
use wgrift.Base.{
  ℕ, Bool, not, ◌&&◌, ◌||◌, Option, List, [], ◌∷◌, ◌++◌, Text, text_eq, find_first, any, is_nil,
  length, leb, if◌then◌else◌,
}
use wgrift.Base.Result.{Result, ok, err}
use wgrift.Models.{User}
use wgrift.Store.Db.{
  Db, Constraint, check_failed, not_unique, update_where, delete_where, order_by, role_allowed,
  user_exists,
}
use wgrift.App.{App, pure, ◌>>=◌, ◌>>◌, wrapping, time_now, new_uuid, query, execute}

-- Two rows that the unique indexes keep apart: by name, or by the identity of an OIDC user.
abbrev pub same_identity : User → User → Bool
same_identity a b =
    text_eq a.username b.username
    || not (is_nil a.oidc_provider)
      && text_eq a.oidc_provider b.oidc_provider
      && text_eq a.oidc_subject b.oidc_subject

-- `INSERT INTO users`. The issuer is no column.
unfoldable pub insert_user : User → Bool → Db → Result Constraint Db
insert_user u fk db =
    if not (role_allowed u.role)
    then err check_failed
    else if user_exists u.id db || any (same_identity u) db.users
    then err not_unique
    else ok (record db { users = db.users ++ record u { oidc_issuer = [] } ∷ [] })

unfoldable pub ensure_user_id : User → App User
ensure_user_id u = if is_nil u.id then (do id ← new_uuid; pure (record u { id = id })) else pure u

unfoldable pub create_user : User → App User
unfolding ensure_user_id insert_user
create_user user = do
  named ← ensure_user_id user
  now ← time_now
  let row = record named { created_at = now; updated_at = now }
  wrapping "inserting user" (execute (insert_user row))
  pure row

unfoldable pub select_user : Text → Db → Option User
select_user id db = find_first (λ u. text_eq u.id id) db.users

unfoldable pub get_user : Text → App (Option User)
unfolding select_user
get_user id = wrapping "querying user" (query (select_user id))

unfoldable pub select_user_by_username : Text → Db → Option User
select_user_by_username username db = find_first (λ u. text_eq u.username username) db.users

unfoldable pub get_user_by_username : Text → App (Option User)
unfolding select_user_by_username
get_user_by_username username =
    wrapping "querying user by username" (query (select_user_by_username username))

unfoldable pub select_user_by_oidc_identity : Text → Text → Db → Option User
select_user_by_oidc_identity provider subject db =
    find_first (λ u. text_eq u.oidc_provider provider && text_eq u.oidc_subject subject) db.users

unfoldable pub get_user_by_oidc_identity : Text → Text → App (Option User)
unfolding select_user_by_oidc_identity
get_user_by_oidc_identity provider subject =
    wrapping "querying user by OIDC identity"
      (query (select_user_by_oidc_identity provider subject))

unfoldable pub select_users : Db → List User
select_users db = order_by (λ a b. leb a.created_at b.created_at) db.users

unfoldable pub list_users : App (List User)
unfolding select_users
list_users = wrapping "querying users" (query select_users)

-- `UPDATE users SET … WHERE id=?`.
unfoldable pub set_user : User → Bool → Db → Result Constraint Db
set_user u fk db =
    if not (user_exists u.id db)
    then ok db
    else if not (role_allowed u.role)
    then err check_failed
    else if any (λ old. not (text_eq old.id u.id) && same_identity u old) db.users
    then err not_unique
    else ok (record db {
      users =
          update_where (λ old. text_eq old.id u.id)
            (λ old. record u { created_at = old.created_at; oidc_issuer = [] }) db.users;
    })

unfoldable pub update_user : User → App User
unfolding set_user
update_user user = do
  now ← time_now
  let row = record user { updated_at = now }
  wrapping "updating user" (execute (set_user row))
  pure row

-- `DELETE FROM users`, with `ON DELETE CASCADE` to the sessions.
unfoldable pub remove_user : Text → Bool → Db → Result Constraint Db
remove_user id fk db =
    let kept = record db { users = delete_where (λ u. text_eq u.id id) db.users } in
    ok (
      if fk
      then record kept { sessions = delete_where (λ s. text_eq s.user_id id) db.sessions }
      else kept)

unfoldable pub delete_user : Text → App (Unit {0})
unfolding remove_user
delete_user id = wrapping "deleting user" (execute (remove_user id))

unfoldable pub count_users : App ℕ
count_users = wrapping "counting users" (query (λ db. length db.users))
