-- ===== src/Server/Users.antt =====
-- internal/server/handler_users.go.
use wgrift.Base.{
  false, not, ◌&&◌, ◌||◌, Option, none, some, List, [], ◌∷◌, map, Text, codes, text_eq, is_nil,
  if◌then◌else◌,
}
use wgrift.Base.Result.{Result, ok, err}
use wgrift.Models.{User, OidcProvider}
use wgrift.App.{App, Error, message, ◌>>=◌, attempt}
use wgrift.Store.Users.{list_users, create_user, delete_user, get_user, update_user}
use wgrift.Store.Settings.{list_oidc_providers}
use wgrift.Auth.{hash_password, validate_password_strength}
use wgrift.Server.{Server, text_or}
use wgrift.Server.Response.{
  Response, Decoded, write_json, write_error, its_error, said, answering, with_json, is_admin,
  if_admin, status_is, the_user, the_users,
}

pub record CreateUserRequest : Type 0 where
  pub username : Text
  pub password : Text
  pub display_name : Text
  pub role : Text

abbrev pub or_no_providers : Result Error (List OidcProvider) → List OidcProvider
or_no_providers (ok ps) = ps
or_no_providers (err e) = []

-- The entry of a name in the map of issuers: the last provider with the name makes it.
unfoldable pub issuer_of : Text → Text → List OidcProvider → Text
issuer_of name found [] = found
issuer_of name found (p ∷ ps) = issuer_of name (if text_eq p.name name then p.issuer else found) ps

abbrev pub with_issuer : List OidcProvider → User → User
with_issuer ps u =
    if is_nil u.oidc_provider then u else record u { oidc_issuer = issuer_of u.oidc_provider [] ps }

unfoldable pub handle_list_users : User → App Response
unfolding issuer_of
handle_list_users caller = if_admin caller (
    answering (its_error 500) list_users (λ users. do
      providers ← attempt list_oidc_providers
      write_json 200 (the_users (map (with_issuer (or_no_providers providers)) users))))

abbrev pub created_user : CreateUserRequest → Text → Text → User
created_user req role hash = record {
  id = [];
  username = req.username;
  password_hash = hash;
  display_name = text_or req.display_name req.username;
  role = role;
  is_initial = false;
  oidc_provider = [];
  oidc_subject = [];
  oidc_issuer = [];
  created_at = 0;
  updated_at = 0;
}

unfoldable pub create_user_with_role : Server → CreateUserRequest → Text → App Response
create_user_with_role s req role =
    if not (text_eq role (codes "admin")) && not (text_eq role (codes "viewer"))
    then write_error 400 (message "role must be 'admin' or 'viewer'")
    else answering (its_error 400) (validate_password_strength s.auth req.password) (λ _.
      answering (said 500 "failed to hash password") (hash_password req.password) (λ hash.
        answering (its_error 500) (create_user (created_user req role hash))
          (λ user. write_json 201 (the_user user))))

unfoldable pub handle_create_user : Server → User → Decoded CreateUserRequest → App Response
unfolding create_user_with_role
handle_create_user s caller body = if_admin caller (
    with_json body (λ req.
      if is_nil req.username || is_nil req.password
      then write_error 400 (message "username and password required")
      else create_user_with_role s req (text_or req.role (codes "viewer"))))

unfoldable pub handle_delete_user : User → Text → App Response
handle_delete_user caller id = if_admin caller (
    if text_eq id caller.id
    then write_error 400 (message "cannot delete yourself")
    else answering (its_error 500) (delete_user id) (λ _. write_json 200 (status_is "deleted")))

-- A password changes for a local user only.
unfoldable pub set_password : Text → User → App Response
set_password password user =
    if not (is_nil user.oidc_provider)
    then write_error 400 (message "cannot change password for SSO user")
    else answering (said 500 "failed to hash password") (hash_password password) (λ hash.
      answering (its_error 500) (update_user (record user { password_hash = hash }))
        (λ _. write_json 200 (status_is "updated")))

abbrev pub user_or_not_found : Text → Option User → App Response
user_or_not_found password none = write_error 404 (message "user not found")
user_or_not_found password (some user) = set_password password user

-- A user may change its own password, and an administrator anyone's.
unfoldable pub handle_change_password : Server → User → Text → Decoded Text → App Response
unfolding set_password
handle_change_password s caller id body =
    if not (text_eq id caller.id) && not (is_admin caller)
    then write_error 403 (message "access denied")
    else with_json body (λ password.
      answering (its_error 400) (validate_password_strength s.auth password)
        (λ _. answering (said 404 "user not found") (get_user id) (user_or_not_found password)))
