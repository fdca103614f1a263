-- ===== src/Auth.antt =====
-- internal/auth/auth.go: passwords, sessions and the setup of the first administrator.
pub mod Sessions
pub mod Setup
use Prim.Native.String.{String}
use wgrift.Base.{
  ℕ, ◌+◌, ◌-◌, ◌==◌, leb, ltb, Bool, true, false, not, ◌&&◌, Option, none, some, List, [], ◌∷◌,
  Text, codes, byte_length, print_nat, if◌then◌else◌,
}
use wgrift.Base.Result.{Result, ok, err}
use wgrift.Models.{Time, User, Session}
use wgrift.App.{
  App, Env, World, Error, message, pure, fail, ◌>>=◌, ◌>>◌, wrapping, attempt, time_now,
  external_call,
}
use wgrift.Store.Users.{get_user_by_username, get_user, create_user, count_users}
use wgrift.Store.Sessions.{
  create_session, get_session, touch_session, delete_session, delete_expired_sessions,
}

-- `Service`, less its store. Durations are nanoseconds, and not negative.
pub record Service : Type 0 where
  pub session_timeout : ℕ
  pub max_session_age : ℕ
  pub min_password_length : ℕ

unfoldable pub hash_password : Text → App Text
hash_password password =
    wrapping "hashing password" (external_call (λ env t. env.hash_password t password))

-- `bcrypt.CompareHashAndPassword`.
unfoldable pub check_password : Text → Text → App (Unit {0})
check_password hash password =
    external_call (λ env t. if env.check_password hash password then some tt else none)

-- Passwords are measured in bytes.
unfoldable pub validate_password_strength : Service → Text → App (Unit {0})
validate_password_strength s password =
    if ltb (byte_length password) s.min_password_length
    then fail (message "password must be at least %d characters")
    else pure tt

abbrev pub invalid_credentials : Error
invalid_credentials = message "invalid credentials"

abbrev pub valid_or : Error → User → Result Error (Unit {0}) → App User
valid_or e user (ok _) = pure user
valid_or e user (err _) = fail e

abbrev pub with_password : Text → Option User → App User
with_password password none = fail invalid_credentials
with_password password (some user) = do
  checked ← attempt (check_password user.password_hash password)
  valid_or invalid_credentials user checked

unfoldable pub authenticate : Text → Text → App User
authenticate username password = do
  found ← wrapping "looking up user" (get_user_by_username username)
  with_password password found

-- 32 random bytes in hexadecimal.
unfoldable pub generate_token : App Text
generate_token = external_call (λ env t. env.random_token t)

-- `Service.CreateSession`. It gives itself the times that the store sets.
unfoldable pub auth_create_session : Service → Text → Text → Text → App Session
auth_create_session s user_id ip user_agent = do
  session_id ← wrapping "generating session ID" generate_token
  csrf_token ← wrapping "generating CSRF token" generate_token
  now ← time_now
  wrapping "storing session" (
      create_session (record {
        id = session_id;
        user_id = user_id;
        csrf_token = csrf_token;
        expires_at = now + s.max_session_age;
        created_at = 0;
        last_seen_at = 0;
        ip_address = ip;
        user_agent = user_agent;
      }))

-- `s.store.DeleteSession(sessionID)`, whatever it returns, and the error behind it.
unfoldable pub drop_session : {A : Type 0} → Text → String → App A
drop_session id text = do attempt (delete_session id); fail (message text)

abbrev pub with_user : Text → Session → Option User → App (Session × User)
with_user id session none = drop_session id "user not found"
with_user id session (some user) = pure (session, user)

-- A session that has not expired is touched, and returned with its user.
unfoldable pub touch_and_load : Text → Session → App (Session × User)
touch_and_load id session = do
  wrapping "touching session" (touch_session id)
  user ← wrapping "getting user" (get_user session.user_id)
  with_user id session user

-- The absolute expiry comes before the idle timeout. `now.Sub(t) > d` is `now - t > d` where the
-- clock is ahead of `t`, and false where it is behind.
unfoldable pub check_expiry : Service → Text → Session → Time → App (Session × User)
unfolding drop_session touch_and_load
check_expiry s id session now =
    if ltb session.expires_at now
    then drop_session id "session expired"
    else if ltb s.session_timeout (now - session.last_seen_at)
    then drop_session id "session timed out"
    else touch_and_load id session

abbrev pub with_session : Service → Text → Option Session → App (Session × User)
with_session s id none = fail (message "session not found")
with_session s id (some session) = do now ← time_now; check_expiry s id session now

unfoldable pub validate_session : Service → Text → App (Session × User)
validate_session s id = do
  found ← wrapping "getting session" (get_session id)
  with_session s id found

unfoldable pub destroy_session : Text → App (Unit {0})
destroy_session id = delete_session id

unfoldable pub clean_expired_sessions : App (Unit {0})
clean_expired_sessions = delete_expired_sessions

unfoldable pub needs_setup : App Bool
needs_setup = do count ← count_users; pure (count == 0)

abbrev pub initial_admin : Text → Text → User
initial_admin username hash = record {
  id = [];
  username = username;
  password_hash = hash;
  display_name = username;
  role = codes "admin";
  is_initial = true;
  oidc_provider = [];
  oidc_subject = [];
  oidc_issuer = [];
  created_at = 0;
  updated_at = 0;
}

abbrev pub refuse_unless : Bool → Error → App (Unit {0})
refuse_unless true e = pure tt
refuse_unless false e = fail e

unfoldable pub create_initial_admin : Service → Text → Text → App User
create_initial_admin s username password = do
  needs ← needs_setup
  refuse_unless needs (message "setup already complete")
  validate_password_strength s password
  hash ← hash_password password
  wrapping "creating admin user" (create_user (initial_admin username hash))
