-- ===== src/Oidc/Consistent.antt =====
-- The operations of internal/auth/auth.go and oidc.go and the consistency of the tables.
use Prim.Native.String.{String}
use wgrift.Base.{ℕ, ◌≡◌, Bool, true, Option, none, some, List, [], ◌∷◌, Text}
use wgrift.Base.Result.{Result, ok, err}
use wgrift.Models.{Time, OidcProvider, OidcState, User, Session}
use wgrift.App.{Env, Error}
use wgrift.App.External.{ResolvedProvider, IdToken, Claims}
use wgrift.App.Keeps.{Keeps, Keeps-bind, Keeps-if, keeps_rules}
use wgrift.Store.Db.{Db}
use wgrift.Store.Consistent.{IsConsistent}
use wgrift.Store.Consistent.Methods.{
  create_user-Keeps, update_user-Keeps, create_session-Keeps, touch_session-Keeps,
  delete_session-Keeps, get_user-Keeps, get_user_by_username-Keeps, get_session-Keeps,
  count_users-Keeps,
}
use wgrift.Store.Consistent.Settings.{
  create_oidc_state-Keeps, delete_oidc_state-Keeps, list_oidc_providers-Keeps,
}
use wgrift.Store.Users.{get_user_by_oidc_identity}
use wgrift.Store.Settings.{get_oidc_state}
use wgrift.Auth.{
  Service, validate_password_strength, hash_password, check_password, generate_token,
  auth_create_session, drop_session, with_user, touch_and_load, check_expiry, with_session,
  validate_session, destroy_session, needs_setup, refuse_unless, create_initial_admin, authenticate,
  with_password, valid_or,
}
use wgrift.Oidc.{resolve, resolve_all, reload_listed, reload, required_provider, authorization_url}
use wgrift.Oidc.Callback.{
  verified_token, required_token, renew_user, provision_user, known_or_new, login_user,
  refuse_expired, finish_login, consume_state, required_state, handle_callback,
}

module _ {env : Env} {P : Db → Type 0} where
  pub generate_token-Keeps : Keeps env P generate_token
  unfolding generate_token
  generate_token-Keeps = search keeps_rules

  pub hash_password-Keeps : (password : Text) → Keeps env P (hash_password password)
  unfolding hash_password
  hash_password-Keeps password = search keeps_rules

  pub validate_password_strength-Keeps :
      (s : Service) (password : Text) → Keeps env P (validate_password_strength s password)
  unfolding validate_password_strength
  validate_password_strength-Keeps s password = search keeps_rules

  pub needs_setup-Keeps : Keeps env P needs_setup
  unfolding needs_setup
  needs_setup-Keeps = search (keeps_rules, count_users-Keeps)

  valid_or-Keeps :
      (e : Error) (user : User) (r : Result Error (Unit {0})) → Keeps env P (valid_or e user r)
  valid_or-Keeps e user (ok u) = search keeps_rules
  valid_or-Keeps e user (err f) = search keeps_rules

  with_password-Keeps :
      (password : Text) (found : Option User) → Keeps env P (with_password password found)
  unfolding check_password
  with_password-Keeps password none = search keeps_rules
  with_password-Keeps password (some user) = search (keeps_rules, valid_or-Keeps) depth 8

  pub authenticate-Keeps : (username password : Text) → Keeps env P (authenticate username password)
  unfolding authenticate
  authenticate-Keeps username password =
      search (keeps_rules, get_user_by_username-Keeps, with_password-Keeps) depth 8

  refuse_unless-Keeps : (b : Bool) (e : Error) → Keeps env P (refuse_unless b e)
  refuse_unless-Keeps true e = search keeps_rules
  refuse_unless-Keeps Bool.false e = search keeps_rules

  resolve_all-Keeps :
      (ps : List OidcProvider) (rs : List ResolvedProvider) → Keeps env P (resolve_all rs ps)
  unfolding resolve_all resolve
  resolve_all-Keeps [] rs = search keeps_rules
  resolve_all-Keeps (p ∷ ps) rs =
      Keeps-if p.enabled _ _
        (Keeps-bind _ _ (search keeps_rules depth 8) (λ r. resolve_all-Keeps ps _))
        (resolve_all-Keeps ps rs)

  reload_listed-Keeps :
      (listed : Result Error (List OidcProvider)) → Keeps env P (reload_listed listed)
  reload_listed-Keeps (err e) = search keeps_rules
  reload_listed-Keeps (ok ps) = search (keeps_rules, resolve_all-Keeps) depth 5

  pub reload-Keeps : Keeps env P reload
  unfolding reload
  reload-Keeps = search (keeps_rules, list_oidc_providers-Keeps, reload_listed-Keeps) depth 6

  pub required_provider-Keeps :
      (e : Error) (found : Option ResolvedProvider) → Keeps env P (required_provider e found)
  required_provider-Keeps e none = search keeps_rules
  required_provider-Keeps e (some r) = search keeps_rules

  required_token-Keeps : (raw : Option Text) → Keeps env P (required_token raw)
  required_token-Keeps none = search keeps_rules
  required_token-Keeps (some raw) = search keeps_rules

  pub verified_token-Keeps :
      (r : ResolvedProvider) (nonce external_url code : Text)
      → Keeps env P (verified_token r nonce external_url code)
  unfolding verified_token
  verified_token-Keeps r nonce external_url code =
      search (keeps_rules, required_token-Keeps) depth 12

  pub refuse_expired-Keeps : (st : OidcState) (now : Time) → Keeps env P (refuse_expired st now)
  unfolding refuse_expired
  refuse_expired-Keeps st now = search keeps_rules

  required_state-Keeps : (found : Option OidcState) → Keeps env P (required_state found)
  required_state-Keeps none = search keeps_rules
  required_state-Keeps (some st) = search keeps_rules

module _ {env : Env} (enforced : (t : ℕ) → env.foreign_keys t ≡ true) where
  pub auth_create_session-Keeps :
      (s : Service) (user_id ip user_agent : Text)
      → Keeps env IsConsistent (auth_create_session s user_id ip user_agent)
  unfolding auth_create_session
  auth_create_session-Keeps s user_id ip user_agent =
      search (keeps_rules, generate_token-Keeps, create_session-Keeps) depth 14

  drop_session-Keeps :
      {A : Type 0} (id : Text) (text : String)
      → Keeps env IsConsistent (drop_session {A = A} id text)
  unfolding drop_session
  drop_session-Keeps id text = search (keeps_rules, delete_session-Keeps) depth 6

  with_user-Keeps :
      (id : Text) (session : Session) (found : Option User)
      → Keeps env IsConsistent (with_user id session found)
  with_user-Keeps id session none = drop_session-Keeps id "user not found"
  with_user-Keeps id session (some user) = search keeps_rules

  check_expiry-Keeps :
      (s : Service) (id : Text) (session : Session) (now : Time)
      → Keeps env IsConsistent (check_expiry s id session now)
  unfolding check_expiry touch_and_load
  check_expiry-Keeps s id session now =
      search (keeps_rules, drop_session-Keeps, touch_session-Keeps, get_user-Keeps, with_user-Keeps)
        depth 14

  with_session-Keeps :
      (s : Service) (id : Text) (found : Option Session)
      → Keeps env IsConsistent (with_session s id found)
  with_session-Keeps s id none = search keeps_rules
  with_session-Keeps s id (some session) = search (keeps_rules, check_expiry-Keeps) depth 6

  pub validate_session-Keeps :
      (s : Service) (id : Text) → Keeps env IsConsistent (validate_session s id)
  unfolding validate_session
  validate_session-Keeps s id = search (keeps_rules, get_session-Keeps, with_session-Keeps) depth 8

  pub destroy_session-Keeps : (id : Text) → Keeps env IsConsistent (destroy_session id)
  unfolding destroy_session
  destroy_session-Keeps id = delete_session-Keeps enforced id

  pub create_initial_admin-Keeps :
      (s : Service) (username password : Text)
      → Keeps env IsConsistent (create_initial_admin s username password)
  unfolding create_initial_admin
  create_initial_admin-Keeps s username password =
      search
        (
          keeps_rules, needs_setup-Keeps, refuse_unless-Keeps, validate_password_strength-Keeps,
          hash_password-Keeps, create_user-Keeps,
        )
        depth 14

  pub authorization_url-Keeps :
      (id url redirect_url : Text) → Keeps env IsConsistent (authorization_url id url redirect_url)
  unfolding authorization_url
  authorization_url-Keeps id url redirect_url =
      search (keeps_rules, required_provider-Keeps, generate_token-Keeps, create_oidc_state-Keeps)
        depth 16

  known_or_new-Keeps :
      (p : OidcProvider) (claims : Claims) (role : Text) (found : Option User)
      → Keeps env IsConsistent (known_or_new p claims role found)
  unfolding renew_user provision_user
  known_or_new-Keeps p claims role none =
      search (keeps_rules, get_user_by_username-Keeps, create_user-Keeps) depth 12
  known_or_new-Keeps p claims role (some u) = search (keeps_rules, update_user-Keeps) depth 12

  login_user-Keeps :
      (p : OidcProvider) (token : IdToken) → Keeps env IsConsistent (login_user p token)
  unfolding login_user get_user_by_oidc_identity
  login_user-Keeps p token = search (keeps_rules, known_or_new-Keeps) depth 12

  pub handle_callback-Keeps :
      (code state external_url : Text)
      → Keeps env IsConsistent (handle_callback code state external_url)
  unfolding handle_callback consume_state finish_login get_oidc_state
  handle_callback-Keeps code state external_url =
      search
        (
          keeps_rules, required_state-Keeps, delete_oidc_state-Keeps, refuse_expired-Keeps,
          required_provider-Keeps, verified_token-Keeps, login_user-Keeps,
        )
        depth 20
