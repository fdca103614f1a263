-- ===== src/Server/Auth.antt =====
-- internal/server/handler_auth.go.
use wgrift.Base.{
  ℕ, Bool, true, not, ◌||◌, Option, none, some, [], ◌++◌, map, Text, codes, text_eq, is_nil,
  if◌then◌else◌,
}
use wgrift.Base.Result.{Result, ok, err}
use wgrift.Models.{User, Session, OidcProvider}
use wgrift.App.{App, Error, message, pure, ◌>>=◌, ◌>>◌, attempt}
use wgrift.Auth.{
  authenticate, auth_create_session, validate_session, destroy_session, needs_setup,
  create_initial_admin,
}
use wgrift.Oidc.{list_providers}
use wgrift.Server.{Server, Request}
use wgrift.Server.Smtp.{smtp_enabled}
use wgrift.Server.Response.{
  Response, Decoded, strict, cleared, ProviderInfo, json, write_json, write_error, its_error, said,
  answering, with_json, status_is, the_session, auth_options, setup_needed,
}

pub record LoginRequest : Type 0 where
  pub username : Text
  pub password : Text

abbrev pub is_secure : Server → Bool
is_secure s = not (text_eq s.tls_mode (codes "none"))

-- The session of a login and its cookie.
unfoldable pub open_session : Server → Request → User → ℕ → App Response
open_session s r user status =
    answering (said 500 "failed to create session")
      (auth_create_session s.auth user.id r.remote_addr r.user_agent)
      (λ session. do
        enabled ← smtp_enabled s
        pure (record {
          status = status;
          body = json (
              the_session
                (record { user = user; csrf_token = session.csrf_token; smtp_enabled = enabled }));
          cookie = some (strict session.id (is_secure s));
        }))

unfoldable pub handle_login : Server → Request → Decoded LoginRequest → App Response
unfolding open_session
handle_login s r body =
    if not s.local_auth_enabled
    then write_error 403 (message "local authentication is disabled")
    else with_json body (λ req.
      answering (said 401 "invalid credentials") (authenticate req.username req.password) (λ user.
        if is_nil user.oidc_provider
        then open_session s r user 200
        else write_error 403 (message "this account uses SSO login")))

-- The session of the cookie is destroyed, whatever comes of it.
abbrev pub destroy_if_any : Option Text → App (Unit {0})
destroy_if_any none = pure tt
destroy_if_any (some id) = do attempt (destroy_session id); pure tt

unfoldable pub handle_logout : Request → App Response
handle_logout r = do
  destroy_if_any r.cookie
  pure (record { status = 200; body = json (status_is "ok"); cookie = some cleared })

abbrev pub provider_info : OidcProvider → ProviderInfo
provider_info p = record {
  id = p.id;
  name = p.name;
  login_url = codes "/api/v1/auth/oidc/" ++ (p.id ++ codes "/login");
}

unfoldable pub write_auth_options : Server → App Response
write_auth_options s = do
  providers ← if s.has_oidc then list_providers else pure []
  write_json 200 (
      auth_options (record {
        auth_required = true;
        oidc_providers = map provider_info providers;
        local_auth_enabled = s.local_auth_enabled;
        demo = s.demo;
      }))

abbrev pub session_or_options : Server → Result Error (Session × User) → App Response
session_or_options s (err e) = write_auth_options s
session_or_options s (ok (session, user)) = do
  enabled ← smtp_enabled s
  write_json 200 (
      the_session (record { user = user; csrf_token = session.csrf_token; smtp_enabled = enabled }))

abbrev pub cookie_or_options : Server → Option Text → App Response
cookie_or_options s none = write_auth_options s
cookie_or_options s (some id) = do
  validated ← attempt (validate_session s.auth id)
  session_or_options s validated

unfoldable pub handle_get_session : Server → Request → App Response
unfolding write_auth_options
handle_get_session s r =
    answering (said 500 "checking setup status") needs_setup
      (λ needs. if needs then write_json 200 setup_needed else cookie_or_options s r.cookie)

unfoldable pub handle_setup : Server → Request → Decoded LoginRequest → App Response
unfolding open_session
handle_setup s r body = with_json body (λ req.
    if is_nil req.username || is_nil req.password
    then write_error 400 (message "username and password required")
    else answering (its_error 400) (create_initial_admin s.auth req.username req.password)
        (λ user. open_session s r user 201))
