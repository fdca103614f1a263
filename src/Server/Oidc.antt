-- ===== src/Server/Oidc.antt =====
-- internal/server/handler_oidc.go.
pub mod Redirects
use wgrift.Base.{
  Bool, true, false, not, ◌||◌, Option, none, some, List, [], ◌∷◌, Text, codes, is_nil, has_prefix,
  if◌then◌else◌,
}
use wgrift.Base.Result.{Result, ok, err}
use wgrift.Models.{User}
use wgrift.App.{App, Error, message, pure, ◌>>=◌, cached}
use wgrift.Auth.{auth_create_session}
use wgrift.Oidc.{authorization_url}
use wgrift.Oidc.Callback.{handle_callback}
use wgrift.Server.{Server, Request, external_url, text_or}
use wgrift.Server.Auth.{is_secure}
use wgrift.Server.Response.{
  Response, Cookie, lax, redirect, write_error, redirect_to, its_error, answering,
}

-- A path of this site, or nothing.
unfoldable pub sanitize_redirect_url : Text → Text
sanitize_redirect_url u =
    if is_nil u || not (has_prefix u (codes "/")) || has_prefix u (codes "//") then [] else u

unfoldable pub redirect_to_provider : Server → Request → Text → Text → App Response
unfolding sanitize_redirect_url
redirect_to_provider s r provider_id redirect_param =
    if is_nil provider_id then write_error 400 (message "missing provider ID") else do
      url ← external_url s r
      answering (its_error 400)
          (authorization_url provider_id url (sanitize_redirect_url redirect_param)) redirect_to

-- The wait for the first discovery ends early where it is over, and after five seconds anyway.
unfoldable pub handle_oidc_login : Server → Request → Text → Text → App Response
unfolding redirect_to_provider
handle_oidc_login s r provider_id redirect_param =
    if not s.has_oidc
    then write_error 404 (message "OIDC not configured")
    else cached (λ c. c.ready) >>= λ ready.
        if ready
        then redirect_to_provider s r provider_id redirect_param
        else write_error 503 (message "OIDC providers are still loading, please try again")

pub record CallbackQuery : Type 0 where
  pub error : Text
  pub code : Text
  pub state : Text

abbrev pub auth_failed : Error → App Response
auth_failed e = redirect_to (codes "/?error=auth_failed")

abbrev pub session_failed : Error → App Response
session_failed e = redirect_to (codes "/?error=session_failed")

-- The session of a login at a provider; its cookie is lax, as the provider sends the user here.
unfoldable pub enter : Server → Request → User → Text → App Response
unfolding sanitize_redirect_url
enter s r user redirect_url =
    answering session_failed (auth_create_session s.auth user.id r.remote_addr r.user_agent)
      (λ session. pure (record {
        status = 302;
        body = redirect (text_or (sanitize_redirect_url redirect_url) (codes "/"));
        cookie = some (lax session.id (is_secure s));
      }))

unfoldable pub handle_oidc_callback : Server → Request → CallbackQuery → App Response
unfolding enter
handle_oidc_callback s r q =
    if not s.has_oidc
    then redirect_to (codes "/?error=oidc_not_configured")
    else if not (is_nil q.error)
    then redirect_to (codes "/?error=access_denied")
    else if is_nil q.code || is_nil q.state
    then redirect_to (codes "/?error=invalid_callback")
    else do
      url ← external_url s r
      answering auth_failed (handle_callback q.code q.state url)
          (λ granted. enter s r granted.0 granted.1)
