-- ===== src/Oidc/Callback.antt =====
-- `HandleCallback` of internal/auth/oidc.go.
pub mod LoggedIn
pub mod Granted
pub mod Replay
use wgrift.Base.{
  ℕ, ◌+◌, ◌-◌, ltb, Bool, true, false, not, Option, none, some, List, [], ◌∷◌, ◌++◌, map, Text,
  codes, text_eq, is_nil, if◌then◌else◌,
}
use wgrift.Base.Result.{Result, ok, err}
use wgrift.Models.{Time, OidcProvider, OidcState, User}
use wgrift.App.{
  App, Env, Error, message, pure, fail, ◌>>=◌, ◌>>◌, wrapping, attempt, time_now, external_call,
  cached,
}
use wgrift.App.External.{ResolvedProvider, Claims, IdToken}
use wgrift.Store.Settings.{get_oidc_state, delete_oidc_state, state_lifetime}
use wgrift.Store.Users.{get_user_by_oidc_identity, get_user_by_username, create_user, update_user}
use wgrift.Oidc.{find_provider, required_provider, with_redirect, replace_char}
use wgrift.Oidc.Claims.{role_of, preferred_name, renewed_user}

abbrev pub required_token : Option Text → App Text
required_token none = fail (message "no id_token in response")
required_token (some raw) = pure raw

-- The token for a code, verified, with the nonce of the login.
unfoldable pub verified_token : ResolvedProvider → Text → Text → Text → App IdToken
verified_token r nonce external_url code = do
  token ←
      wrapping "exchanging code"
        (external_call (λ env t. env.exchange t (with_redirect external_url r) code))
  raw ← required_token token
  id_token ← wrapping "verifying id_token" (external_call (λ env t. env.verify_id_token t r raw))
  if text_eq id_token.nonce nonce then pure id_token else fail (message "nonce mismatch")

abbrev pub saved_or : User → Result Error User → User
saved_or user (ok row) = row
saved_or user (err e) = user

-- A user who logged in before. An error of the update is not looked at, and neither is the time
-- that a failed update leaves in the user.
unfoldable pub renew_user : Text → Text → User → App User
unfolding renewed_user
renew_user name role u =
    let user = (renewed_user name role u).0 in
    if (renewed_user name role u).1
    then (do saved ← attempt (update_user user); pure (saved_or user saved))
    else pure user

-- The name of the provider, in the form of a suffix: its spaces are dashes, its letters small.
unfoldable pub slug_of : (ℕ → ℕ) → Text → Text
slug_of to_lower name = map to_lower (replace_char b' ' b'-' name)

abbrev pub free_name : (ℕ → ℕ) → OidcProvider → Text → Result Error (Option User) → Text
free_name to_lower p username (ok (some taken)) = username ++ (codes "_" ++ slug_of to_lower p.name)
free_name to_lower p username (ok none) = username
free_name to_lower p username (err e) = username

abbrev pub oidc_user : OidcProvider → Claims → Text → Text → User
oidc_user p claims role username = record {
  id = [];
  username = username;
  password_hash = [];
  display_name = if is_nil claims.name then username else claims.name;
  role = role;
  is_initial = false;
  oidc_provider = p.name;
  oidc_subject = claims.subject;
  oidc_issuer = [];
  created_at = 0;
  updated_at = 0;
}

-- A first login. An error of the lookup counts as a free name.
unfoldable pub provision_user : OidcProvider → Claims → Text → App User
unfolding preferred_name slug_of
provision_user p claims role = do
  existing ← attempt (get_user_by_username (preferred_name claims))
  username ←
      external_call (λ env t. some (free_name env.to_lower p (preferred_name claims) existing))
  wrapping "creating OIDC user" (create_user (oidc_user p claims role username))

abbrev pub known_or_new : OidcProvider → Claims → Text → Option User → App User
known_or_new p claims role (some user) = renew_user claims.name role user
known_or_new p claims role none = provision_user p claims role

unfoldable pub login_user : OidcProvider → IdToken → App User
unfolding renew_user provision_user role_of
login_user p token = do
  claims ← wrapping "extracting claims" (external_call (λ env t. token.claims))
  let role = role_of p token.all_claims
  found ← wrapping "looking up OIDC user" (get_user_by_oidc_identity p.name claims.subject)
  known_or_new p claims role found

abbrev pub required_state : Option OidcState → App OidcState
required_state none = fail (message "invalid or expired OIDC state")
required_state (some st) = pure st

-- `time.Since(t) > 10 minutes`.
unfoldable pub refuse_expired : OidcState → Time → App (Unit {0})
refuse_expired st now =
    if ltb state_lifetime (now - st.created_at)
    then fail (message "OIDC state expired")
    else pure tt

-- The part that follows the deletion of the state.
unfoldable pub finish_login : Text → Text → OidcState → App (User × Text)
unfolding refuse_expired verified_token login_user
finish_login code external_url st = do
  now ← time_now
  refuse_expired st now
  found ← cached (find_provider st.provider_id)
  r ← required_provider (message "OIDC provider no longer available") found
  token ← verified_token r st.nonce external_url code
  user ← login_user r.model token
  pure (user, st.redirect_url)

-- An error of the deletion is not looked at.
unfoldable pub consume_state : Text → Text → Text → OidcState → App (User × Text)
unfolding finish_login
consume_state code state_param external_url st = do
  attempt (delete_oidc_state state_param)
  finish_login code external_url st

unfoldable pub handle_callback : Text → Text → Text → App (User × Text)
unfolding consume_state
handle_callback code state_param external_url = do
  found ← wrapping "looking up OIDC state" (get_oidc_state state_param)
  st ← required_state found
  consume_state code state_param external_url st
