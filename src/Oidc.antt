-- ===== src/Oidc.antt =====
-- internal/auth/oidc.go: the service of OIDC providers. The mutex guards the map of providers, so
-- a method reads it or replaces it as a whole.
pub mod Claims
pub mod Callback
pub mod Consistent
use wgrift.Base.{
  ℕ, ◌+◌, ◌==◌, Bool, true, false, not, Option, none, some, List, [], ◌∷◌, ◌++◌, map, Text, codes,
  text_eq, is_nil, is_space, split_at, select, find_first, if◌then◌else◌,
}
use wgrift.Base.Result.{Result, ok, err}
use wgrift.Models.{OidcProvider, OidcState}
use wgrift.App.{
  App, Env, Error, message, pure, fail, ◌>>=◌, ◌>>◌, wrapping, attempt, external_call, cached,
  set_cache,
}
use wgrift.App.External.{OauthConfig, ResolvedProvider, OidcCache}
use wgrift.Store.Settings.{list_oidc_providers, create_oidc_state, delete_expired_oidc_states}
use wgrift.Auth.{generate_token}

-- `strings.Fields`.
unfoldable pub fields : Text → List Text
unfolding is_space
fields s =
    select (λ f. not (is_nil f)) (split_at b' ' (map (λ c. if is_space c then b' ' else c) s))

-- `strings.ReplaceAll` of one character by another.
abbrev pub replace_char : ℕ → ℕ → Text → Text
replace_char old new s = map (λ c. if c == old then new else c) s

abbrev pub default_scopes : List Text
default_scopes = codes "openid" ∷ codes "profile" ∷ codes "email" ∷ codes "groups" ∷ []

abbrev or_default : List Text → List Text
or_default [] = default_scopes
or_default (scope ∷ scopes) = scope ∷ scopes

unfoldable pub scopes_of : Text → List Text
unfolding fields
scopes_of scopes = or_default (fields (replace_char b',' b' ' scopes))

abbrev pub resolved : OidcProvider → Text → Text → ResolvedProvider
resolved p secret endpoint = record {
  model = p;
  oauth = record {
    client_id = p.client_id;
    client_secret = secret;
    scopes = scopes_of p.scopes;
    endpoint = endpoint;
    redirect_url = [];
  };
}

unfoldable pub put_provider : ResolvedProvider → List ResolvedProvider → List ResolvedProvider
put_provider r rs = select (λ old. not (text_eq old.model.id r.model.id)) rs ++ r ∷ []

-- The secret and the endpoint of an enabled provider, whichever comes to fail.
unfoldable pub resolve : OidcProvider → App ResolvedProvider
unfolding scopes_of
resolve p = do
  secret ← external_call (λ env t. env.decrypt p.client_secret_encrypted)
  endpoint ← external_call (λ env t. env.discover t p.issuer)
  pure (resolved p secret endpoint)

abbrev pub put_resolved :
    List ResolvedProvider → Result Error ResolvedProvider → List ResolvedProvider
put_resolved rs (ok r) = put_provider r rs
put_resolved rs (err e) = rs

-- The loop of `Reload`: a provider that is disabled or does not resolve is passed over.
unfoldable pub resolve_all : List ResolvedProvider → List OidcProvider → App (List ResolvedProvider)
unfolding resolve put_provider
resolve_all rs [] = pure rs
resolve_all rs (p ∷ ps) =
    let skipped = resolve_all rs ps in
    let tried = (do r ← attempt (resolve p); resolve_all (put_resolved rs r) ps) in
    if p.enabled then tried else skipped

-- `Reload` keeps the providers it had, and the channel open, when the store fails.
abbrev pub reload_listed : Result Error (List OidcProvider) → App (Unit {0})
reload_listed (err e) = pure tt
reload_listed (ok ps) = do
  rs ← resolve_all [] ps
  set_cache (record { providers = rs; ready = true })

unfoldable pub reload : App (Unit {0})
unfolding resolve_all
reload = do listed ← attempt list_oidc_providers; reload_listed listed

-- The model has the map's order of loading; the order of a Go map's range is not defined.
unfoldable pub list_providers : App (List OidcProvider)
list_providers = cached (λ c. map (λ r. r.model) c.providers)

abbrev pub find_provider : Text → OidcCache → Option ResolvedProvider
find_provider id c = find_first (λ r. text_eq r.model.id id) c.providers

abbrev pub required_provider : Error → Option ResolvedProvider → App ResolvedProvider
required_provider e none = fail e
required_provider e (some r) = pure r

-- The configuration with the address that the provider sends the user back to.
abbrev pub with_redirect : Text → ResolvedProvider → OauthConfig
with_redirect external_url r = record r.oauth {
  redirect_url = external_url ++ codes "/api/v1/auth/oidc/callback";
}

abbrev pub login_state : Text → Text → Text → Text → OidcState
login_state state provider_id nonce redirect_url = record {
  state = state;
  provider_id = provider_id;
  nonce = nonce;
  redirect_url = redirect_url;
  created_at = 0;
}

unfoldable pub authorization_url : Text → Text → Text → App Text
authorization_url provider_id external_url redirect_url = do
  found ← cached (find_provider provider_id)
  r ← required_provider (message "OIDC provider not found") found
  state ← wrapping "generating state" generate_token
  nonce ← wrapping "generating nonce" generate_token
  wrapping "storing OIDC state"
      (create_oidc_state (login_state state provider_id nonce redirect_url))
  external_call (λ env t. some (env.auth_code_url (with_redirect external_url r) state nonce))

unfoldable pub clean_expired_states : App (Unit {0})
clean_expired_states = delete_expired_oidc_states
