-- ===== src/App/External.antt =====
-- Data of the libraries that internal/auth/oidc.go calls: go-oidc and oauth2.
use wgrift.Base.{Bool, Option, List, Text}
use wgrift.Models.{OidcProvider}

-- `oauth2.Config`: the endpoint is the one that the discovery found.
pub record OauthConfig : Type 0 where
  pub client_id : Text
  pub client_secret : Text
  pub scopes : List Text
  pub endpoint : Text
  pub redirect_url : Text

-- `resolvedProvider`. Its verifier is made of the issuer and the client, which the model has.
pub record ResolvedProvider : Type 0 where
  pub model : OidcProvider
  pub oauth : OauthConfig

-- The state of `OIDCService`: the map of resolved providers, one for each identifier, and whether
-- the channel `ready` is closed.
pub record OidcCache : Type 0 where
  pub providers : List ResolvedProvider
  pub ready : Bool

-- A JSON value, as far as `matchesClaim` tells them apart: a text, an array whose items are texts
-- or not, or something else.
pub data ClaimValue : Type 0 where
  text_value : Text → ClaimValue
  array_value : List (Option Text) → ClaimValue
  other_value : ClaimValue

-- The claims that `HandleCallback` names; one that is missing is empty.
pub record Claims : Type 0 where
  pub subject : Text
  pub preferred_username : Text
  pub email : Text
  pub name : Text

-- A verified token: `Claims` into the struct, and into a map, may fail to decode.
pub record IdToken : Type 0 where
  pub nonce : Text
  pub claims : Option Claims
  pub all_claims : Option (List (Text × ClaimValue))
