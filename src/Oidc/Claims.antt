-- ===== src/Oidc/Claims.antt =====
-- `matchesClaim` of internal/auth/oidc.go, and the claims that make a user's role and name.
use wgrift.Base.{
  Bool, false, not, ◌&&◌, ◌||◌, Option, none, some, List, [], ◌∷◌, Text, codes, text_eq, any,
  is_nil, if◌then◌else◌,
}
use wgrift.App.External.{ClaimValue, text_value, array_value, other_value, Claims}
use wgrift.Models.{OidcProvider, User}

unfoldable pub claim_of : Text → List (Text × ClaimValue) → Option ClaimValue
claim_of key [] = none
claim_of key ((k, v) ∷ rest) =
    let found = claim_of key rest in if text_eq k key then some v else found

abbrev pub is_text : Text → Option Text → Bool
is_text value none = false
is_text value (some s) = text_eq s value

abbrev pub value_matches : Text → Option ClaimValue → Bool
value_matches value none = false
value_matches value (some (text_value s)) = text_eq s value
value_matches value (some (array_value items)) = any (is_text value) items
value_matches value (some other_value) = false

unfoldable pub matches_claim : List (Text × ClaimValue) → Text → Text → Bool
matches_claim claims key value = value_matches value (claim_of key claims)

abbrev pub or_viewer : Text → Text
or_viewer role = if is_nil role then codes "viewer" else role

abbrev pub claims_match : OidcProvider → Option (List (Text × ClaimValue)) → Bool
claims_match p none = false
claims_match p (some claims) = matches_claim claims p.admin_claim p.admin_value

-- The role of a login: the provider's default, or admin where its claim has its value.
unfoldable pub role_of : OidcProvider → Option (List (Text × ClaimValue)) → Text
role_of p claims =
    if not (is_nil p.admin_claim) && not (is_nil p.admin_value) && claims_match p claims
    then codes "admin"
    else or_viewer p.default_role

-- The user name of a first login.
unfoldable pub preferred_name : Claims → Text
preferred_name c =
    if is_nil c.preferred_username
    then (if is_nil c.email then c.subject else c.email)
    else c.preferred_username

-- The display name and the role that a login renews, and whether either changed.
unfoldable pub renewed_user : Text → Text → User → User × Bool
renewed_user name role u =
    let renamed = not (is_nil name) && not (text_eq name u.display_name) in
    (
      record u { display_name = if renamed then name else u.display_name; role = role },
      renamed || not (text_eq role u.role),
    )
