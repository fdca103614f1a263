-- ===== src/Oidc/Callback/LoggedIn.antt =====
-- The user that a verified token of internal/auth/oidc.go stands for.
use wgrift.Base.{◌≡◌, refl, ◌∙◌, Option, none, some, arith, Text, text_eq_iff, is_nil}
use wgrift.Base.Tables.{find_first-holds}
use wgrift.Models.{Time, OidcProvider, User}
use wgrift.Store.Db.{Db}
use wgrift.Store.Users.{
  get_user_by_oidc_identity, select_user_by_oidc_identity, create_user, ensure_user_id, update_user,
  set_user, insert_user,
}
use wgrift.App.{Env, App, Error, pure, ◌>>=◌, ◌>>◌, attempt, time_now, execute, wrapping}
use wgrift.Base.Result.{Result, ok, err}
use wgrift.App.External.{IdToken, Claims}
use wgrift.App.Yields.{
  Yields, Returned, Yields-attempt, Yields-pure, Yields-any, Yields-query, Yields-external_call,
  Yields-wrapping, Yields-bind, Yields-if,
}
use wgrift.Oidc.Claims.{role_of, renewed_user}
use wgrift.Oidc.Callback.{renew_user, provision_user, known_or_new, login_user, saved_or}

-- `user` is who the token says, with the role that the provider gives.
pub record IsLoggedIn (p : OidcProvider) (token : IdToken) (user : User) : Type 0 where
  pub claims : Claims
  pub claimed : token.claims ≡ some claims
  pub provider : user.oidc_provider ≡ p.name
  pub subject : user.oidc_subject ≡ claims.subject
  pub role : user.role ≡ role_of p token.all_claims

same_login :
    {p : OidcProvider} {token : IdToken} {u v : User}
    → IsLoggedIn p token u
    → v.oidc_provider ≡ u.oidc_provider
    → v.oidc_subject ≡ u.oidc_subject
    → v.role ≡ u.role
    → IsLoggedIn p token v
same_login h provider subject role = record {
  claims = h.claims;
  claimed = h.claimed;
  provider = provider ∙ h.provider;
  subject = subject ∙ h.subject;
  role = role ∙ h.role;
}

saved_or-IsLoggedIn :
    (p : OidcProvider) (token : IdToken) (user : User) (saved : Result Error User)
    → IsLoggedIn p token user
    → Returned (IsLoggedIn p token) saved
    → IsLoggedIn p token (saved_or user saved)
saved_or-IsLoggedIn p token user (ok row) h k = k
saved_or-IsLoggedIn p token user (err e) h k = h

same_identity_found :
    (provider subject : Text) (db : Db) (u : User)
    → select_user_by_oidc_identity provider subject db ≡ some u
    → (u.oidc_provider ≡ provider) × (u.oidc_subject ≡ subject)
unfolding select_user_by_oidc_identity
same_identity_found provider subject db u h =
    let both = find_first-holds _ db.users u h in
    ground (arith, both, text_eq_iff u.oidc_provider provider, text_eq_iff u.oidc_subject subject)

module _ {env : Env} where
  -- A write of a row that is a login's in all but its times.
  row-Yields :
      (p : OidcProvider) (token : IdToken) (m : User → App (Unit {0})) (row : Time → User)
      → ((now : Time) → IsLoggedIn p token (row now))
      → Yields env (IsLoggedIn p token) (do now ← time_now; m (row now); pure (row now))
  row-Yields p token m row h =
      Yields-bind (λ t. Unit) _ _ _ (Yields-any _)
        (λ now u.
          Yields-bind (λ t. Unit) _ _ _ (Yields-any _) (λ done u. Yields-pure _ (row now) (h now)))

  saved-IsLoggedIn :
      (p : OidcProvider) (token : IdToken) (user : User)
      → IsLoggedIn p token user
      → Yields env
          (IsLoggedIn p token)
          (do saved ← attempt (update_user user); pure (saved_or user saved))
  unfolding update_user
  saved-IsLoggedIn p token user h =
      Yields-bind (Returned (IsLoggedIn p token)) _ _ _
        (Yields-attempt _ _ (
          row-Yields p token (λ row. wrapping "updating user" (execute (set_user row)))
            (λ now. record user { updated_at = now }) (λ now. same_login h refl refl refl)))
        (λ saved k. Yields-pure _ _ (saved_or-IsLoggedIn p token user saved h k))

  renew_user-Yields :
      (p : OidcProvider) (token : IdToken) (claims : Claims) (user : User)
      → token.claims ≡ some claims
      → user.oidc_provider ≡ p.name
      → user.oidc_subject ≡ claims.subject
      → Yields env (IsLoggedIn p token) (renew_user claims.name (role_of p token.all_claims) user)
  unfolding renew_user renewed_user
  renew_user-Yields p token claims user claimed provider subject =
      let logged_in : IsLoggedIn p token
          (renewed_user claims.name (role_of p token.all_claims) user).0 =
        (unfold renewed_user in
          record {
            claims = claims;
            claimed = claimed;
            provider = provider;
            subject = subject;
            role = refl;
          }) in
      Yields-if _ (renewed_user claims.name (role_of p token.all_claims) user).1 _ _
        (λ changed. saved-IsLoggedIn p token _ logged_in) (λ same. Yields-pure _ _ logged_in)

  create_user-Yields :
      (p : OidcProvider) (token : IdToken) (user : User)
      → IsLoggedIn p token user
      → Yields env (IsLoggedIn p token) (create_user user)
  unfolding create_user ensure_user_id
  create_user-Yields p token user h =
      Yields-bind (IsLoggedIn p token) _ _ _
        (Yields-if _ (is_nil user.id) _ _
          (λ new.
            Yields-bind (λ t. Unit) _ _ _ (Yields-any _)
              (λ id u. Yields-pure _ _ (same_login h refl refl refl)))
          (λ old. Yields-pure _ user h))
        (λ named k.
          row-Yields p token (λ row. wrapping "inserting user" (execute (insert_user row)))
            (λ now. record named { created_at = now; updated_at = now })
            (λ now. same_login k refl refl refl))

  provision_user-Yields :
      (p : OidcProvider) (token : IdToken) (claims : Claims)
      → token.claims ≡ some claims
      → Yields env (IsLoggedIn p token) (provision_user p claims (role_of p token.all_claims))
  unfolding provision_user
  provision_user-Yields p token claims claimed =
      Yields-bind (λ r. Unit) _ _ _ (Yields-any _)
        (λ existing u.
          Yields-bind (λ r. Unit) _ _ _ (Yields-any _)
            (λ username v. Yields-wrapping _ _ _ (
              create_user-Yields p token _ (record {
                claims = claims;
                claimed = claimed;
                provider = refl;
                subject = refl;
                role = refl;
              }))))

  known_or_new-Yields :
      (p : OidcProvider) (token : IdToken) (claims : Claims) (found : Option User)
      → token.claims ≡ some claims
      → ((u : User)
          → found ≡ some u
          → (u.oidc_provider ≡ p.name) × (u.oidc_subject ≡ claims.subject))
      → Yields env (IsLoggedIn p token) (known_or_new p claims (role_of p token.all_claims) found)
  known_or_new-Yields p token claims none claimed same =
      provision_user-Yields p token claims claimed
  known_or_new-Yields p token claims (some u) claimed same =
      renew_user-Yields p token claims u claimed (same u refl).0 (same u refl).1

  pub login_user-Yields :
      (p : OidcProvider) (token : IdToken) → Yields env (IsLoggedIn p token) (login_user p token)
  unfolding login_user get_user_by_oidc_identity
  login_user-Yields p token =
      Yields-bind (λ claims. token.claims ≡ some claims) _ _ _
        (Yields-wrapping _ _ _ (Yields-external_call _ _ (λ t a e. e)))
        (λ claims claimed.
          Yields-bind
            (λ found.
              (u : User)
              → found ≡ some u
              → (u.oidc_provider ≡ p.name) × (u.oidc_subject ≡ claims.subject))
            _ _ _
            (Yields-wrapping _ _ _ (
              Yields-wrapping _ _ _ (Yields-query _ _ (same_identity_found p.name claims.subject))))
            (λ found same. known_or_new-Yields p token claims found claimed same))
