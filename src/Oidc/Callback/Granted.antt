-- ===== src/Oidc/Callback/Granted.antt =====
-- What a login of `HandleCallback` rests on.
use wgrift.Base.{
  ℕ, ◌-◌, ◌≤◌, ◌≡◌, refl, sym, ◌∙◌, ap, Option, none, some, arith, Text, text_eq, text_eq_iff, ltb,
  find_first,
}
use wgrift.Base.Tables.{find_first-holds}
use wgrift.Models.{Time, OidcState, User}
use wgrift.Store.Db.{Db}
use wgrift.Store.Settings.{state_lifetime, get_oidc_state}
use wgrift.App.{Env, World, Error}
use wgrift.Base.Result.{Result, ok, err}
use wgrift.App.External.{ResolvedProvider, OidcCache, IdToken}
use wgrift.App.Reads.{Reads, Reads-then, Reads-pure, Reads-fail, Reads-wrapping, Reads-query}
use wgrift.App.Yields.{
  Yields, Returned, Yields-pure, Yields-fail, Yields-any, Yields-cached, Yields-external_call,
  Yields-clock, Yields-wrapping, Yields-bind, Yields-if,
}
use wgrift.Oidc.{with_redirect, find_provider, required_provider}
use wgrift.Oidc.Callback.LoggedIn.{IsLoggedIn, login_user-Yields}
use wgrift.Oidc.Callback.{
  verified_token, required_token, consume_state, finish_login, refuse_expired, handle_callback,
  required_state,
}

-- A token that the provider's verifier took, in the answer to the code, with the login's nonce.
pub record IsVerified (env : Env) (r : ResolvedProvider) (nonce external_url code : Text)
    (token : IdToken) : Type 0 where
  pub raw : Text
  pub exchanged_at : ℕ
  pub verified_at : ℕ
  pub exchanged : env.exchange exchanged_at (with_redirect external_url r) code ≡ some (some raw)
  pub verified : env.verify_id_token verified_at r raw ≡ some token
  pub same_nonce : token.nonce ≡ nonce

pub record IsGranted (env : Env) (code external_url : Text) (st : OidcState) (granted : User × Text)
    : Type 0 where
  pub now_at : ℕ
  pub fresh : env.clock now_at - st.created_at ≤ state_lifetime
  pub r : ResolvedProvider
  pub same_provider : r.model.id ≡ st.provider_id
  pub token : IdToken
  pub verified : IsVerified env r st.nonce external_url code token
  pub logged_in : IsLoggedIn r.model token granted.0
  pub redirected : granted.1 ≡ st.redirect_url

find_provider-same :
    (id : Text) (c : OidcCache) (r : ResolvedProvider)
    → find_provider id c ≡ some r
    → r.model.id ≡ id
find_provider-same id c r h = (text_eq_iff r.model.id id).0 (find_first-holds _ c.providers r h)

module _ {env : Env} where
  required_token-Yields : (raw : Option Text) → Yields env (λ t. raw ≡ some t) (required_token raw)
  required_token-Yields none = Yields-fail _ _
  required_token-Yields (some raw) = Yields-pure _ raw refl

  required_provider-Yields :
      (e : Error) (id : Text) (found : Option ResolvedProvider)
      → ((r : ResolvedProvider) → found ≡ some r → r.model.id ≡ id)
      → Yields env (λ r. r.model.id ≡ id) (required_provider e found)
  required_provider-Yields e id none h = Yields-fail _ _
  required_provider-Yields e id (some r) h = Yields-pure _ r (h r refl)

  verified_token-Yields :
      (r : ResolvedProvider) (nonce external_url code : Text)
      → Yields env
          (IsVerified env r nonce external_url code)
          (verified_token r nonce external_url code)
  unfolding verified_token
  verified_token-Yields r nonce external_url code =
      Yields-bind
        (λ token. (t : ℕ) × (env.exchange t (with_redirect external_url r) code ≡ some token)) _ _ _
        (Yields-wrapping _ _ _ (Yields-external_call _ _ (λ t a e. (t, e))))
        (λ token exchanged.
          Yields-bind (λ raw. token ≡ some raw) _ _ _ (required_token-Yields token)
            (λ raw has_raw.
              Yields-bind (λ token. (t : ℕ) × (env.verify_id_token t r raw ≡ some token)) _ _ _
                (Yields-wrapping _ _ _ (Yields-external_call _ _ (λ t a e. (t, e))))
                (λ id_token verified.
                  Yields-if _ (text_eq id_token.nonce nonce) _ _
                    (λ same. Yields-pure _ id_token (record {
                      raw = raw;
                      exchanged_at = exchanged.0;
                      verified_at = verified.0;
                      exchanged = exchanged.1 ∙ ap some has_raw;
                      verified = verified.1;
                      same_nonce = (text_eq_iff id_token.nonce nonce).0 same;
                    }))
                    (λ other. Yields-fail _ _))))

  refuse_expired-Yields :
      (st : OidcState) (now : Time)
      → Yields env (λ u. now - st.created_at ≤ state_lifetime) (refuse_expired st now)
  unfolding refuse_expired
  refuse_expired-Yields st now =
      Yields-if _ (ltb state_lifetime (now - st.created_at)) _ _ (λ late. Yields-fail _ _)
        (λ fresh. Yields-pure _ tt (ground (arith, fresh)))

  finish_login-Yields :
      (code external_url : Text) (st : OidcState)
      → Yields env (IsGranted env code external_url st) (finish_login code external_url st)
  unfolding finish_login
  finish_login-Yields code external_url st =
      Yields-bind (λ now. (t : ℕ) × (now ≡ env.clock t)) _ _ _ Yields-clock
        (λ now told.
          Yields-bind (λ u. now - st.created_at ≤ state_lifetime) _ _ _
            (refuse_expired-Yields st now)
            (λ v fresh.
              Yields-bind
                (λ found. (r : ResolvedProvider) → found ≡ some r → r.model.id ≡ st.provider_id) _ _
                _ (Yields-cached _ _ (find_provider-same st.provider_id))
                (λ found same.
                  Yields-bind (λ r. r.model.id ≡ st.provider_id) _ _ _
                    (required_provider-Yields _ st.provider_id found same)
                    (λ r provider.
                      Yields-bind (IsVerified env r st.nonce external_url code) _ _ _
                        (verified_token-Yields r st.nonce external_url code)
                        (λ token verified.
                          Yields-bind (IsLoggedIn r.model token) _ _ _
                            (login_user-Yields r.model token)
                            (λ user logged_in.
                              Yields-pure _ (user, st.redirect_url)
                                (record {
                                  now_at = told.0;
                                  fresh = rw told.1 at fresh;
                                  r = r;
                                  same_provider = provider;
                                  token = token;
                                  verified = verified;
                                  logged_in = logged_in;
                                  redirected = refl;
                                })))))))

  consume_state-Yields :
      (code state_param external_url : Text) (st : OidcState)
      → Yields env
          (IsGranted env code external_url st)
          (consume_state code state_param external_url st)
  unfolding consume_state
  consume_state-Yields code state_param external_url st =
      Yields-bind (λ r. Unit) _ _ _ (Yields-any _)
        (λ dropped u. finish_login-Yields code external_url st)

-- A login that returns: there was a state, and it is granted.
abbrev pub Granted : Env → Text → Text → Text → World → Result Error (User × Text) → Type 0
Granted env code state_param external_url w (ok granted) =
    (st : OidcState) × (find_first (λ s. text_eq s.state state_param) w.db.oidc_states ≡ some st)
    × IsGranted env code external_url st granted
Granted env code state_param external_url w (err e) = Unit

required_state-Reads :
    (env : Env) (db : Db) (found there : Option OidcState)
    → found ≡ there
    → Reads env db (λ st. there ≡ some st) (required_state found)
required_state-Reads env db none there same = Reads-fail _ _
required_state-Reads env db (some st) there same = Reads-pure _ st (sym same)

Granted-with :
    (env : Env) (code state_param external_url : Text) (st : OidcState) (w : World)
    (r : Result Error (User × Text))
    → find_first (λ s. text_eq s.state state_param) w.db.oidc_states ≡ some st
    → Returned (IsGranted env code external_url st) r
    → Granted env code state_param external_url w r
Granted-with env code state_param external_url st w (ok granted) there h = (st, there, h)
Granted-with env code state_param external_url st w (err e) there h = tt

-- A callback lets a user in only where the store had its state, no older than ten minutes, the
-- provider of the state took the code and verified the token in the answer, and the token has the
-- nonce of the state. The user is the one of the token's subject at that provider, with the role
-- that the provider's default and its admin claim give, and is sent where the state says.
pub handle_callback-Granted :
    (env : Env) (code state_param external_url : Text) (w : World)
    → Granted env code state_param external_url w
        (handle_callback code state_param external_url env w).0
unfolding handle_callback get_oidc_state
handle_callback-Granted env code state_param external_url w =
    let there = find_first (λ s. text_eq s.state state_param) w.db.oidc_states in
    Reads-then (λ found. found ≡ there) (λ r. Granted env code state_param external_url w r.0) w _ _
      (Reads-wrapping _ _ _ (Reads-wrapping _ _ _ (Reads-query _ _ refl))) (λ e w' db calls. tt)
      (λ found w1 same db1 calls1.
        Reads-then (λ st. there ≡ some st) (λ r. Granted env code state_param external_url w r.0) w1
          _ _ (required_state-Reads env w1.db found there same) (λ e w' db calls. tt)
          (λ st w2 is_there db2 calls2.
            Granted-with env code state_param external_url st w _ is_there
              ((consume_state-Yields code state_param external_url st).at w2)))
