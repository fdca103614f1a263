-- ===== src/Oidc/Callback/Replay.antt =====
-- `HandleCallback` of internal/auth/oidc.go called twice with one state.
use wgrift.Base.{ℕ, ◌≡◌, refl, Bool, false, Option, none, some, arith, Text, text_eq, find_first}
use wgrift.Base.Result.{err}
use wgrift.Base.Tables.{find_first-select-none}
use wgrift.Models.{User, OidcState}
use wgrift.Store.Db.{Db, delete_where}
use wgrift.Store.Users.{
  create_user, update_user, insert_user, set_user, ensure_user_id, get_user_by_oidc_identity,
  get_user_by_username,
}
use wgrift.Store.Settings.{get_oidc_state, delete_oidc_state, remove_oidc_state}
use wgrift.App.{Env, World, message, ◌>>=◌, wrapping, attempt, query, execute}
use wgrift.App.External.{IdToken, Claims}
use wgrift.App.Keeps.{Keeps, After, Keeps-execute, keeps_rules}
use wgrift.Models.{OidcProvider}
use wgrift.Oidc.Consistent.{required_provider-Keeps, verified_token-Keeps, refuse_expired-Keeps}
use wgrift.Oidc.Callback.{
  renew_user, provision_user, known_or_new, login_user, consume_state, finish_login,
  handle_callback, required_state,
}

-- No login waits under the state.
abbrev IsConsumed : Text → Db → Type 0
IsConsumed state db = find_first (λ s. text_eq s.state state) db.oidc_states ≡ none

insert_user-IsConsumed :
    (state : Text) (u : User) (fk : Bool) (db : Db)
    → IsConsumed state db
    → After (IsConsumed state) (insert_user u fk db)
unfolding insert_user
insert_user-IsConsumed state u fk db h = ground (arith, h)

set_user-IsConsumed :
    (state : Text) (u : User) (fk : Bool) (db : Db)
    → IsConsumed state db
    → After (IsConsumed state) (set_user u fk db)
unfolding set_user
set_user-IsConsumed state u fk db h = ground (arith, h)

module _ {env : Env} (state : Text) where
  create_user-Keeps : (u : User) → Keeps env (IsConsumed state) (create_user u)
  unfolding create_user ensure_user_id
  create_user-Keeps u = search (keeps_rules, Keeps-execute, insert_user-IsConsumed) depth 12

  update_user-Keeps : (u : User) → Keeps env (IsConsumed state) (update_user u)
  unfolding update_user
  update_user-Keeps u = search (keeps_rules, Keeps-execute, set_user-IsConsumed) depth 12

  known_or_new-Keeps :
      (p : OidcProvider) (claims : Claims) (role : Text) (found : Option User)
      → Keeps env (IsConsumed state) (known_or_new p claims role found)
  unfolding renew_user provision_user get_user_by_username
  known_or_new-Keeps p claims role none = search (keeps_rules, create_user-Keeps) depth 12
  known_or_new-Keeps p claims role (some u) = search (keeps_rules, update_user-Keeps) depth 12

  login_user-Keeps :
      (p : OidcProvider) (token : IdToken) → Keeps env (IsConsumed state) (login_user p token)
  unfolding login_user get_user_by_oidc_identity
  login_user-Keeps p token = search (keeps_rules, known_or_new-Keeps) depth 12

  finish_login-Keeps :
      (code external_url : Text) (st : OidcState)
      → Keeps env (IsConsumed state) (finish_login code external_url st)
  unfolding finish_login
  finish_login-Keeps code external_url st =
      search
        (
          keeps_rules, refuse_expired-Keeps, required_provider-Keeps, verified_token-Keeps,
          login_user-Keeps,
        )
        depth 16

removed :
    (state : Text) (db : Db)
    → IsConsumed state
        (record db { oidc_states = delete_where (λ s. text_eq s.state state) db.oidc_states })
unfolding delete_where
removed state db = find_first-select-none _ _ db.oidc_states (λ s e. ground (arith, e))

module _ (env : Env) (up : (t : ℕ) → env.db_fails t ≡ false) (state : Text) where
  consume_state-IsConsumed :
      (code external_url : Text) (st : OidcState) (w : World)
      → IsConsumed state (consume_state code state external_url st env w).1.db
  unfolding consume_state ◌>>=◌ attempt delete_oidc_state remove_oidc_state wrapping execute
  consume_state-IsConsumed code external_url st w =
      rw (up w.tick) ((finish_login-Keeps state code external_url st).at _ (removed state w.db))

  missing-IsConsumed :
      (found : Option OidcState) (code external_url : Text) (w : World)
      → (found ≡ none → IsConsumed state w.db)
      → IsConsumed state
          ((required_state found >>= consume_state code state external_url) env w).1.db
  unfolding ◌>>=◌
  missing-IsConsumed none code external_url w h = h refl
  missing-IsConsumed (some st) code external_url w h =
      consume_state-IsConsumed code external_url st w

  -- Whatever becomes of the login, nothing waits under the state afterwards.
  handle_callback-IsConsumed :
      (code external_url : Text) (w : World)
      → IsConsumed state (handle_callback code state external_url env w).1.db
  unfolding handle_callback get_oidc_state wrapping query ◌>>=◌
  handle_callback-IsConsumed code external_url w =
      rw (up w.tick) (missing-IsConsumed _ code external_url _ (λ e. e))

  consumed-refused :
      (code external_url : Text) (w : World)
      → IsConsumed state w.db
      → (handle_callback code state external_url env w).0
        ≡ err (message "invalid or expired OIDC state")
  unfolding handle_callback get_oidc_state wrapping query ◌>>=◌
  consumed-refused code external_url w h = rw (up w.tick, h) refl

  -- A state is good for one callback: where no statement fails, a second callback with it is refused,
  -- whether the first one let a user in or not, and whatever the codes are.
  pub handle_callback-handle_callback :
      (code₁ url₁ code₂ url₂ : Text) (w : World)
      → (handle_callback code₂ state url₂ env (handle_callback code₁ state url₁ env w).1).0
        ≡ err (message "invalid or expired OIDC state")
  handle_callback-handle_callback code₁ url₁ code₂ url₂ w =
      consumed-refused code₂ url₂ _ (handle_callback-IsConsumed code₁ url₁ w)
