-- ===== src/Auth/Sessions.antt =====
-- What `ValidateSession` of internal/auth/auth.go admits.
use wgrift.Base.{
  true, ℕ, ◌+◌, ◌-◌, ◌≤◌, ◌⊎◌, ◌≡◌, refl, sym, subst, ap, Option, none, some, arith, Text, text_eq,
  find_first, ltb, inl, inr, Bool-cases,
}
use Prim.Native.String.{String}
use wgrift.Base.Result.{Result, ok, err}
use wgrift.Models.{Time, User, Session}
use wgrift.App.{Env, World, Error, ◌>>=◌, wrapping, attempt, time_now, query, execute}
use wgrift.Store.Db.{Db, delete_where}
use wgrift.Store.Users.{get_user, select_user}
use wgrift.Store.Sessions.{
  get_session, select_session, touch_session, set_last_seen, delete_session, remove_session,
}
use wgrift.Auth.{
  Service, drop_session, with_user, touch_and_load, check_expiry, with_session, validate_session,
}

-- At that time the session has neither expired nor been idle for too long.
pub record IsLive (s : Service) (session : Session) (now : Time) : Type 0 where
  pub not_expired : now ≤ session.expires_at
  pub not_idle : now - session.last_seen_at ≤ s.session_timeout

-- The last statement that was run failed.
abbrev pub StoreFailed : Env → World → Type 0
StoreFailed env w = (k : ℕ) × (w.tick ≡ k + 1) × (env.db_fails k ≡ true)

-- The session table without the session; or as it was, where the statement that deletes it failed.
abbrev pub IsDropped : Env → Text → Db → World → Type 0
IsDropped env id db w =
    (w.db ≡ record db { sessions = delete_where (λ s. text_eq s.id id) db.sessions })
    ⊎ ((w.db ≡ db) × StoreFailed env w)

-- The outcomes of a validation.
pub data Validation (env : Env) (s : Service) (id : Text) (w : World)
    : Result Error (Session × User) × World → Type 0 where
  not_loaded :
      (e : Error) (w' : World)
      → w'.db ≡ w.db
      → StoreFailed env w' ⊎ (select_session id w.db ≡ none)
      → Validation env s id w (err e, w')
  not_live :
      (session : Session) (t : ℕ) (e : Error) (w' : World)
      → select_session id w.db ≡ some session
      → ¬ IsLive s session (env.clock t)
      → IsDropped env id w.db w'
      → Validation env s id w (err e, w')
  not_completed :
      (session : Session) (t : ℕ) (e : Error) (w' : World)
      → select_session id w.db ≡ some session
      → IsLive s session (env.clock t)
      → StoreFailed env w' ⊎ (select_user session.user_id w.db ≡ none)
      → Validation env s id w (err e, w')
  valid :
      (session : Session) (user : User) (t : ℕ) (w' : World)
      → select_session id w.db ≡ some session
      → IsLive s session (env.clock t)
      → select_user session.user_id w.db ≡ some user
      → Validation env s id w (ok (session, user), w')

-- An error, with the session dropped or the tables as they were.
data Dropped (env : Env) (id : Text) (db : Db) {A : Type 0} : Result Error A × World → Type 0 where
  dropped : (e : Error) (w : World) → IsDropped env id db w → Dropped env id db (err e, w)

drop_session-Dropped :
    (env : Env) {A : Type 0} (id : Text) (text : String) (w : World)
    → Dropped env id w.db (drop_session {A = A} id text env w)
unfolding drop_session ◌>>=◌ attempt delete_session wrapping execute remove_session
drop_session-Dropped env id text w = elim (Bool-cases (env.db_fails w.tick)) [
  | inl down ↦ rw down (dropped _ _ (inr (refl, (w.tick, refl, down))))
  | inr up ↦ rw up (dropped _ _ (inl refl))
]

module _ (env : Env) (s : Service) (id : Text) (w : World) (session : Session) (t : ℕ)
    (found : select_session id w.db ≡ some session) where
  rejected :
      (r : Result Error (Session × User) × World) (db : Db)
      → db ≡ w.db
      → ¬ IsLive s session (env.clock t)
      → Dropped env id db r
      → Validation env s id w r
  rejected _ db same dead (dropped e w' h) =
      not_live session t e w' found dead (subst (λ d. IsDropped env id d w') same h)

  user_or_not :
      (v : World) (u : Option User)
      → IsLive s session (env.clock t)
      → select_user session.user_id w.db ≡ u
      → Validation env s id w (with_user id session u env v)
  unfolding ◌>>=◌ drop_session attempt delete_session wrapping execute remove_session
  user_or_not v (some user) live e = valid session user t v found live e
  user_or_not v none live e = not_completed session t _ _ found live (inr e)

  loaded :
      (v : World)
      → v.db.users ≡ w.db.users
      → IsLive s session (env.clock t)
      → Validation env s id w (touch_and_load id session env v)
  unfolding touch_and_load touch_session set_last_seen ◌>>=◌ wrapping time_now execute get_user
      query select_user
  loaded v same live = elim (Bool-cases (env.db_fails (v.tick + 1))) [
    | inl down ↦ rw down (not_completed session t _ _ found live (inl (v.tick + 1, refl, down)))
    | inr up ↦ elim (Bool-cases (env.db_fails (v.tick + 1 + 1))) [
      | inl down ↦
          rw (up, down) (not_completed session t _ _ found live (inl (v.tick + 1 + 1, refl, down)))
      | inr up' ↦
          rw (up, up')
            (user_or_not _ (find_first (λ u. text_eq u.id session.user_id) v.db.users) live
              (rw same refl))
    ]
  ]

  checked :
      (v : World) (now : Time)
      → v.db ≡ w.db
      → now ≡ env.clock t
      → Validation env s id w (check_expiry s id session now env v)
  unfolding check_expiry
  checked v now same e = elim (Bool-cases (ltb session.expires_at now)) [
    | inl late ↦ rw late (
        rejected _ v.db same (λ live. ground (arith, live.not_expired))
          (drop_session-Dropped env id _ v))
    | inr in_time ↦ elim (Bool-cases (ltb s.session_timeout (now - session.last_seen_at))) [
      | inl idle ↦
          rw (in_time, idle)
            (rejected _ v.db same (λ live. ground (arith, live.not_idle))
              (drop_session-Dropped env id _ v))
      | inr active ↦
          rw (in_time, active)
            (loaded v (ap (λ d. d.users) same)
              (record { not_expired = ground arith; not_idle = ground arith }))
    ]
  ]

found_or_not :
    (env : Env) (s : Service) (id : Text) (w v : World) (found : Option Session)
    → found ≡ select_session id w.db
    → v.db ≡ w.db
    → Validation env s id w (with_session s id found env v)
found_or_not env s id w v none e same = unfold ◌>>=◌ in not_loaded _ v same (inr (sym e))
found_or_not env s id w v (some session) e same =
    unfold ◌>>=◌ time_now in
    checked env s id w session v.tick (sym e) (record v { tick = v.tick + 1 }) (env.clock v.tick)
      same refl

-- A session is validated only if it is stored, has neither expired nor been idle for longer than
-- the timeout at a time that the clock told, and its user is stored: these are returned. One that
-- is found but is not live is refused, and deleted unless that statement fails; a live one is
-- refused only where a statement fails or the user is missing, and else the session was not found,
-- or the statement that looks for it failed, and the tables are as they were.
pub validate_session-Validation :
    (env : Env) (s : Service) (id : Text) (w : World)
    → Validation env s id w (validate_session s id env w)
unfolding validate_session get_session query wrapping ◌>>=◌
validate_session-Validation env s id w = elim (Bool-cases (env.db_fails w.tick)) [
  | inl down ↦ rw down (not_loaded _ _ refl (inl (w.tick, refl, down)))
  | inr up ↦ rw up (found_or_not env s id w _ (select_session id w.db) refl refl)
]
