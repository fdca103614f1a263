-- ===== src/App/Keeps.antt =====
-- Invariants of the database under actions: one rule for each way to build an action.
use Prim.Native.String.{String}
use wgrift.Base.{ℕ, ◌≡◌, Bool, true, false, Option, Bool-cases, inl, inr, if◌then◌else◌}
use wgrift.Base.Result.{Result, ok, err}
use wgrift.Store.Db.{Db, Constraint}
use wgrift.App.External.{OidcCache}
use wgrift.App.{
  Env, World, App, Error, NetCall, pure, fail, ◌>>=◌, wrapping, attempt, time_now, new_uuid, query,
  execute, external_call, net_call, net_exists, continue, executed, cached, set_cache,
}

-- `m` keeps `P` of the database in the environment, whether it returns or fails.
pub record Keeps (env : Env) (P : Db → Type 0) {A : Type 0} (m : App A) : Type 0 where
  pub at : (w : World) → P w.db → P (m env w).1.db

-- What holds of the database behind a statement that is not refused.
abbrev pub After : (Db → Type 0) → Result Constraint Db → Type 0
After P (ok db) = P db
After P (err c) = Unit

executed_at :
    (P : Db → Type 0) (r : Result Constraint Db) (w : World)
    → P w.db
    → After P r
    → P (executed w r).1.db
executed_at P (ok db) w h after = after
executed_at P (err c) w h after = h

continue_at :
    (env : Env) (P : Db → Type 0) {A B : Type 0} (r : Result Error A) (f : A → App B) (w : World)
    → ((a : A) → Keeps env P (f a))
    → P w.db
    → P (continue r f env w).1.db
continue_at env P (ok a) f w kf h = (kf a).at w h
continue_at env P (err e) f w kf h = h

module _ {env : Env} {P : Db → Type 0} where
  pub Keeps-pure : {A : Type 0} (a : A) → Keeps env P (pure a)
  unfolding pure
  Keeps-pure a = record { at = λ w h. h }

  pub Keeps-fail : {A : Type 0} (e : Error) → Keeps env P (fail {A = A} e)
  unfolding fail
  Keeps-fail e = record { at = λ w h. h }

  pub Keeps-time_now : Keeps env P time_now
  unfolding time_now
  Keeps-time_now = record { at = λ w h. h }

  pub Keeps-new_uuid : Keeps env P new_uuid
  unfolding new_uuid
  Keeps-new_uuid = record { at = λ w h. h }

  pub Keeps-query : {A : Type 0} (f : Db → A) → Keeps env P (query f)
  unfolding query
  Keeps-query f = record { at = λ w h. h }

  pub Keeps-external_call : {A : Type 0} (f : Env → ℕ → Option A) → Keeps env P (external_call f)
  unfolding external_call
  Keeps-external_call f = record { at = λ w h. h }

  pub Keeps-net_call : (c : NetCall) → Keeps env P (net_call c)
  unfolding net_call
  Keeps-net_call c = record { at = λ w h. h }

  pub Keeps-net_exists : Keeps env P net_exists
  unfolding net_exists
  Keeps-net_exists = record { at = λ w h. h }

  pub Keeps-cached : {A : Type 0} (f : OidcCache → A) → Keeps env P (cached f)
  unfolding cached
  Keeps-cached f = record { at = λ w h. h }

  pub Keeps-set_cache : (cache : OidcCache) → Keeps env P (set_cache cache)
  unfolding set_cache
  Keeps-set_cache cache = record { at = λ w h. h }

  pub Keeps-wrapping :
      {A : Type 0} (text : String) (m : App A) → Keeps env P m → Keeps env P (wrapping text m)
  unfolding wrapping
  Keeps-wrapping text m k = record { at = λ w h. k.at w h }

  pub Keeps-attempt : {A : Type 0} (m : App A) → Keeps env P m → Keeps env P (attempt m)
  unfolding attempt
  Keeps-attempt m k = record { at = λ w h. k.at w h }

  pub Keeps-if :
      {A : Type 0} (b : Bool) (m n : App A)
      → Keeps env P m
      → Keeps env P n
      → Keeps env P (if b then m else n)
  Keeps-if true m n km kn = km
  Keeps-if false m n km kn = kn

  pub Keeps-bind :
      {A B : Type 0} (m : App A) (f : A → App B)
      → Keeps env P m
      → ((a : A) → Keeps env P (f a))
      → Keeps env P (m >>= f)
  unfolding ◌>>=◌
  Keeps-bind m f km kf = record {
    at = λ w h. let (r, w') = m env w in continue_at env P r f w' kf (km.at w h);
  }

  -- A statement that keeps `P` on every connection.
  pub Keeps-execute :
      (f : Bool → Db → Result Constraint Db)
      → ((fk : Bool) (db : Db) → P db → After P (f fk db))
      → Keeps env P (execute f)
  unfolding execute
  Keeps-execute f keep = record {
    at = λ w h. elim (Bool-cases (env.db_fails w.tick)) [
      | inl down ↦ rw down h
      | inr up ↦ rw up (executed_at P (f (env.foreign_keys w.tick) w.db) w h (keep _ w.db h))
    ];
  }

  -- A statement that keeps `P` where foreign keys are enforced, as they are in `env`.
  pub Keeps-execute_enforced :
      (f : Bool → Db → Result Constraint Db)
      → ((t : ℕ) → env.foreign_keys t ≡ true)
      → ((db : Db) → P db → After P (f true db))
      → Keeps env P (execute f)
  unfolding execute
  Keeps-execute_enforced f enforced keep = record {
    at = λ w h. elim (Bool-cases (env.db_fails w.tick)) [
      | inl down ↦ rw down h
      | inr up ↦ rw (up, enforced w.tick) (executed_at P (f true w.db) w h (keep w.db h))
    ];
  }

pub ruleset keeps_rules = (
  Keeps-pure, Keeps-fail, Keeps-time_now, Keeps-new_uuid, Keeps-query, Keeps-external_call,
  Keeps-net_call, Keeps-net_exists, Keeps-cached, Keeps-set_cache, Keeps-wrapping, Keeps-attempt,
  Keeps-if, Keeps-bind,
)
