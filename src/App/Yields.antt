-- ===== src/App/Yields.antt =====
-- What an action returns when it returns, whatever the tables are, and whatever it wrote before.
use Prim.Native.String.{String}
use wgrift.Base.{
  ℕ, ◌≡◌, refl, Bool, true, false, Option, none, some, if◌then◌else◌, Bool-cases, inl, inr,
}
use wgrift.Base.Result.{Result, ok, err}
use wgrift.Store.Db.{Db}
use wgrift.App.External.{OidcCache}
use wgrift.App.{
  Env, World, App, Error, pure, fail, ◌>>=◌, wrapping, wrap_error, query, external_call,
  or_external, time_now, continue, cached, attempt,
}

abbrev pub Returned : {A : Type 0} → (A → Type 0) → Result Error A → Type 0
Returned P (ok a) = P a
Returned P (err e) = Unit

-- `m` returns nothing but what `P` admits, from every world.
pub record Yields (env : Env) {A : Type 0} (P : A → Type 0) (m : App A) : Type 0 where
  pub at : (w : World) → Returned P (m env w).0

Returned-or_external :
    {A : Type 0} (P : A → Type 0) (r : Option A)
    → ((a : A) → r ≡ some a → P a)
    → Returned P (or_external r)
Returned-or_external P none h = tt
Returned-or_external P (some a) h = h a refl

Returned-wrapped :
    {A : Type 0} (P : A → Type 0) (text : String) (r : Result Error A)
    → Returned P r
    → Returned P (wrap_error text r)
Returned-wrapped P text (ok a) h = h
Returned-wrapped P text (err e) h = tt

Returned-continued :
    (env : Env) {A B : Type 0} (P : A → Type 0) (Q : B → Type 0) (r : Result Error A)
    (f : A → App B) (w : World)
    → Returned P r
    → ((a : A) → P a → Yields env Q (f a))
    → Returned Q (continue r f env w).0
Returned-continued env P Q (ok a) f w h then' = (then' a h).at w
Returned-continued env P Q (err e) f w h then' = tt

Returned-trivial : {A : Type 0} (r : Result Error A) → Returned (λ a. Unit) r
Returned-trivial (ok a) = tt
Returned-trivial (err e) = tt

module _ {env : Env} where
  pub Yields-pure : {A : Type 0} (P : A → Type 0) (a : A) → P a → Yields env P (pure a)
  unfolding pure
  Yields-pure P a h = record { at = λ w. h }

  pub Yields-fail : {A : Type 0} (P : A → Type 0) (e : Error) → Yields env P (fail e)
  unfolding fail
  Yields-fail P e = record { at = λ w. tt }

  -- Any action, of whose result nothing is said.
  pub Yields-any : {A : Type 0} (m : App A) → Yields env (λ a. Unit) m
  Yields-any m = record { at = λ w. Returned-trivial (m env w).0 }

  pub Yields-query :
      {A : Type 0} (P : A → Type 0) (f : Db → A) → ((db : Db) → P (f db)) → Yields env P (query f)
  unfolding query
  Yields-query P f h = record {
    at = λ w. elim (Bool-cases (env.db_fails w.tick)) [
      | inl down ↦ rw down tt
      | inr up ↦ rw up (h w.db)
    ];
  }

  pub Yields-cached :
      {A : Type 0} (P : A → Type 0) (f : OidcCache → A)
      → ((c : OidcCache) → P (f c))
      → Yields env P (cached f)
  unfolding cached
  Yields-cached P f h = record { at = λ w. h w.oidc }

  pub Yields-external_call :
      {A : Type 0} (P : A → Type 0) (f : Env → ℕ → Option A)
      → ((t : ℕ) (a : A) → f env t ≡ some a → P a)
      → Yields env P (external_call f)
  unfolding external_call
  Yields-external_call P f h = record { at = λ w. Returned-or_external P (f env w.tick) (h w.tick) }

  -- A time that the clock told.
  pub Yields-clock : Yields env (λ now. (t : ℕ) × (now ≡ env.clock t)) time_now
  unfolding time_now
  Yields-clock = record { at = λ w. (w.tick, refl) }

  pub Yields-wrapping :
      {A : Type 0} (P : A → Type 0) (text : String) (m : App A)
      → Yields env P m
      → Yields env P (wrapping text m)
  unfolding wrapping
  Yields-wrapping P text m h = record { at = λ w. Returned-wrapped P text (m env w).0 (h.at w) }

  -- What an error leaves behind a call that is not looked at.
  pub Yields-attempt :
      {A : Type 0} (P : A → Type 0) (m : App A)
      → Yields env P m
      → Yields env (Returned P) (attempt m)
  unfolding attempt
  Yields-attempt P m h = record { at = λ w. h.at w }

  pub Yields-bind :
      {A B : Type 0} (P : A → Type 0) (Q : B → Type 0) (m : App A) (f : A → App B)
      → Yields env P m
      → ((a : A) → P a → Yields env Q (f a))
      → Yields env Q (m >>= f)
  unfolding ◌>>=◌
  Yields-bind P Q m f h then' = record {
    at = λ w. Returned-continued env P Q (m env w).0 f (m env w).1 (h.at w) then';
  }

  pub Yields-if :
      {A : Type 0} (P : A → Type 0) (b : Bool) (m n : App A)
      → (b ≡ true → Yields env P m)
      → (b ≡ false → Yields env P n)
      → Yields env P (if b then m else n)
  Yields-if P true m n hm hn = hm refl
  Yields-if P false m n hm hn = hn refl
