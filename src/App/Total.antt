-- ===== src/App/Total.antt =====
-- Actions that never fail, whatever the environment does.
use wgrift.Base.{Bool, true, false, ◌≡◌, refl, if◌then◌else◌}
use wgrift.Base.Result.{Result, ok, err}
use wgrift.App.{Env, World, App, Error, pure, ◌>>=◌, attempt, continue, time_now}

abbrev pub Returns : {A : Type 0} → (A → Type 0) → Result Error A × World → Type 0
Returns P (ok a, w) = P a
Returns P (err e, w) = ⊥

-- `m` returns something that `P` admits, from every world.
pub record Total (env : Env) {A : Type 0} (P : A → Type 0) (m : App A) : Type 0 where
  pub at : (w : World) → Returns P (m env w)

Returns-continue :
    (env : Env) {A B : Type 0} (P : A → Type 0) (Q : B → Type 0) (r : Result Error A × World)
    (f : A → App B)
    → Returns P r
    → ((a : A) (w : World) → P a → Returns Q (f a env w))
    → Returns Q (continue r.0 f env r.1)
Returns-continue env P Q (ok a, w) f h then' = then' a w h
Returns-continue env P Q (err e, w) f h then' = h

module _ {env : Env} where
  pub Total-pure : {A : Type 0} (P : A → Type 0) (a : A) → P a → Total env P (pure a)
  unfolding pure
  Total-pure P a h = record { at = λ w. h }

  pub Total-time_now : Total env (λ t. Unit) time_now
  unfolding time_now
  Total-time_now = record { at = λ w. tt }

  pub Total-attempt : {A : Type 0} (m : App A) → Total env (λ r. Unit) (attempt m)
  unfolding attempt
  Total-attempt m = record { at = λ w. tt }

  pub Total-bind :
      {A B : Type 0} (P : A → Type 0) (Q : B → Type 0) (m : App A) (f : A → App B)
      → Total env P m
      → ((a : A) → P a → Total env Q (f a))
      → Total env Q (m >>= f)
  unfolding ◌>>=◌
  Total-bind P Q m f h then' = record {
    at = λ w. Returns-continue env P Q (m env w) f (h.at w) (λ a w' pa. (then' a pa).at w');
  }

  pub Total-if :
      {A : Type 0} (P : A → Type 0) (b : Bool) (m n : App A)
      → (b ≡ true → Total env P m)
      → (b ≡ false → Total env P n)
      → Total env P (if b then m else n)
  Total-if P true m n hm hn = hm refl
  Total-if P false m n hm hn = hn refl

Returns-weaken :
    {A : Type 0} (P Q : A → Type 0) (r : Result Error A × World)
    → ((a : A) → P a → Q a)
    → Returns P r
    → Returns Q r
Returns-weaken P Q (ok a, w) f h = f a h
Returns-weaken P Q (err e, w) f h = h

pub Total-weaken :
    {env : Env} {A : Type 0} (P Q : A → Type 0) (m : App A)
    → ((a : A) → P a → Q a)
    → Total env P m
    → Total env Q m
Total-weaken {env} P Q m f h = record { at = λ w. Returns-weaken P Q (m env w) f (h.at w) }
