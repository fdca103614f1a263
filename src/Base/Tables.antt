-- ===== src/Base/Tables.antt =====
-- Laws of selections, and lists without two elements that a relation ties together.
use wgrift.Base.Tests.{if◌then◌else◌}
use wgrift.Base.Lists.{select, find_first, any}
use mathlib.Core.Path.{◌≡◌, refl}
use mathlib.Core.Bool.{Bool, true, false, ◌&&◌, ◌||◌}
use mathlib.Core.Option.{none, some}
use mathlib.Core.List.{List, [], ◌∷◌, ◌++◌}
use native.Mathlib.Omega.{arith}

module _ {ℓ} {A : Type ℓ} where
  pub select-select :
      (p q : A → Bool) (xs : List A) → select p (select q xs) ≡ select (λ x. q x && p x) xs
  unfolding select
  select-select p q [] = refl
  select-select p q (x ∷ xs) = ground (arith, select-select p q xs)

  pub select-ext :
      (p q : A → Bool) (xs : List A) → ((x : A) → p x ≡ q x) → select p xs ≡ select q xs
  unfolding select
  select-ext p q [] e = refl
  select-ext p q (x ∷ xs) e = ground (arith, select-ext p q xs e, e x)

  pub any-append : (p : A → Bool) (xs ys : List A) → any p (xs ++ ys) ≡ (any p xs || any p ys)
  unfolding any
  any-append p [] ys = refl
  any-append p (x ∷ xs) ys = ground (arith, any-append p xs ys)

  -- A row that a selection keeps is found among the rows it keeps.
  pub any-select :
      (p q : A → Bool) (xs : List A)
      → ((x : A) → p x ≡ true → q x ≡ true)
      → any p (select q xs) ≡ any p xs
  unfolding any select
  any-select p q [] h = refl
  any-select p q (x ∷ xs) h = ground (arith, any-select p q xs h, h x)

  pub any-select_none :
      (p q : A → Bool) (xs : List A) → any p xs ≡ false → any p (select q xs) ≡ false
  unfolding any select
  any-select_none p q [] h = refl
  any-select_none p q (x ∷ xs) h = ground (arith, any-select_none p q xs)

  pub find_first-append :
      (p : A → Bool) (xs : List A) (x : A)
      → any p xs ≡ false
      → find_first p (xs ++ x ∷ []) ≡ (if p x then some x else none)
  unfolding find_first any
  find_first-append p [] x h = refl
  find_first-append p (y ∷ xs) x h = ground (arith, find_first-append p xs x)

  pub find_first-append_other :
      (p : A → Bool) (xs : List A) (x : A)
      → p x ≡ false
      → find_first p (xs ++ x ∷ []) ≡ find_first p xs
  unfolding find_first
  find_first-append_other p [] x h = ground arith
  find_first-append_other p (y ∷ xs) x h = ground (arith, find_first-append_other p xs x h)

  pub find_first-select :
      (p q : A → Bool) (xs : List A)
      → ((x : A) → p x ≡ true → q x ≡ true)
      → find_first p (select q xs) ≡ find_first p xs
  unfolding find_first select
  find_first-select p q [] h = refl
  find_first-select p q (x ∷ xs) h = ground (arith, find_first-select p q xs h, h x)

  pub find_first-select-none :
      (p q : A → Bool) (xs : List A)
      → ((x : A) → p x ≡ true → q x ≡ false)
      → find_first p (select q xs) ≡ none
  unfolding find_first select
  find_first-select-none p q [] h = refl
  find_first-select-none p q (x ∷ xs) h = ground (arith, find_first-select-none p q xs h, h x)

  -- What is found passes the test.
  pub find_first-holds :
      (p : A → Bool) (xs : List A) (a : A) → find_first p xs ≡ some a → p a ≡ true
  unfolding find_first
  find_first-holds p [] a h = ground arith
  find_first-holds p (x ∷ xs) a h = ground (arith, find_first-holds p xs a)
