-- ===== src/Store/Apart.antt =====
-- Unique indexes that only apply to some rows, and row numbers that the table counts up.
use wgrift.Base.{
  ℕ, ◌+◌, ◌≡◌, refl, ◌∙◌, Bool, true, false, not, ◌&&◌, List, [], ◌∷◌, ◌++◌, arith, Text, text_eq,
  text_eq_iff, select, any, every, every-append, ltb, leb, inl, inr, Bool-cases,
}
use wgrift.Base.Tables.{any-append, any-select_none}
use wgrift.Store.Db.{update_where}
use wgrift.Store.Keys.{has_key, IsDistinct, update_where-none, every-select}

module _ {A : Type 0} where
  -- No two rows are tied together by the relation.
  abbrev pub IsApart : (A → A → Bool) → List A → Type 0
  IsApart r [] = Unit
  IsApart r (x ∷ xs) = (any (r x) xs ≡ false) × IsApart r xs

  pub IsApart-append :
      (r : A → A → Bool) (xs : List A) (x : A)
      → ((y : A) → r y x ≡ r x y)
      → any (r x) xs ≡ false
      → IsApart r xs
      → IsApart r (xs ++ x ∷ [])
  unfolding any
  IsApart-append r [] x sym' h d = (refl, tt)
  IsApart-append r (y ∷ xs) x sym' h d = (
    any-append (r y) xs (x ∷ []) ∙ ground (arith, d.0, sym' y),
    IsApart-append r xs x sym' (ground arith) d.1,
  )

  pub IsApart-select :
      (r : A → A → Bool) (q : A → Bool) (xs : List A) → IsApart r xs → IsApart r (select q xs)
  unfolding select
  IsApart-select r q [] d = tt
  IsApart-select r q (x ∷ xs) d = elim (Bool-cases (q x)) [
    | inl keeps ↦ rw keeps (any-select_none (r x) q xs d.0, IsApart-select r q xs d.1)
    | inr drops ↦ rw drops (IsApart-select r q xs d.1)
  ]

-- The row with an identifier is replaced by one that the relation sees as `new`.
module _ {A : Type 0} (r : A → A → Bool) (id : A → Text) (new : A) (i : Text) (f : A → A)
    (from_new : (x y : A) → r (f x) y ≡ r new y) (to_new : (x y : A) → r y (f x) ≡ r new y) where
  abbrev pub clashes : A → Bool
  clashes x = not (text_eq (id x) i) && r new x

  apart_of_new :
      (xs : List A) (y : A)
      → r new y ≡ false
      → any (r y) xs ≡ false
      → any (r y) (update_where (has_key id i) f xs) ≡ false
  unfolding any update_where
  apart_of_new [] y h e = refl
  apart_of_new (x ∷ xs) y h e = elim (Bool-cases (text_eq (id x) i)) [
    | inl here ↦ rw (here, to_new x y) (ground (arith, apart_of_new xs y h))
    | inr there ↦ rw there (ground (arith, apart_of_new xs y h))
  ]

  no_clash :
      (xs : List A)
      → any (has_key id i) xs ≡ false
      → any clashes xs ≡ false
      → any (r new) xs ≡ false
  unfolding any
  no_clash [] h e = refl
  no_clash (x ∷ xs) h e = ground (arith, no_clash xs)

  sees_new : (x : A) (ys : List A) → any (r new) ys ≡ false → any (r (f x)) ys ≡ false
  unfolding any
  sees_new x [] h = refl
  sees_new x (y ∷ ys) h = rw (from_new x y) (ground (arith, sees_new x ys))

  pub IsApart-renew :
      (xs : List A)
      → IsDistinct id xs
      → IsApart r xs
      → any clashes xs ≡ false
      → IsApart r (update_where (has_key id i) f xs)
  unfolding update_where
  IsApart-renew [] ids apart free = tt
  IsApart-renew (x ∷ xs) ids apart free = elim (Bool-cases (text_eq (id x) i)) [
    | inl here ↦
        let alone : any (has_key id i) xs ≡ false = rw (← (text_eq_iff (id x) i).0 here) ids.0 in
        rw (here, update_where-none (has_key id i) f xs alone)
          (sees_new x xs (no_clash xs alone (unfold any in ground (arith, free))), apart.1)
    | inr there ↦ rw there (
      apart_of_new xs x (unfold any in ground (arith, free)) apart.0,
      IsApart-renew xs ids.1 apart.1 (unfold any in ground (arith, free)),
    )
  ]

module _ {A : Type 0} (number : A → ℕ) where
  -- The numbers of the rows ascend, up to the last that was given.
  abbrev pub IsNumbered : ℕ → List A → Type 0
  IsNumbered last [] = Unit
  IsNumbered last (x ∷ xs) =
      (every (λ y. ltb (number x) (number y)) xs ≡ true)
      × (leb (number x) last ≡ true)
      × IsNumbered last xs

  pub IsNumbered-append :
      (last : ℕ) (xs : List A) (x : A)
      → number x ≡ last + 1
      → IsNumbered last xs
      → IsNumbered (last + 1) (xs ++ x ∷ [])
  unfolding every
  IsNumbered-append last [] x e h = (refl, ground arith, tt)
  IsNumbered-append last (y ∷ xs) x e (above, low, rest) = (
    every-append (λ z. ltb (number y) (number z)) xs (x ∷ []) ∙ ground arith,
    ground arith,
    IsNumbered-append last xs x e rest,
  )

  pub IsNumbered-select :
      (last : ℕ) (q : A → Bool) (xs : List A) → IsNumbered last xs → IsNumbered last (select q xs)
  unfolding select
  IsNumbered-select last q [] h = tt
  IsNumbered-select last q (x ∷ xs) (above, low, rest) = elim (Bool-cases (q x)) [
    | inl keeps ↦
        rw keeps (every-select _ _ _ xs (λ y h k. h) above, low, IsNumbered-select last q xs rest)
    | inr drops ↦ rw drops (IsNumbered-select last q xs rest)
  ]
