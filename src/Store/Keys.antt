-- ===== src/Store/Keys.antt =====
-- Keys and references of the tables of internal/store/migrations, under what the statements do to a
-- table.
use wgrift.Base.{
  ◌≡◌, refl, ap, ◌∙◌, Bool, true, false, List, [], ◌∷◌, ◌++◌, arith, Text, text_eq, text_eq_iff,
  select, any, every, inl, inr, Bool-cases,
}
use wgrift.Base.Tables.{any-append, any-select_none}
use wgrift.Store.Db.{update_where}

module _ {ℓ} {A : Type ℓ} where
  pub every-select :
      (p q r : A → Bool) (xs : List A)
      → ((x : A) → p x ≡ true → q x ≡ true → r x ≡ true)
      → every p xs ≡ true
      → every r (select q xs) ≡ true
  unfolding every select
  every-select p q r [] h e = refl
  every-select p q r (x ∷ xs) h e = ground (arith, every-select p q r xs h, h x)

  pub every-weaken :
      (p q : A → Bool) (xs : List A)
      → ((x : A) → p x ≡ true → q x ≡ true)
      → every p xs ≡ true
      → every q xs ≡ true
  unfolding every
  every-weaken p q [] h e = refl
  every-weaken p q (x ∷ xs) h e = ground (arith, every-weaken p q xs h, h x)

  pub every-update_where :
      (p u : A → Bool) (f : A → A) (xs : List A)
      → ((x : A) → u x ≡ true → p (f x) ≡ true)
      → every p xs ≡ true
      → every p (update_where u f xs) ≡ true
  unfolding every update_where
  every-update_where p u f [] h e = refl
  every-update_where p u f (x ∷ xs) h e = elim (Bool-cases (u x)) [
    | inl yes' ↦ rw yes' (ground (arith, every-update_where p u f xs h, h x))
    | inr no' ↦ rw no' (ground (arith, every-update_where p u f xs h))
  ]

  pub any-update_where :
      (p u : A → Bool) (f : A → A) (xs : List A)
      → ((x : A) → u x ≡ true → p (f x) ≡ p x)
      → any p (update_where u f xs) ≡ any p xs
  unfolding any update_where
  any-update_where p u f [] h = refl
  any-update_where p u f (x ∷ xs) h = elim (Bool-cases (u x)) [
    | inl yes' ↦ rw yes' (ground (arith, any-update_where p u f xs h, h x))
    | inr no' ↦ rw no' (ground (arith, any-update_where p u f xs h))
  ]

  pub update_where-none :
      (u : A → Bool) (f : A → A) (xs : List A) → any u xs ≡ false → update_where u f xs ≡ xs
  unfolding any update_where
  update_where-none u f [] h = refl
  update_where-none u f (x ∷ xs) h = elim (Bool-cases (u x)) [
    | inl yes' ↦ ground arith
    | inr no' ↦ rw no' (ap (λ t. x ∷ t) (update_where-none u f xs (ground arith)))
  ]

  pub any-ext : (p q : A → Bool) (xs : List A) → ((x : A) → p x ≡ q x) → any p xs ≡ any q xs
  unfolding any
  any-ext p q [] e = refl
  any-ext p q (x ∷ xs) e = ground (arith, any-ext p q xs e, e x)

abbrev pub has_key : {A : Type 0} → (A → Text) → Text → A → Bool
has_key key k x = text_eq (key x) k

-- No two rows have the same key.
abbrev pub IsDistinct : {A : Type 0} → (A → Text) → List A → Type 0
IsDistinct key [] = Unit
IsDistinct key (x ∷ xs) = (any (has_key key (key x)) xs ≡ false) × IsDistinct key xs

module _ {A : Type 0} (key : A → Text) where
  pub IsDistinct-append :
      (xs : List A) (x : A)
      → any (has_key key (key x)) xs ≡ false
      → IsDistinct key xs
      → IsDistinct key (xs ++ x ∷ [])
  unfolding any
  IsDistinct-append [] x h d = (refl, tt)
  IsDistinct-append (y ∷ xs) x h d = (
    any-append (has_key key (key y)) xs (x ∷ [])
        ∙ ground (arith, d.0, text_eq_iff (key x) (key y), text_eq_iff (key y) (key x)),
    IsDistinct-append xs x (ground arith) d.1,
  )

  pub IsDistinct-select :
      (q : A → Bool) (xs : List A) → IsDistinct key xs → IsDistinct key (select q xs)
  unfolding select
  IsDistinct-select q [] d = tt
  IsDistinct-select q (x ∷ xs) d = elim (Bool-cases (q x)) [
    | inl yes' ↦
        rw yes' (any-select_none (has_key key (key x)) q xs d.0, IsDistinct-select q xs d.1)
    | inr no' ↦ rw no' (IsDistinct-select q xs d.1)
  ]

  -- An update that leaves the key as it is.
  pub IsDistinct-update_where :
      (u : A → Bool) (f : A → A) (xs : List A)
      → ((x : A) → u x ≡ true → key (f x) ≡ key x)
      → IsDistinct key xs
      → IsDistinct key (update_where u f xs)
  unfolding update_where
  IsDistinct-update_where u f [] h d = tt
  IsDistinct-update_where u f (x ∷ xs) h d =
      let same : (k : Text) → any (has_key key k) (update_where u f xs) ≡ any (has_key key k) xs =
        λ k. any-update_where (has_key key k) u f xs (λ y uy. ap (λ t. text_eq t k) (h y uy)) in
      elim (Bool-cases (u x)) [
        | inl yes' ↦ rw (yes', h x yes') (same (key x) ∙ d.0, IsDistinct-update_where u f xs h d.1)
        | inr no' ↦ rw no' (same (key x) ∙ d.0, IsDistinct-update_where u f xs h d.1)
      ]
