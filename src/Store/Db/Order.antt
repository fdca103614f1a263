-- ===== src/Store/Db/Order.antt =====
-- `ORDER BY` a time or a number, as the queries of internal/store have it.
use wgrift.Base.{
  ℕ, ◌≤◌, ◌≡◌, refl, ◌∙◌, Bool, List, [], ◌∷◌, arith, length, select, leb, All, inl, inr,
  Bool-cases,
}
use wgrift.Store.Db.{insert_by, order_by}

-- The number of rows that pass a test.
unfoldable pub count : {A : Type 0} → (A → Bool) → List A → ℕ
count q xs = length (select q xs)

module _ {A : Type 0} (key : A → ℕ) where
  -- Every row comes before the ones with a larger key.
  abbrev pub IsSorted : List A → Type 0
  IsSorted [] = Unit
  IsSorted (x ∷ xs) = All (λ y. key x ≤ key y) xs × IsSorted xs

  abbrev pub by_key : A → A → Bool
  by_key a b = leb (key a) (key b)

  All-insert_by :
      (P : A → Type 0) (x : A) (xs : List A) → P x → All P xs → All P (insert_by by_key x xs)
  unfolding insert_by
  All-insert_by P x [] px h = (px, tt)
  All-insert_by P x (y ∷ ys) px h = elim (Bool-cases (leb (key x) (key y))) [
    | inl yes' ↦ rw yes' (px, h)
    | inr no' ↦ rw no' (h.0, All-insert_by P x ys px h.1)
  ]

  All-larger :
      (x y : A) (ys : List A)
      → key x ≤ key y
      → All (λ z. key y ≤ key z) ys
      → All (λ z. key x ≤ key z) ys
  All-larger x y [] le h = tt
  All-larger x y (z ∷ ys) le h = (omega (arith, h.0), All-larger x y ys le h.1)

  insert_by-IsSorted : (x : A) (xs : List A) → IsSorted xs → IsSorted (insert_by by_key x xs)
  unfolding insert_by
  insert_by-IsSorted x [] h = (tt, tt)
  insert_by-IsSorted x (y ∷ ys) h = elim (Bool-cases (leb (key x) (key y))) [
    | inl yes' ↦
        let le : key x ≤ key y = ground arith in rw yes' ((le, All-larger x y ys le h.0), h)
    | inr no' ↦
        let le : key y ≤ key x = ground arith in
        rw no' (All-insert_by (λ z. key y ≤ key z) x ys le h.0, insert_by-IsSorted x ys h.1)
  ]

  pub order_by-IsSorted : (xs : List A) → IsSorted (order_by by_key xs)
  unfolding order_by
  order_by-IsSorted [] = tt
  order_by-IsSorted (x ∷ xs) = insert_by-IsSorted x (order_by by_key xs) (order_by-IsSorted xs)

module _ {A : Type 0} (before : A → A → Bool) (q : A → Bool) where
  count-insert_by : (x : A) (xs : List A) → count q (insert_by before x xs) ≡ count q (x ∷ xs)
  unfolding insert_by count select
  count-insert_by x [] = refl
  count-insert_by x (y ∷ ys) = ground (arith, count-insert_by x ys)

  count-cons :
      (x : A) (xs ys : List A) → count q xs ≡ count q ys → count q (x ∷ xs) ≡ count q (x ∷ ys)
  unfolding count select
  count-cons x xs ys h = ground (arith, h)

  pub count-order_by : (xs : List A) → count q (order_by before xs) ≡ count q xs
  unfolding order_by
  count-order_by [] = refl
  count-order_by (x ∷ xs) =
      count-insert_by x (order_by before xs)
      ∙ count-cons x (order_by before xs) xs (count-order_by xs)
