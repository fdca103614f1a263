-- ===== src/Web/Defaults/Untaken.antt =====
-- The search for the first number that no element of a list takes.
use wgrift.Base.{
  ℕ, zero, suc, ◌≤◌, ◌<◌, Bool, true, false, not, Option, none, some, List, [], ◌∷◌, length, any,
  select, ◌≡◌, refl, sym, arith, Bool-cases, inl, inr, ◌∙◌,
}

module _ {A : Type 0} (takes : A → ℕ → Bool) where
  abbrev pub is_taken : List A → ℕ → Bool
  is_taken xs i = any (λ x. takes x i) xs

  unfoldable pub first_untaken : List A → ℕ → ℕ → Option ℕ
  unfolding any
  first_untaken xs zero i = none
  first_untaken xs (suc rounds) i = elim (is_taken xs i) [
    | true ↦ first_untaken xs rounds (suc i)
    | false ↦ some i
  ]

  -- The elements that do not take `i`.
  without : ℕ → List A → List A
  unfolding select
  without i xs = select (λ x. not (takes x i)) xs

  -- No element takes two numbers.
  abbrev pub TakesOne : Type 0
  TakesOne = (x : A) (i j : ℕ) → takes x i ≡ true → takes x j ≡ true → i ≡ j

  length-without : (i : ℕ) (xs : List A) → length (without i xs) ≤ length xs
  unfolding without select
  length-without i [] = ground arith
  length-without i (x ∷ xs) = ground (arith, length-without i xs)

  length-without-taken :
      (i : ℕ) (xs : List A) → is_taken xs i ≡ true → length (without i xs) < length xs
  unfolding without select any
  length-without-taken i [] h = ground arith
  length-without-taken i (x ∷ xs) h = ground (arith, length-without i xs, length-without-taken i xs)

  module _ (one : TakesOne) where
    is_taken-without : (i j : ℕ) (xs : List A) → i < j → is_taken (without i xs) j ≡ is_taken xs j
    unfolding without select any
    is_taken-without i j [] lt = refl
    is_taken-without i j (x ∷ xs) lt = ground (arith, is_taken-without i j xs lt, one x i j)

    first_untaken-without :
        (i : ℕ) (xs : List A) (rounds j : ℕ)
        → i < j
        → first_untaken (without i xs) rounds j ≡ first_untaken xs rounds j
    unfolding first_untaken
    first_untaken-without i xs zero j lt = refl
    first_untaken-without i xs (suc rounds) j lt =
        ground (
          arith,
          is_taken-without i j xs lt,
          first_untaken-without i xs rounds (suc j) (omega arith),
        )

    -- With more rounds than elements the search finds a number, by taking away at each round the
    -- elements that are in its way.
    pub first_untaken-some :
        (xs : List A) (rounds i : ℕ)
        → length xs < rounds
        → (k : ℕ) × (first_untaken xs rounds i ≡ some k) × (is_taken xs k ≡ false) × (i ≤ k)
    unfolding first_untaken
    first_untaken-some xs zero i h = ground arith
    first_untaken-some xs (suc rounds) i h = elim (Bool-cases (is_taken xs i)) [
      | inl taken ↦
          let (k, eq, free, le) =
            first_untaken-some (without i xs) rounds (suc i)
              (omega (arith, length-without-taken i xs taken)) in
          (
            k,
            rw (first_untaken, taken)
                (sym (first_untaken-without i xs rounds (suc i) (omega arith)) ∙ eq),
            sym (is_taken-without i k xs le) ∙ free,
            omega arith,
          )
      | inr free ↦ (i, rw (first_untaken, free) refl, free, omega arith)
    ]
