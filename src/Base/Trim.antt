-- ===== src/Base/Trim.antt =====
-- Laws of `trim_space`, `split_at` and `byte_length` on texts that are put together.
use Prim.Native.Nat.{ℕ, ◌+◌, ◌≤◌}
use mathlib.Core.Path.{◌≡◌, refl, ap, ◌∙◌}
use mathlib.Core.Logic.{◌≢◌, inl, inr}
use mathlib.Core.Bool.{Bool, true, not}
use mathlib.Core.List.{List, [], ◌∷◌, ◌++◌}
use native.Mathlib.Omega.{arith}
use wgrift.Base.Tests.{◌==◌, Bool-cases}
use wgrift.Base.Lists.{every, All}
use wgrift.Base.Strings.{
  Text, rune_length, add_char, trim_left, trim_right, trim_space, split_at, byte_length, drop_cr,
}

-- Where the end of a text is kept, all in front of it is kept too.
pub trim_right-append :
    (s t : Text) {c : ℕ} {r : Text} → trim_right t ≡ c ∷ r → trim_right (s ++ t) ≡ s ++ (c ∷ r)
unfolding trim_right
trim_right-append [] t h = h
trim_right-append (x ∷ []) t h = ground (arith, trim_right-append [] t h)
trim_right-append (x ∷ y ∷ s) t h = ground (arith, trim_right-append (y ∷ s) t h)

trim_right-drop_cr : (s : Text) → trim_right (drop_cr s) ≡ trim_right s
unfolding trim_right drop_cr
trim_right-drop_cr [] = refl
trim_right-drop_cr (c ∷ []) = ground arith
trim_right-drop_cr (c ∷ d ∷ s) = ground (arith, trim_right-drop_cr (d ∷ s))

-- The carriage return that the line scanner drops is a space: trimming takes it away as well.
pub trim_space-drop_cr : (s : Text) → trim_space (drop_cr s) ≡ trim_space s
unfolding trim_space drop_cr
trim_space-drop_cr [] = refl
trim_space-drop_cr (c ∷ []) = ground arith
trim_space-drop_cr (c ∷ d ∷ s) =
    ground (arith, trim_space-drop_cr (d ∷ s), trim_right-drop_cr (c ∷ d ∷ s))

pub byte_length-append : (s t : Text) → byte_length (s ++ t) ≡ byte_length s + byte_length t
unfolding byte_length
byte_length-append [] t = omega arith
byte_length-append (c ∷ s) t = omega (arith, byte_length-append s t)

abbrev pub differs_from : ℕ → ℕ → Bool
differs_from sep c = not (c == sep)

pub split_at-ne-nil : (sep : ℕ) (s : Text) → split_at sep s ≢ []
unfolding split_at
split_at-ne-nil sep [] = λ e. cc
split_at-ne-nil sep (c ∷ s) = ground (arith, split_at-ne-nil sep s)

-- A piece with no separator in it is the first that `split_at` finds.
pub split_at-append :
    (sep : ℕ) (l rest : Text)
    → every (differs_from sep) l ≡ true
    → split_at sep (l ++ (sep ∷ rest)) ≡ l ∷ split_at sep rest
unfolding split_at every
split_at-append sep [] rest h = ground (arith, split_at-ne-nil sep rest)
split_at-append sep (c ∷ l) rest h = ground (arith, split_at-append sep l rest)

trim_left-trim_right : (s : Text) → trim_left (trim_right s) ≡ trim_right (trim_left s)
unfolding trim_left trim_right
trim_left-trim_right [] = refl
trim_left-trim_right (c ∷ s) = ground (arith, trim_left-trim_right s)

trim_left_idem : (s : Text) → trim_left (trim_left s) ≡ trim_left s
unfolding trim_left
trim_left_idem [] = refl
trim_left_idem (c ∷ s) = ground (arith, trim_left_idem s)

trim_right_idem : (s : Text) → trim_right (trim_right s) ≡ trim_right s
unfolding trim_right
trim_right_idem [] = refl
trim_right_idem (c ∷ s) = ground (arith, trim_right_idem s)

-- Nothing is left to trim on either side of a trimmed text.
pub trim_left-trim_space : (s : Text) → trim_left (trim_space s) ≡ trim_space s
unfolding trim_space
trim_left-trim_space s = trim_left-trim_right (trim_left s) ∙ ap trim_right (trim_left_idem s)

pub trim_right-trim_space : (s : Text) → trim_right (trim_space s) ≡ trim_space s
unfolding trim_space
trim_right-trim_space s = trim_right_idem (trim_left s)

module _ (p : ℕ → Bool) where
  every-trim_left : (s : Text) → every p s ≡ true → every p (trim_left s) ≡ true
  unfolding every trim_left
  every-trim_left [] h = refl
  every-trim_left (c ∷ s) h = ground (arith, every-trim_left s)

  every-trim_right : (s : Text) → every p s ≡ true → every p (trim_right s) ≡ true
  unfolding every trim_right
  every-trim_right [] h = refl
  every-trim_right (c ∷ s) h = ground (arith, every-trim_right s)

  pub every-trim_space : (s : Text) → every p s ≡ true → every p (trim_space s) ≡ true
  unfolding trim_space
  every-trim_space s h = every-trim_right (trim_left s) (every-trim_left s h)

byte_length-trim_left : (s : Text) → byte_length (trim_left s) ≤ byte_length s
unfolding byte_length trim_left
byte_length-trim_left [] = omega arith
byte_length-trim_left (c ∷ s) = ground (arith, byte_length-trim_left s)

byte_length-trim_right : (s : Text) → byte_length (trim_right s) ≤ byte_length s
unfolding byte_length trim_right
byte_length-trim_right [] = omega arith
byte_length-trim_right (c ∷ s) = ground (arith, byte_length-trim_right s)

pub byte_length-trim_space : (s : Text) → byte_length (trim_space s) ≤ byte_length s
unfolding trim_space
byte_length-trim_space s =
    omega (arith, byte_length-trim_right (trim_left s), byte_length-trim_left s)

-- A piece of `s`: it holds no separator, and is no longer than `s`.
pub record IsPiece (sep bound : ℕ) (l : Text) : Type 0 where
  pub no_separator : every (differs_from sep) l ≡ true
  pub no_longer : byte_length l ≤ bound

All-IsPiece_le :
    (sep : ℕ) {m n : ℕ} (ls : List Text) → m ≤ n → All (IsPiece sep m) ls → All (IsPiece sep n) ls
All-IsPiece_le sep [] le h = tt
All-IsPiece_le sep (l ∷ ls) le h = (
  record { no_separator = h.0.no_separator; no_longer = omega (arith, h.0.no_longer) },
  All-IsPiece_le sep ls le h.1,
)

add_char-All :
    (sep n c : ℕ) (ls : List Text)
    → ls ≢ []
    → All (IsPiece sep n) ls
    → All (IsPiece sep (rune_length c + n)) (add_char sep c ls)
unfolding add_char byte_length every
add_char-All sep n c [] ne h = absurd (ne refl)
add_char-All sep n c (l ∷ ls) ne (h, hs) = elim (Bool-cases (c == sep)) [
  | inl cut ↦ rw cut (
    record { no_separator = refl; no_longer = omega arith },
    All-IsPiece_le sep (l ∷ ls) (omega arith) (h, hs),
  )
  | inr kept ↦ rw kept (
    record {
      no_separator = ground (arith, h.no_separator);
      no_longer = omega (arith, h.no_longer);
    },
    All-IsPiece_le sep ls (omega arith) hs,
  )
]

pub split_at-All : (sep : ℕ) (s : Text) → All (IsPiece sep (byte_length s)) (split_at sep s)
unfolding split_at every byte_length
split_at-All sep [] = (record { no_separator = refl; no_longer = omega arith }, tt)
split_at-All sep (c ∷ s) =
    add_char-All sep (byte_length s) c (split_at sep s) (split_at-ne-nil sep s) (split_at-All sep s)
