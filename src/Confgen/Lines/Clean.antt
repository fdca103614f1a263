-- ===== src/Confgen/Lines/Clean.antt =====
-- The keys and the values that the writers of internal/confgen/confgen.go put on a line.
use wgrift.Base.{
  ℤ, print_int, InRange, is_plain, every-print_int, length-print_int, length, ℕ, ◌≤◌, ◌≡◌, refl,
  Bool, true, not, false, ◌&&◌, ◌||◌, [], ◌∷◌, arith, Text, text_eq, text_eq_iff, is_space,
  trim_left, trim_right, trim_space, byte_length, every, is_nil, leb,
}
use wgrift.Base.Trim.{
  byte_length-trim_space, trim_left-trim_space, trim_right-trim_space, every-trim_space, IsPiece,
  differs_from,
}

-- A value that survives being written on a line: one line, no space at either end, not too long.
pub record IsClean (v : Text) : Type 0 where
  pub one_line : every (differs_from b'\n') v ≡ true
  pub trimmed_left : trim_left v ≡ v
  pub trimmed_right : trim_right v ≡ v
  pub fits : byte_length v ≤ 65000

abbrev pub is_letter : ℕ → Bool
is_letter c = leb b'A' c && leb c b'Z' || leb b'a' c && leb c b'z'

-- The keys that the writers use: ASCII letters only, and short.
pub record IsKey (k : Text) : Type 0 where
  pub letters : every is_letter k ≡ true
  pub nonempty : is_nil k ≡ false
  pub short : byte_length k ≤ 100

-- A key by evaluation.
pub IsKey-of :
    (k : Text) → (every is_letter k && not (is_nil k) && leb (byte_length k) 100) ≡ true → IsKey k
IsKey-of k h = record { letters = ground arith; nonempty = ground arith; short = ground arith }

-- A value by evaluation.
pub IsClean-of :
    (v : Text)
    → (every (differs_from b'\n') v
        && text_eq (trim_left v) v
        && text_eq (trim_right v) v
        && leb (byte_length v) 65000)
      ≡ true
    → IsClean v
IsClean-of v h = record {
  one_line = ground arith;
  trimmed_left = (text_eq_iff (trim_left v) v).0 (ground arith);
  trimmed_right = (text_eq_iff (trim_right v) v).0 (ground arith);
  fits = ground arith;
}

trim_left-plain : (s : Text) → every is_plain s ≡ true → trim_left s ≡ s
unfolding trim_left every is_space
trim_left-plain [] h = refl
trim_left-plain (c ∷ s) h = ground arith

trim_right-plain : (s : Text) → every is_plain s ≡ true → trim_right s ≡ s
unfolding trim_right every is_space
trim_right-plain [] h = refl
trim_right-plain (c ∷ []) h = ground arith
trim_right-plain (c ∷ d ∷ s) h = ground (arith, trim_right-plain (d ∷ s))

byte_length-plain : (s : Text) → every is_plain s ≡ true → byte_length s ≡ length s
unfolding byte_length every
byte_length-plain [] h = refl
byte_length-plain (c ∷ s) h = ground (arith, byte_length-plain s)

one_line-plain : (s : Text) → every is_plain s ≡ true → every (differs_from b'\n') s ≡ true
unfolding every
one_line-plain [] h = refl
one_line-plain (c ∷ s) h = ground (arith, one_line-plain s)

pub IsClean-print_int : (i : ℤ) → InRange i → IsClean (print_int i)
IsClean-print_int i h = record {
  one_line = one_line-plain (print_int i) (every-print_int i);
  trimmed_left = trim_left-plain (print_int i) (every-print_int i);
  trimmed_right = trim_right-plain (print_int i) (every-print_int i);
  fits = omega (arith, byte_length-plain (print_int i) (every-print_int i), length-print_int i h);
}

-- A command of a hook, as the writer trims it.
pub IsClean-piece :
    (bound : ℕ) (l : Text) → bound ≤ 65000 → IsPiece b'\n' bound l → IsClean (trim_space l)
IsClean-piece bound l le piece = record {
  one_line = every-trim_space (differs_from b'\n') l piece.no_separator;
  trimmed_left = trim_left-trim_space l;
  trimmed_right = trim_right-trim_space l;
  fits = omega (arith, byte_length-trim_space l, piece.no_longer);
}
