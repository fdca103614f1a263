-- ===== src/Base/Int.antt =====
-- Go's `int` and `int64` values on a 64-bit platform, with decimal printing (`%d`) and reading
-- (`strconv.Atoi`).
use Prim.Native.Nat.{ℕ, zero, suc, ◌+◌, ◌-◌, ◌*◌, ◌/◌, ◌%◌, ◌^◌, ◌≤◌, ◌<◌}
use mathlib.Core.Path.{◌≡◌, refl, ◌∙◌}
use mathlib.Core.Bool.{Bool, true, false, ◌&&◌}
use mathlib.Core.Logic.{◌≢◌, inl, inr}
use mathlib.Core.Option.{Option, none, some}
use mathlib.Core.List.{[], ◌∷◌, ◌++◌, append-nil, append_assoc, concat-ne-nil}
use native.Mathlib.Omega.{arith}
use wgrift.Base.Tests.{◌==◌, leb, ltb, if◌then◌else◌, Bool-cases}
use native.Mathlib.Nat.{pow-suc}
use wgrift.Base.Lists.{every, every-append, length, length-append}
use wgrift.Base.Strings.{Text}

-- `negsuc n` is -(n + 1).
pub data ℤ : Type 0 where
  pos : ℕ → ℤ
  negsuc : ℕ → ℤ

abbrev pub is_positive : ℤ → Bool
is_positive (pos n) = ltb 0 n
is_positive (negsuc n) = false

abbrev pub is_zero : ℤ → Bool
is_zero (pos n) = n == 0
is_zero (negsuc n) = false

abbrev pub max_int : ℕ
max_int = 2 ^ 63 - 1

-- The values that an `int` can hold.
abbrev pub InRange : ℤ → Type 0
InRange (pos n) = n ≤ max_int
InRange (negsuc n) = n ≤ max_int

unfoldable pub is_digit : ℕ → Bool
is_digit c = leb b'0' c && leb c b'9'

digits : ℕ → ℕ → Text
digits zero n = []
digits (suc fuel) n =
    let rest = digits fuel (n / 10) ++ ((n % 10 + 48) ∷ []) in
    if ltb n 10 then (n + 48) ∷ [] else rest

-- A number has fewer digits than its successor says, so the fuel is enough.
unfoldable pub print_nat : ℕ → Text
unfolding digits
print_nat n = digits (suc n) n

unfoldable pub print_int : ℤ → Text
unfolding print_nat
print_int (pos n) = print_nat n
print_int (negsuc n) = b'-' ∷ print_nat (suc n)

unfoldable pub scan_digits : ℕ → Text → Option ℕ
unfolding is_digit
scan_digits acc [] = some acc
scan_digits acc (c ∷ s) =
    let rest = scan_digits (acc * 10 + (c - 48)) s in if is_digit c then rest else none

-- The sign is taken off by the caller; `most` is the largest magnitude that fits.
atoi_magnitude : ℕ → Text → Option ℕ
unfolding scan_digits
atoi_magnitude most [] = none
atoi_magnitude most (c ∷ s) = elim (scan_digits 0 (c ∷ s)) [
  | none ↦ none
  | some n ↦ if leb n most then some n else none
]

abbrev as_positive : Option ℕ → Option ℤ
as_positive none = none
as_positive (some n) = some (pos n)

abbrev pub negate : ℕ → ℤ
negate zero = pos 0
negate (suc n) = negsuc n

abbrev as_negative : Option ℕ → Option ℤ
as_negative none = none
as_negative (some n) = some (negate n)

-- `strconv.Atoi`; `none` is its syntax or range error.
unfoldable pub atoi : Text → Option ℤ
unfolding atoi_magnitude
atoi [] = none
atoi (c ∷ s) =
    if c == b'-'
    then as_negative (atoi_magnitude (suc max_int) s)
    else if c == b'+'
    then as_positive (atoi_magnitude max_int s)
    else as_positive (atoi_magnitude max_int (c ∷ s))

scan_digits-digits :
    (fuel n : ℕ) (rest : Text)
    → n < fuel
    → scan_digits 0 (digits fuel n ++ rest) ≡ scan_digits n rest
unfolding digits scan_digits
scan_digits-digits zero n rest h = elim h [ ]
scan_digits-digits (suc fuel) n rest h = elim (Bool-cases (ltb n 10)) [
  | inl small ↦ rw small (ground arith)
  | inr large ↦ rw large (
      rw append_assoc
        (scan_digits-digits fuel (n / 10) ((n % 10 + 48) ∷ rest) (ground arith) ∙ ground arith))
]

every-digits : (fuel n : ℕ) → every is_digit (digits fuel n) ≡ true
unfolding digits every is_digit
every-digits zero n = refl
every-digits (suc fuel) n = ground (
  arith,
  every-digits fuel (n / 10),
  every-append is_digit (digits fuel (n / 10)) ((n % 10 + 48) ∷ []),
)

-- Every character that `%d` prints for a number that is not negative is a digit.
pub every-print_nat : (n : ℕ) → every is_digit (print_nat n) ≡ true
unfolding print_nat
every-print_nat n = every-digits (suc n) n

digits-ne-nil : (fuel n : ℕ) → n < fuel → digits fuel n ≢ []
unfolding digits
digits-ne-nil zero n h = elim h [ ]
digits-ne-nil (suc fuel) n h = ground (arith, concat-ne-nil (n % 10 + 48) (digits fuel (n / 10)))

pub print_nat-ne-nil : (n : ℕ) → print_nat n ≢ []
unfolding print_nat
print_nat-ne-nil n = digits-ne-nil (suc n) n (omega arith)

pub scan_digits-print_nat : (n : ℕ) → scan_digits 0 (print_nat n) ≡ some n
unfolding print_nat
scan_digits-print_nat n =
    rw (← append-nil (digits (suc n) n))
      (scan_digits-digits (suc n) n [] (omega arith) ∙ unfold scan_digits in refl)

atoi_magnitude-digits :
    (most n : ℕ) (s : Text)
    → s ≢ []
    → scan_digits 0 s ≡ some n
    → n ≤ most
    → atoi_magnitude most s ≡ some n
unfolding atoi_magnitude
atoi_magnitude-digits most n [] h e le = absurd (h refl)
atoi_magnitude-digits most n (c ∷ s) h e le = ground arith

atoi-digits :
    (n : ℕ) (s : Text)
    → s ≢ []
    → every is_digit s ≡ true
    → scan_digits 0 s ≡ some n
    → n ≤ max_int
    → atoi s ≡ some (pos n)
unfolding atoi every is_digit
atoi-digits n [] h d e le = absurd (h refl)
atoi-digits n (c ∷ s) h d e le = ground (arith, atoi_magnitude-digits max_int n (c ∷ s) h e le)

-- `strconv.Atoi` reads back what `%d` prints, for every value of an `int`.
pub atoi-print_int : (i : ℤ) → InRange i → atoi (print_int i) ≡ some i
unfolding print_int
atoi-print_int (pos n) h =
    atoi-digits n (print_nat n) (print_nat-ne-nil n) (every-print_nat n) (scan_digits-print_nat n) h
atoi-print_int (negsuc n) h =
    unfold atoi in
    ground (
      arith,
      atoi_magnitude-digits (suc max_int) (suc n) (print_nat (suc n)) (print_nat-ne-nil (suc n))
          (scan_digits-print_nat (suc n)) (omega arith),
    )

length-digits : (k fuel n : ℕ) → n < 10 ^ suc k → length (digits fuel n) ≤ suc k
unfolding digits
length-digits k zero n h = omega arith
length-digits zero (suc fuel) n h = ground arith
length-digits (suc k) (suc fuel) n h = ground (
  arith,
  pow-suc 10 (suc k),
  length-digits k fuel (n / 10) (omega (arith, pow-suc 10 (suc k))),
  length-append (digits fuel (n / 10)) ((n % 10 + 48) ∷ []),
)

length-print_nat : (n : ℕ) → n ≤ suc max_int → length (print_nat n) ≤ 20
unfolding print_nat
length-print_nat n h = length-digits 19 (suc n) n (omega arith)

-- A visible ASCII character.
abbrev pub is_plain : ℕ → Bool
is_plain c = leb 33 c && leb c 126

plain_of_digits : (s : Text) → every is_digit s ≡ true → every is_plain s ≡ true
unfolding every is_digit
plain_of_digits [] h = refl
plain_of_digits (c ∷ s) h = ground (arith, plain_of_digits s)

-- What `%d` prints is visible ASCII, of at most 21 characters.
pub every-print_int : (i : ℤ) → every is_plain (print_int i) ≡ true
unfolding print_int every
every-print_int (pos n) = plain_of_digits (print_nat n) (every-print_nat n)
every-print_int (negsuc n) = plain_of_digits (print_nat (suc n)) (every-print_nat (suc n))

pub length-print_int : (i : ℤ) → InRange i → length (print_int i) ≤ 21
unfolding print_int
length-print_int (pos n) h = omega (arith, length-print_nat n (omega arith))
length-print_int (negsuc n) h = omega (arith, length-print_nat (suc n) (omega arith))
