-- ===== src/Web/Subnet.antt =====
-- The candidates of the peer form count up from the network's address: no byte of the sum wraps.
use native.Mathlib.Nat.{
  pow-suc, div-lt_iff_lt-mul, one-le-pow, mul-le-mul_right, mul_comm, pow-zero, min-le_left,
  min-eq_left, min-eq_right, mod-lt, mod-le, pow-le-pow_right,
}
use wgrift.Base.{
  ℕ, zero, suc, ◌+◌, ◌-◌, ◌*◌, ◌/◌, ◌%◌, ◌^◌, ◌≤◌, ◌<◌, min, List, [], ◌∷◌, ◌≡◌, sym, ap, ◌∙◌,
  arith, ◌⊎◌, inl, inr,
}
use wgrift.Net.{host_bits, mask_octets}
use wgrift.Web.Addresses.{candidate}

pub pow-add : (m n : ℕ) → 2 ^ (m + n) ≡ 2 ^ m * 2 ^ n
pow-add m zero = grind (arith, pow-zero 2)
pow-add m (suc n) = grind (arith, pow-add m n, pow-suc 2 (m + n), pow-suc 2 n)

pub pow-positive : (n : ℕ) → 0 < 2 ^ n
pow-positive n = one-le-pow n 2 (omega arith)

-- A multiple of 2^r leaves room for r bits in an octet.
no_wrap : (p q o x : ℕ) → 0 < p → p * q ≡ 256 → o < 256 → x < p → o / p * p + x < 256
no_wrap p q o x pos all ho hx =
    let below : o / p < q = (div-lt_iff_lt-mul pos).1 (grind (arith, mul_comm p q)) in
    let room : suc (o / p) * p ≤ q * p = mul-le-mul_right p below in
    grind (arith, mul_comm p q, room)

high_digits : (host k i : ℕ) → i < 2 ^ host → i / 2 ^ k < 2 ^ (host - k)
high_digits host k i h =
    let monotone : 2 ^ host ≤ 2 ^ (host - k + k) =
      pow-le-pow_right {n = 2} (omega arith) {i = host} {j = host - k + k} (omega arith) in
    (div-lt_iff_lt-mul (pow-positive k)).1 (omega (arith, pow-add (host - k) k, monotone))

pub le_or_ge : (a b : ℕ) → (a ≤ b) ⊎ (b ≤ a)
le_or_ge a b = ground arith

low_digit : (k q : ℕ) → q < 2 ^ k → q % 256 < 2 ^ min 8 k
low_digit k q h = elim (le_or_ge 8 k) [
  | inl le ↦ rw (min-eq_left le) (mod-lt q (omega arith))
  | inr le ↦ rw (min-eq_right le) (omega (arith, mod-le q 256))
]

digit_fits :
    (host below i : ℕ) → i < 2 ^ host → i / 2 ^ (8 * below) % 256 < 2 ^ host_bits host below
unfolding host_bits
digit_fits host below i h = low_digit _ _ (high_digits host (8 * below) i h)

octet_fits :
    (host below o i : ℕ)
    → o < 256
    → i < 2 ^ host
    → o / 2 ^ host_bits host below * 2 ^ host_bits host below + i / 2 ^ (8 * below) % 256 < 256
unfolding host_bits
octet_fits host below o i ho hi =
    let r = host_bits host below in
    let whole : r + (8 - r) ≡ 8 = omega (arith, min-le_left 8 (host - 8 * below)) in
    let all : 2 ^ r * 2 ^ (8 - r) ≡ 256 = sym (pow-add r (8 - r)) ∙ ap (λ n. 2 ^ n) whole in
    no_wrap (2 ^ r) (2 ^ (8 - r)) o _ (pow-positive r) all ho (digit_fits host below i hi)

-- The number that four octets write.
abbrev pub number : List ℕ → ℕ
number (a ∷ b ∷ c ∷ d ∷ []) = a * 2 ^ 24 + b * 2 ^ 16 + c * 2 ^ 8 + d
number _ = 0

-- In a network with `host` host bits around an address of four octets, host `i` has the number of
-- the network plus `i`.
pub candidate-mask_octets :
    (host a b c d i : ℕ)
    → host ≤ 32
    → a < 256
    → b < 256
    → c < 256
    → d < 256
    → i < 2 ^ host
    → number (candidate (mask_octets host (a ∷ b ∷ c ∷ d ∷ [])) i)
      ≡ number (mask_octets host (a ∷ b ∷ c ∷ d ∷ [])) + i
unfolding candidate mask_octets
candidate-mask_octets host a b c d i h ha hb hc hd hi = omega (
  arith,
  octet_fits host 3 a i ha hi,
  octet_fits host 2 b i hb hi,
  octet_fits host 1 c i hc hi,
  octet_fits host 0 d i hd hi,
  pow-le-pow_right {n = 2} (omega arith) {i = host} {j = 32} h,
)
