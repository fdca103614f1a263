-- ===== src/Web/Broadcast.antt =====
-- The range and the number of hosts in the summary of a CIDR.
use native.Mathlib.Nat.{pow-le-pow_right, pow-zero, pow-suc, min-le_left, div-mul-le_self}
use wgrift.Base.{
  ◌/◌, zero, ◌<◌, ℕ, suc, ◌+◌, ◌-◌, ◌*◌, ◌^◌, ◌≤◌, min, [], ◌∷◌, ◌≡◌, ap, ◌∙◌, arith, inl, inr,
}
use wgrift.Net.{host_bits, mask_octets}
use wgrift.Web.Subnet.{number, le_or_ge, pow-add, pow-positive}
use wgrift.Web.Texts.{or_bits, fill_octet, broadcast_octets, usable_hosts}

-- The number whose four octets have the given numbers of low ones.
abbrev ones : ℕ → ℕ → ℕ → ℕ → ℕ
ones a b c d = (2 ^ a - 1) * 2 ^ 24 + (2 ^ b - 1) * 2 ^ 16 + (2 ^ c - 1) * 2 ^ 8 + (2 ^ d - 1)

abbrev host_ones : ℕ → ℕ
host_ones host = ones (host_bits host 3) (host_bits host 2) (host_bits host 1) (host_bits host 0)

by_bits :
    (host a b c d : ℕ)
    → min 8 (host - 24) ≡ a
    → min 8 (host - 16) ≡ b
    → min 8 (host - 8) ≡ c
    → min 8 (host - 0) ≡ d
    → suc (ones a b c d) ≡ 2 ^ host
    → suc (host_ones host) ≡ 2 ^ host
unfolding host_bits
by_bits host a b c d ha hb hc hd all = rw (ha, hb, hc, hd) all

-- In a byte with `low` octets of ones behind it.
split_pow : (host low : ℕ) → low ≤ host → 2 ^ host ≡ 2 ^ (host - low) * 2 ^ low
split_pow host low h =
    let whole : host ≡ host - low + low = omega arith in
    ap (λ n. 2 ^ n) whole ∙ pow-add (host - low) low

-- The host bits of the four octets together are the `host` low bits of the number.
host_ones_lem : (host : ℕ) → host ≤ 32 → suc (host_ones host) ≡ 2 ^ host
host_ones_lem host h = elim (le_or_ge host 8) [
  | inl le ↦
      by_bits host 0 0 0 host (omega arith) (omega arith) (omega arith) (omega arith)
        (omega (arith, pow-positive host))
  | inr ge ↦ elim (le_or_ge host 16) [
    | inl le ↦
        by_bits host 0 0 (host - 8) 8 (omega arith) (omega arith) (omega arith) (omega arith)
          (omega (arith, pow-positive (host - 8), split_pow host 8 ge))
    | inr ge' ↦ elim (le_or_ge host 24) [
      | inl le ↦
          by_bits host 0 (host - 16) 8 8 (omega arith) (omega arith) (omega arith) (omega arith)
            (omega (arith, pow-positive (host - 16), split_pow host 16 ge'))
      | inr ge'' ↦
          by_bits host (host - 24) 8 8 8 (omega arith) (omega arith) (omega arith) (omega arith)
            (omega (arith, pow-positive (host - 24), split_pow host 24 ge''))
    ]
  ]
]

or_bits-zero : (n a : ℕ) → a < 2 ^ n → or_bits n a 0 ≡ a
unfolding or_bits
or_bits-zero zero a h = omega (arith, pow-zero 2)
or_bits-zero (suc n) a h =
    let half : a / 2 < 2 ^ n = omega (arith, pow-suc 2 n) in
    ground (arith, or_bits-zero n (a / 2) half)

or_bits-odd : (n x b : ℕ) → or_bits (suc n) (x * 2) (b * 2 + 1) ≡ or_bits n x b * 2 + 1
unfolding or_bits
or_bits-odd n x b =
    let half_x : x * 2 / 2 ≡ x = omega arith in
    let half_b : (b * 2 + 1) / 2 ≡ b = omega arith in rw (or_bits, half_x, half_b) (ground arith)

-- A multiple of 2^r and the r low bits have no bit in common: `|` adds them.
or_bits-low :
    (n r q : ℕ)
    → r ≤ n
    → q * 2 ^ r < 2 ^ n
    → or_bits n (q * 2 ^ r) (2 ^ r - 1) ≡ q * 2 ^ r + (2 ^ r - 1)
or_bits-low n zero q h lt = or_bits-zero n (q * 1) lt ∙ omega arith
or_bits-low zero (suc r) q h lt = ground arith
or_bits-low (suc n) (suc r) q h lt =
    let power : 2 ^ suc r ≡ 2 ^ r * 2 = pow-suc 2 r in
    let multiple : q * 2 ^ suc r ≡ q * 2 ^ r * 2 = grind (arith, power) in
    let ones : 2 ^ suc r - 1 ≡ (2 ^ r - 1) * 2 + 1 = omega (arith, power, pow-positive r) in
    let below : q * 2 ^ r < 2 ^ n = omega (arith, lt, multiple, pow-suc 2 n) in
    rw (multiple, ones)
      (or_bits-odd n (q * 2 ^ r) (2 ^ r - 1) ∙ omega (arith, or_bits-low n r q (omega arith) below))

fill_octet-masked :
    (host below octet : ℕ)
    → octet < 256
    → fill_octet host below (octet / 2 ^ host_bits host below * 2 ^ host_bits host below)
      ≡ octet / 2 ^ host_bits host below * 2 ^ host_bits host below + (2 ^ host_bits host below - 1)
unfolding host_bits
fill_octet-masked host below octet h =
    let r = host_bits host below in
    or_bits-low 8 r (octet / 2 ^ r) (min-le_left 8 (host - 8 * below))
      (omega (arith, div-mul-le_self octet (2 ^ r)))

-- In a network of two host bits or more around an address of four octets, the last address is the
-- network's own plus the number of hosts shown plus one: the hosts are the addresses between the
-- two.
pub broadcast_octets-mask_octets :
    (host a b c d : ℕ)
    → host ≤ 32
    → 2 ≤ host
    → a < 256
    → b < 256
    → c < 256
    → d < 256
    → number (broadcast_octets host (mask_octets host (a ∷ b ∷ c ∷ d ∷ [])))
      ≡ number (mask_octets host (a ∷ b ∷ c ∷ d ∷ [])) + suc (usable_hosts host)
unfolding broadcast_octets mask_octets
broadcast_octets-mask_octets host a b c d h h' ha hb hc hd =
    let large : 2 ^ 2 ≤ 2 ^ host = pow-le-pow_right {n = 2} (omega arith) {i = 2} {j = host} h' in
    let hosts : suc (suc (usable_hosts host)) ≡ 2 ^ host = ground (arith, large) in
    omega (
      arith,
      host_ones_lem host h,
      hosts,
      fill_octet-masked host 3 a ha,
      fill_octet-masked host 2 b hb,
      fill_octet-masked host 1 c hc,
      fill_octet-masked host 0 d hd,
    )
