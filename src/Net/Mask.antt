-- ===== src/Net/Mask.antt =====
-- The network that `net.ParseCIDR` returns beside the address, with the four octets of an IPv4 one.
use wgrift.Base.{
  ℕ, ◌-◌, ◌*◌, ◌/◌, ◌%◌, ◌^◌, Option, none, some, List, [], ◌∷◌, ◌++◌, Text, print_nat, ltb,
  if◌then◌else◌, min,
}
use wgrift.Net.Parse.{Address, parse_cidr, cut_slash, mask_length, first_mark, bit_length}

-- The address, the leading ones of the mask and its length in bits.
pub record Network : Type 0 where
  pub ip : Address
  pub ones : ℕ
  pub bits : ℕ

abbrev with_sizes : Address → Option ℕ → ℕ → Option Network
with_sizes ip none bits = none
with_sizes ip (some ones) bits = some (record { ip = ip; ones = ones; bits = bits })

unfoldable pub parse_network : Text → Option Network
unfolding parse_cidr cut_slash mask_length first_mark
parse_network s = elim (parse_cidr s) [
  | none ↦ none
  | some ip ↦ elim (cut_slash s) [
    | none ↦ none
    | some (address, mask) ↦ with_sizes ip (mask_length mask) (bit_length (first_mark address))
  ]
]

-- The octets of `ip.To4()`, from the first.
unfoldable pub split_octets : Address → List ℕ
split_octets (_ ∷ _ ∷ _ ∷ _ ∷ _ ∷ _ ∷ g ∷ h ∷ []) = g / 256 ∷ g % 256 ∷ h / 256 ∷ h % 256 ∷ []
split_octets _ = []

-- How many of the `host` low bits of an address lie in the octet that has `below` octets behind it.
unfoldable pub host_bits : ℕ → ℕ → ℕ
host_bits host below = min 8 (host - 8 * below)

-- The octets under a mask that clears the `host` low bits, `below` octets following the list.
unfoldable pub mask_octets : ℕ → List ℕ → List ℕ
unfolding host_bits
mask_octets host (a ∷ b ∷ c ∷ d ∷ []) =
    a / 2 ^ host_bits host 3 * 2 ^ host_bits host 3
    ∷ b / 2 ^ host_bits host 2 * 2 ^ host_bits host 2
    ∷ c / 2 ^ host_bits host 1 * 2 ^ host_bits host 1
    ∷ d / 2 ^ host_bits host 0 * 2 ^ host_bits host 0
    ∷ []
mask_octets host _ = []

-- `copy(base, ipNet.IP.To4())` into four zeros. A mask of 128 bits that reaches into the prefix of
-- the IPv4 addresses leaves no IPv4 network.
unfoldable pub network_octets : Network → List ℕ
unfolding split_octets mask_octets
network_octets n =
    if ltb n.ones (n.bits - 32)
    then 0 ∷ 0 ∷ 0 ∷ 0 ∷ []
    else mask_octets (n.bits - n.ones) (split_octets n.ip)

-- `net.IP.String` of four octets.
unfoldable pub print_octets : List ℕ → Text
print_octets [] = []
print_octets (a ∷ []) = print_nat a
print_octets (a ∷ b ∷ rest) = print_nat a ++ (b'.' ∷ print_octets (b ∷ rest))
