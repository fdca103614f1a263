-- ===== src/Web/Addresses.antt =====
-- The addresses of the peer form (ui/web/peer_form.go). The front end is WebAssembly, where an
-- `int` has 64 bits.
use wgrift.Base.{
  ℕ, zero, suc, ◌+◌, ◌-◌, ◌/◌, ◌%◌, ◌^◌, Bool, true, false, Option, none, some, List, [], ◌∷◌, ◌++◌,
  Text, codes, text_eq, is_nil, any, ltb, if◌then◌else◌,
}
use wgrift.Net.{
  Address, parse_ip, parse_cidr, is_ipv4, print_ip, Network, parse_network, network_octets,
  split_octets, print_octets,
}

-- The address of a CIDR, or of a bare address.
unfoldable pub address_of : Text → Option Address
address_of addr = elim (parse_cidr addr) [ none ↦ parse_ip addr | some ip ↦ some ip ]

unfoldable pub extract_host_ip : Text → Text
unfolding address_of
extract_host_ip addr = elim (address_of addr) [ none ↦ [] | some ip ↦ print_ip ip ]

unfoldable pub is_ip_in_use : Text → List Text → Bool
unfolding extract_host_ip
is_ip_in_use addr used_addrs =
    let target = extract_host_ip addr in
    if is_nil target then false else any (λ used. text_eq (extract_host_ip used) target) used_addrs

-- `a.To4().String()`: no IPv4 address prints as `<nil>`.
unfoldable pub print_ip4 : Address → Text
print_ip4 ip = if is_ipv4 ip then print_octets (split_octets ip) else codes "<nil>"

-- The keys of `used`, but for the gateway.
unfoldable pub used_ips : List Text → List Text
unfolding address_of print_ip4
used_ips [] = []
used_ips (addr ∷ addrs) = elim (address_of addr) [
  | none ↦ used_ips addrs
  | some ip ↦ print_ip4 ip ∷ used_ips addrs
]

-- `1 << shift` as an `int`: nothing is left from 64 on, and 63 gives a negative number, below
-- which no loop counts either.
unfoldable pub host_count : ℕ → ℕ
host_count shift = if ltb shift 63 then 2 ^ shift else 0

-- The bytes of `i` are added to those of the network one by one.
unfoldable pub candidate : List ℕ → ℕ → List ℕ
candidate (a ∷ b ∷ c ∷ d ∷ []) i =
    (a + i / 2 ^ 24 % 256) % 256
    ∷ (b + i / 2 ^ 16 % 256) % 256
    ∷ (c + i / 2 ^ 8 % 256) % 256
    ∷ (d + i % 256) % 256
    ∷ []
candidate _ i = []

unfoldable pub is_used : List ℕ → List Text → ℕ → Bool
unfolding candidate
is_used base used i = any (text_eq (print_octets (candidate base i))) used

-- The loop, with `rounds` hosts left to try from `i` on.
unfoldable pub next_free : List ℕ → List Text → ℕ → ℕ → Text
unfolding is_used
next_free base used zero i = []
next_free base used (suc rounds) i = elim (is_used base used i) [
  | true ↦ next_free base used rounds (suc i)
  | false ↦ print_octets (candidate base i) ++ codes "/32"
]

unfoldable pub next_in_network : Network → List Text → Text
unfolding next_free host_count print_ip4 used_ips
next_in_network n used_addrs =
    if is_ipv4 n.ip
    then next_free (network_octets n) (print_ip4 n.ip ∷ used_ips used_addrs)
        (host_count (n.bits - n.ones) - 2) 1
    else []

unfoldable pub next_available_ip : Text → List Text → Text
unfolding next_in_network
next_available_ip iface_addr used_addrs = elim (parse_network iface_addr) [
  | none ↦ []
  | some n ↦ next_in_network n used_addrs
]
