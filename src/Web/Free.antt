-- ===== src/Web/Free.antt =====
-- Which address the peer form suggests.
use wgrift.Base.{
  ℕ, zero, suc, ◌-◌, ◌≤◌, ◌<◌, Bool, true, false, some, List, [], ◌∷◌, ◌++◌, Text, codes, ◌≡◌, ◌⊎◌,
  subst, arith, Bool-cases, inl, inr,
}
use wgrift.Net.{Network, is_ipv4, parse_network, network_octets, print_octets}
use wgrift.Web.Addresses.{
  next_free, is_used, candidate, next_in_network, next_available_ip, host_count, print_ip4,
  used_ips,
}

-- What the loop finds from the host `i` on, in a network of `count` addresses, the last of which
-- is no host: the first that is not used, or nothing if all are.
pub data FirstFree (base : List ℕ) (used : List Text) (count i : ℕ) : Text → Type 0 where
  all_used :
      ((j : ℕ) → i ≤ j → suc j < count → is_used base used j ≡ true)
      → FirstFree base used count i []
  found :
      (j : ℕ)
      → i ≤ j
      → suc j < count
      → is_used base used j ≡ false
      → ((k : ℕ) → i ≤ k → k < j → is_used base used k ≡ true)
      → FirstFree base used count i (print_octets (candidate base j) ++ codes "/32")

le-cases : (i j : ℕ) → i ≤ j → (suc i ≤ j) ⊎ (i ≡ j)
le-cases i j h = ground arith

used_from : (p : ℕ → Bool) (i j : ℕ) → p i ≡ true → i ≤ j → (suc i ≤ j → p j ≡ true) → p j ≡ true
used_from p i j h le more = elim (le-cases i j le) [
  | inl lt ↦ more lt
  | inr same ↦ subst (λ k. p k ≡ true) same h
]

module _ {base : List ℕ} {used : List Text} {count : ℕ} where
  FirstFree-skip :
      (i : ℕ) {t : Text}
      → is_used base used i ≡ true
      → FirstFree base used count (suc i) t
      → FirstFree base used count i t
  FirstFree-skip i h (all_used all) =
      all_used (λ j le lt. used_from (is_used base used) i j h le (λ more. all j more lt))
  FirstFree-skip i h (found j le lt free before) =
      found j (omega arith) lt free
        (λ k le' lt'. used_from (is_used base used) i k h le' (λ more. before k more lt'))

  next_free-FirstFree :
      (rounds i : ℕ)
      → rounds ≡ count - 1 - i
      → FirstFree base used count i (next_free base used rounds i)
  unfolding next_free
  next_free-FirstFree zero i h = all_used (λ j le lt. ground arith)
  next_free-FirstFree (suc rounds) i h = elim (Bool-cases (is_used base used i)) [
    | inl taken ↦
        rw (next_free, taken)
          (FirstFree-skip i taken (next_free-FirstFree rounds (suc i) (omega arith)))
    | inr free ↦
        rw (next_free, free) (found i (omega arith) (omega arith) free (λ k le lt. ground arith))
  ]

-- For an interface with an IPv4 network, the suggestion is the first host of the network that
-- is neither the interface's own address nor a used one, and none only if all of them are taken.
pub next_available_ip-FirstFree :
    (iface_addr : Text) (used_addrs : List Text) (n : Network)
    → parse_network iface_addr ≡ some n
    → is_ipv4 n.ip ≡ true
    → FirstFree
        (network_octets n)
        (print_ip4 n.ip ∷ used_ips used_addrs)
        (host_count (n.bits - n.ones))
        1
        (next_available_ip iface_addr used_addrs)
unfolding next_available_ip next_in_network
next_available_ip-FirstFree iface_addr used_addrs n h v4 =
    rw (next_available_ip, h)
      (rw (next_in_network, v4)
        (next_free-FirstFree (host_count (n.bits - n.ones) - 2) 1 (omega arith)))
