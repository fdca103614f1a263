-- ===== src/Net/Print.antt =====
-- `net.IP.String`: dotted for an IPv4 address, else groups of hexadecimal digits with the longest
-- run of at least two zero groups, the first of them, written as `::`.
use wgrift.Base.{
  ℕ, zero, suc, ◌+◌, ◌-◌, ◌/◌, ◌%◌, false, [], ◌∷◌, ◌++◌, Text, print_nat, take, drop, ltb, ◌==◌,
  if◌then◌else◌,
}
use wgrift.Net.Parse.{Address, is_ipv4}

hex_char : ℕ → ℕ
hex_char d = if ltb d 10 then d + b'0' else d - 10 + b'a'

-- Without leading zeros.
print_hex : ℕ → ℕ → Text
unfolding hex_char
print_hex zero n = []
print_hex (suc fuel) n =
    let rest = print_hex fuel (n / 16) ++ hex_char (n % 16) ∷ [] in
    if ltb n 16 then hex_char n ∷ [] else rest

-- A group has at most four digits.
print_group : ℕ → Text
unfolding print_hex
print_group n = print_hex 4 n

zero_run : Address → ℕ
zero_run [] = 0
zero_run (g ∷ gs) = let more = suc (zero_run gs) in if g == 0 then more else 0

-- The start and the length of the run to write as `::`: the first longest from `i` on, of more
-- than `best_length` groups and of two at least.
longest_run : Address → ℕ → ℕ → ℕ → ℕ × ℕ
unfolding zero_run
longest_run [] i best best_length = (best, best_length)
longest_run (g ∷ gs) i best best_length =
    let run = zero_run (g ∷ gs) in
    let better = if ltb 1 run then ltb best_length run else false in
    longest_run gs (i + 1) (if better then i else best) (if better then run else best_length)

print_groups : Address → Text
unfolding print_group
print_groups [] = []
print_groups (g ∷ []) = print_group g
print_groups (g ∷ h ∷ gs) = print_group g ++ (b':' ∷ print_groups (h ∷ gs))

print_ipv6 : Address → Text
unfolding longest_run print_groups
print_ipv6 ip =
    let (start, run) = longest_run ip 0 0 0 in
    if run == 0
    then print_groups ip
    else print_groups (take start ip) ++ (b':' ∷ b':' ∷ print_groups (drop (start + run) ip))

print_ipv4 : Address → Text
print_ipv4 (_ ∷ _ ∷ _ ∷ _ ∷ _ ∷ _ ∷ g ∷ h ∷ []) =
    print_nat (g / 256)
    ++ (b'.' ∷ print_nat (g % 256) ++ (b'.' ∷ print_nat (h / 256) ++ (b'.' ∷ print_nat (h % 256))))
print_ipv4 _ = []

unfoldable pub print_ip : Address → Text
unfolding print_ipv4 print_ipv6
print_ip ip = if is_ipv4 ip then print_ipv4 ip else print_ipv6 ip
