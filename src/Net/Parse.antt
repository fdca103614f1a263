-- ===== src/Net/Parse.antt =====
-- `net.ParseIP` and `net.ParseCIDR`.
use wgrift.Base.{
  ℕ, zero, suc, ◌+◌, ◌-◌, ◌*◌, Bool, true, false, not, ◌&&◌, ◌||◌, Option, none, some, List, [],
  ◌∷◌, ◌++◌, Text, split_at, take, drop, any, length, is_nil, scan_digits, leb, ltb, ◌==◌,
  if◌then◌else◌,
}

abbrev pub Address : Type 0
Address = List ℕ

unfoldable pub zeros : ℕ → Address
zeros zero = []
zeros (suc n) = 0 ∷ zeros n

abbrev at_most : ℕ → Option ℕ → Option ℕ
at_most bound none = none
at_most bound (some n) = if leb n bound then some n else none

-- An IPv4 octet: digits with no leading zero, at most 255.
octet : Text → Option ℕ
octet [] = none
octet (c ∷ s) = if c == b'0' && not (is_nil s) then none else at_most 255 (scan_digits 0 (c ∷ s))

pair_octets : Option ℕ → Option ℕ → Option ℕ
pair_octets (some high) (some low) = some (high * 256 + low)
pair_octets _ _ = none

pair_groups : Option ℕ → Option ℕ → Option Address
pair_groups (some high) (some low) = some (high ∷ low ∷ [])
pair_groups _ _ = none

-- Four octets as two groups of 16 bits.
groups_of_octets : List Text → Option Address
unfolding octet pair_octets pair_groups
groups_of_octets (a ∷ b ∷ c ∷ d ∷ []) =
    pair_groups (pair_octets (octet a) (octet b)) (pair_octets (octet c) (octet d))
groups_of_octets _ = none

ipv4_groups : Text → Option Address
unfolding groups_of_octets
ipv4_groups s = groups_of_octets (split_at b'.' s)

-- `::ffff:a.b.c.d`.
abbrev map_ipv4 : Option Address → Option Address
map_ipv4 none = none
map_ipv4 (some groups) = some (zeros 5 ++ (0xffff ∷ groups))

hex_digit : ℕ → Option ℕ
hex_digit c =
    if leb b'0' c && leb c b'9'
    then some (c - b'0')
    else if leb b'a' c && leb c b'f'
    then some (c - b'a' + 10)
    else if leb b'A' c && leb c b'F'
    then some (c - b'A' + 10)
    else none

-- The hexadecimal digits at the front, their number, and what follows them.
take_hex : ℕ → ℕ → Text → ℕ × ℕ × Text
unfolding hex_digit
take_hex acc count [] = (acc, count, [])
take_hex acc count (c ∷ s) =
    let more = λ (d : ℕ). take_hex (acc * 16 + d) (count + 1) s in
    elim (hex_digit c) [ none ↦ (acc, count, c ∷ s) | some d ↦ more d ]

-- The groups read before and after `::`. `ellipsis` is the number of groups in front of it.
pub record Groups : Type 0 where
  pub groups : Address
  pub ellipsis : Option ℕ

-- At the end of the text: with no `::` all eight groups must be there, and `::` stands for one
-- group at least.
finish : Groups → Option Address
finish g =
    let n = length g.groups in
    elim g.ellipsis [
      | none ↦ if n == 8 then some g.groups else none
      | some e ↦
          if ltb n 8 then some (take e g.groups ++ (zeros (8 - n) ++ drop e g.groups)) else none
    ]

abbrev is_some : Option ℕ → Bool
is_some none = false
is_some (some n) = true

-- What one round decides: to stop with an error or at the end of the text, or to go on.
pub data Round : Type 0 where
  refused : Round
  ended : Groups → Round
  goes_on : Groups → Text → Round

-- Behind a group and its colon: a second colon is the ellipsis, which may end the text.
after_colon : Groups → Text → Round
after_colon g [] = refused
after_colon g (c ∷ s) =
    if not (c == b':')
    then goes_on g (c ∷ s)
    else if is_some g.ellipsis
    then refused
    else let marked = record g { ellipsis = some (length g.groups) } in
      if is_nil s then ended marked else goes_on marked s

after_group : Groups → Text → Round
unfolding after_colon
after_group g [] = ended g
after_group g (c ∷ s) = if c == b':' then after_colon g s else refused

starts_with : ℕ → Text → Bool
starts_with c [] = false
starts_with c (d ∷ s) = d == c

append_groups : Groups → Option Address → Round
append_groups g none = refused
append_groups g (some more) = ended (record g { groups = g.groups ++ more })

-- An IPv4 address at the end takes two groups, which must be the last two if nothing is elided.
ipv4_round : Groups → Text → Round
unfolding append_groups ipv4_groups
ipv4_round g s =
    if not (is_some g.ellipsis) && not (length g.groups == 6)
    then refused
    else if ltb 6 (length g.groups)
    then refused
    else append_groups g (ipv4_groups s)

ipv6_round : Groups → Text → Round
unfolding take_hex after_group ipv4_round starts_with
ipv6_round g s =
    let (acc, count, rest) = take_hex 0 0 s in
    if count == 0 || ltb 4 count
    then refused
    else if starts_with b'.' rest
    then ipv4_round g s
    else after_group (record g { groups = g.groups ++ acc ∷ [] }) rest

-- The loop of `parseIPv6`. Every round that goes on has read a group, and a ninth round would
-- begin behind eight groups: there the loop ends, and the text that is left is refused.
ipv6_loop : ℕ → Round → Option Address
unfolding ipv6_round finish
ipv6_loop rounds refused = none
ipv6_loop rounds (ended g) = finish g
ipv6_loop zero (goes_on g s) = none
ipv6_loop (suc rounds) (goes_on g s) = ipv6_loop rounds (ipv6_round g s)

abbrev no_groups : Option ℕ → Groups
no_groups e = record { groups = []; ellipsis = e }

parse_ipv6 : Text → Option Address
unfolding ipv6_loop
parse_ipv6 (a ∷ b ∷ s) =
    if a == b':' && b == b':'
    then (if is_nil s then some (zeros 8) else ipv6_loop 8 (goes_on (no_groups (some 0)) s))
    else ipv6_loop 8 (goes_on (no_groups none) (a ∷ b ∷ s))
parse_ipv6 s = ipv6_loop 8 (goes_on (no_groups none) s)

-- Whether the first dot stands before the first colon; `none` if there is neither.
unfoldable pub first_mark : Text → Option Bool
first_mark [] = none
first_mark (c ∷ s) =
    let rest = first_mark s in
    if c == b'.' then some true else if c == b':' then some false else rest

parse_marked : Option Bool → Text → Option Address
unfolding ipv4_groups parse_ipv6 zeros
parse_marked none s = none
parse_marked (some true) s = map_ipv4 (ipv4_groups s)
parse_marked (some false) s = parse_ipv6 s

-- `net.ParseIP`, which accepts no zone.
unfoldable pub parse_ip : Text → Option Address
unfolding first_mark parse_marked
parse_ip s = if any (λ c. c == b'%') s then none else parse_marked (first_mark s) s

-- The bits of an address that is written with dots, or with colons.
abbrev pub bit_length : Option Bool → ℕ
bit_length (some true) = 32
bit_length _ = 128

-- `dtoi` over the whole text, with its bound of 0xFFFFFF.
unfoldable pub mask_length : Text → Option ℕ
mask_length [] = none
mask_length (c ∷ s) = at_most 0xfffffe (scan_digits 0 (c ∷ s))

unfoldable pub cut_slash : Text → Option (Text × Text)
cut_slash [] = none
cut_slash (c ∷ s) =
    let rest = elim (cut_slash s) as (λ _. Option (Text × Text)) [
      | none ↦ none
      | some (a, b) ↦ some (c ∷ a, b)
    ] in
    if c == b'/' then some ([], s) else rest

with_mask : Text → Text → Option Address
unfolding parse_ip mask_length first_mark
with_mask address mask = elim (at_most (bit_length (first_mark address)) (mask_length mask)) [
  | none ↦ none
  | some n ↦ parse_ip address
]

-- The address of `net.ParseCIDR`; `Mask` reads the mask as well.
unfoldable pub parse_cidr : Text → Option Address
unfolding cut_slash with_mask
parse_cidr s = elim (cut_slash s) [ none ↦ none | some (address, mask) ↦ with_mask address mask ]

-- `ip.To4() != nil`.
unfoldable pub is_ipv4 : Address → Bool
is_ipv4 (a ∷ b ∷ c ∷ d ∷ e ∷ f ∷ _) =
    a == 0 && (b == 0 && (c == 0 && (d == 0 && (e == 0 && f == 0xffff))))
is_ipv4 _ = false
