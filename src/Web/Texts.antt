-- ===== src/Web/Texts.antt =====
-- The texts that the web front end reads and shows (ui/web/common.go, interface_detail.go).
use wgrift.Base.{
  ◌*◌, suc, zero, ℕ, zero, ◌+◌, ◌-◌, ◌/◌, ◌%◌, ◌^◌, Bool, true, false, not, ◌&&◌, ◌||◌, Option,
  none, some, List, [], ◌∷◌, ◌++◌, Text, codes, trim_space, split_at, is_nil, print_nat, print_int,
  atoi, length, take, drop, map, ltb, leb, ◌==◌, if◌then◌else◌, ℤ, pos, negsuc,
}
use wgrift.Net.{
  parse_ip, parse_cidr, is_ipv4, mask_octets, split_octets, print_octets, cut_slash, host_bits,
  Address,
}

abbrev pub with_prefix : Text → Text → Text × Bool
with_prefix s default_prefix = elim (parse_cidr (s ++ default_prefix)) [
  | none ↦ (s, false)
  | some network ↦ (s ++ default_prefix, true)
]

abbrev pub unless_bare : Text → Text → Text × Bool
unless_bare s default_prefix = elim (parse_ip s) [
  | none ↦ (s, false)
  | some ip ↦ with_prefix s default_prefix
]

abbrev pub normalize_trimmed : Text → Text → Text × Bool
normalize_trimmed [] default_prefix = ([], true)
normalize_trimmed (c ∷ s) default_prefix = elim (parse_cidr (c ∷ s)) [
  | none ↦ unless_bare (c ∷ s) default_prefix
  | some network ↦ (c ∷ s, true)
]

-- The text, and whether it can be kept.
unfoldable pub normalize_cidr : Text → Text → Text × Bool
normalize_cidr input default_prefix = normalize_trimmed (trim_space input) default_prefix

-- `strings.TrimPrefix` of a slash.
abbrev trim_slash : Text → Text
trim_slash [] = []
trim_slash (c ∷ s) = if c == b'/' then s else c ∷ s

abbrev split_trimmed : Text → Text → Text × Text
split_trimmed [] dflt = ([], dflt)
split_trimmed (c ∷ s) dflt = elim (cut_slash (c ∷ s)) [
  | none ↦ (c ∷ s, dflt)
  | some (ip, prefix) ↦ (ip, prefix)
]

unfoldable pub split_cidr : Text → Text → Text × Text
unfolding cut_slash
split_cidr val default_prefix = split_trimmed (trim_space val) (trim_slash default_prefix)

-- The characters with a comma in front of every group of three, but at the start.
unfoldable pub commas : Bool → Text → Text
commas at_start [] = []
commas at_start (c ∷ s) =
    let rest = c ∷ commas false s in
    if not at_start && (length (c ∷ s) % 3 == 0) then b',' ∷ rest else rest

unfoldable pub format_number : ℤ → Text
unfolding commas
format_number n = let s = print_int n in if leb (length s) 3 then s else commas true s

abbrev pub pluralize : ℤ → Text → Text → Text
pluralize (pos n) singular plural = if n == 1 then singular else plural
pluralize (negsuc n) singular plural = plural

-- The `n` low bits of `a | b`.
unfoldable pub or_bits : ℕ → ℕ → ℕ → ℕ
or_bits zero a b = 0
or_bits (suc n) a b = or_bits n (a / 2) (b / 2) * 2 + (if a % 2 == 1 then 1 else b % 2)

-- A byte of the mask, inverted: its low bits are the host's.
abbrev pub inverted_mask : ℕ → ℕ → ℕ
inverted_mask host below = 2 ^ host_bits host below - 1

-- A byte of `network | ^mask`.
abbrev pub fill_octet : ℕ → ℕ → ℕ → ℕ
fill_octet host below octet = or_bits 8 octet (inverted_mask host below)

unfoldable pub broadcast_octets : ℕ → List ℕ → List ℕ
unfolding host_bits or_bits
broadcast_octets host (a ∷ b ∷ c ∷ d ∷ []) =
    fill_octet host 3 a ∷ fill_octet host 2 b ∷ fill_octet host 1 c ∷ fill_octet host 0 d ∷ []
broadcast_octets host _ = []

-- The hosts of a network with `host` host bits, one at least.
abbrev pub usable_hosts : ℕ → ℕ
usable_hosts host = let hosts = 2 ^ host - 2 in if ltb hosts 1 then 1 else hosts

unfoldable pub summary_of : Address → ℕ → Text
unfolding mask_octets broadcast_octets print_octets split_octets format_number
summary_of ip prefix =
    let host = 32 - prefix in
    let network = mask_octets host (split_octets ip) in
    let hosts = pos (usable_hosts host) in
    if prefix == 32
    then codes "Single host"
    else print_octets network
      ++ (codes " – "
          ++ (print_octets (broadcast_octets host network)
              ++ (codes " · "
                  ++ (format_number hosts
                      ++ (codes " " ++ pluralize hosts (codes "host") (codes "hosts"))))))

abbrev summary_if_ipv4 : Option Address → ℕ → Text
summary_if_ipv4 none prefix = []
summary_if_ipv4 (some ip) prefix = if is_ipv4 ip then summary_of ip prefix else []

abbrev summary_if_prefix : Text → Option ℤ → Text
summary_if_prefix ip_str (some (pos prefix)) =
    if ltb 32 prefix then [] else summary_if_ipv4 (parse_ip ip_str) prefix
summary_if_prefix ip_str _ = []

unfoldable pub cidr_summary : Text → Text → Text
unfolding summary_of
cidr_summary ip_str prefix_str =
    if is_nil ip_str || is_nil prefix_str then [] else summary_if_prefix ip_str (atoi prefix_str)

abbrev dash : Text
dash = codes "—"

abbrev available_of : Option ℤ → ℕ → Text
available_of (some (pos prefix)) peer_count =
    let total = 2 ^ (32 - prefix) - 3 in
    if ltb prefix 1 || ltb 30 prefix
    then dash
    else print_nat (total - peer_count) ++ (codes " / " ++ print_nat total)
available_of _ peer_count = dash

-- The number of peers is the length of a list.
unfoldable pub format_available_ips : Text → ℕ → Text
unfolding cut_slash
format_available_ips address peer_count = elim (cut_slash address) [
  | none ↦ dash
  | some (host, prefix) ↦ available_of (atoi prefix) peer_count
]

-- Keys are ASCII: their bytes are their characters.
unfoldable pub truncate_key : Text → Text
truncate_key key =
    if ltb 12 (length key) then take 8 key ++ (codes "..." ++ drop (length key - 4) key) else key

abbrev pieces : Text → List Text
pieces [] = []
pieces (c ∷ s) = map trim_space (split_at b',' (c ∷ s))

unfoldable pub parse_csv : Text → List Text
parse_csv s = pieces (trim_space s)

-- Two units at most, the largest first.
abbrev two_units : ℕ → ℕ → ℕ → ℕ → Text
two_units days hours mins secs =
    if ltb 0 days && ltb 0 hours
    then print_nat days ++ (codes "d " ++ (print_nat hours ++ codes "h"))
    else if ltb 0 days
    then print_nat days ++ codes "d"
    else if ltb 0 hours && ltb 0 mins
    then print_nat hours ++ (codes "h " ++ (print_nat mins ++ codes "m"))
    else if ltb 0 hours
    then print_nat hours ++ codes "h"
    else if ltb 0 mins && ltb 0 secs
    then print_nat mins ++ (codes "m " ++ (print_nat secs ++ codes "s"))
    else if ltb 0 mins
    then print_nat mins ++ codes "m"
    else print_nat secs ++ codes "s"

unfoldable pub format_seconds : ℤ → Text
format_seconds (pos zero) = codes "0s"
format_seconds (pos total_secs) =
    two_units (total_secs / 86400) (total_secs % 86400 / 3600) (total_secs % 3600 / 60)
      (total_secs % 60)
format_seconds (negsuc n) = codes "0s"
