-- ===== src/Wg/AllowedIps.antt =====
-- The lists of allowed addresses in internal/wg/manager.go.
use wgrift.Base.{
  ◌||◌, Option, none, some, List, [], ◌∷◌, ◌++◌, Text, codes, text_eq, trim_space, split_at,
  join_with, any, is_nil, if◌then◌else◌,
}
use wgrift.Net.{Address, parse_ip, parse_cidr, print_ip, is_ipv4}

abbrev with_suffix : Option Address → Text
with_suffix none = []
with_suffix (some ip) = print_ip ip ++ (if is_ipv4 ip then codes "/32" else codes "/128")

abbrev or_else : Option Address → Option Address → Option Address
or_else (some ip) other = some ip
or_else none other = other

-- `ensureHost32`: the address alone, with the prefix length of one host; empty if it is no address.
unfoldable pub ensure_host_32 : Text → Text
ensure_host_32 address = with_suffix (or_else (parse_cidr address) (parse_ip address))

-- The loop of `mergeAllowedIPStrings`. `seen` and `parts` hold the same texts; `parts` in order.
unfoldable pub merge_loop : List Text → List Text → List Text → List Text
merge_loop seen parts [] = parts
merge_loop seen parts (raw ∷ rest) =
    let cidr = trim_space raw in
    let skip = is_nil cidr || any (text_eq cidr) seen in
    merge_loop (if skip then seen else cidr ∷ seen) (if skip then parts else parts ++ cidr ∷ [])
      rest

-- The parts of the merged list, before they are joined.
unfoldable pub merged_parts : Text → Text → List Text
unfolding merge_loop
merged_parts tunnel_ip allowed_ips =
    let first = trim_space tunnel_ip in
    merge_loop (first ∷ []) (first ∷ []) (split_at b',' allowed_ips)

unfoldable pub merge_allowed_ip_strings : Text → Text → Text
unfolding merged_parts
merge_allowed_ip_strings tunnel_ip allowed_ips =
    join_with (codes ", ") (merged_parts tunnel_ip allowed_ips)
