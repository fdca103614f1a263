-- ===== src/Tests/WebTests.antt =====
-- The suggestions and texts of the web front end on concrete inputs.
use wgrift.Base.{
  atoi, ℕ, suc, ◌+◌, ◌≤◌, true, false, [], ◌∷◌, codes, ◌≡◌, refl, arith, any, split_at, text_eq,
  scan_digits, print_nat, print_int, pos, trim_space, some,
}
use wgrift.Net.{
  Network, parse_network, parse_cidr, parse_ip, is_ipv4, print_ip, print_octets, network_octets,
  mask_octets,
}
use wgrift.Web.Addresses.{
  next_available_ip, is_ip_in_use, candidate, used_ips, print_ip4, host_count,
}
use wgrift.Web.Free.{FirstFree, next_available_ip-FirstFree}
use wgrift.Web.Subnet.{number, candidate-mask_octets}
use wgrift.Web.Broadcast.{broadcast_octets-mask_octets}
use wgrift.Web.Texts.{
  format_number, commas, cidr_summary, format_seconds, format_available_ips, normalize_cidr,
  split_cidr, parse_csv, truncate_key, broadcast_octets, usable_hosts,
}
use wgrift.Web.Kept.{IsNormal, IsGrouped, format_number-IsGrouped, normalize_cidr-IsNormal}
use wgrift.Web.Defaults.{InterfaceData, is_port, next_interface_defaults}
use wgrift.Web.Defaults.Untaken.{first_untaken}
use wgrift.Web.Defaults.Suggested.{next_interface_defaults-untaken}

first_host : next_available_ip (codes "10.200.0.1/24") [] ≡ codes "10.200.0.2/32"
unfolding next_available_ip parse_network scan_digits any split_at is_ipv4 text_eq print_octets
    network_octets print_nat
first_host = refl

skips_used :
    next_available_ip (codes "10.200.0.5/24") (codes "10.200.0.1/32" ∷ codes "10.200.0.2" ∷ [])
    ≡ codes "10.200.0.3/32"
unfolding next_available_ip parse_network scan_digits any split_at is_ipv4 text_eq print_octets
    network_octets print_nat
skips_used = refl

is_full : next_available_ip (codes "10.0.0.1/30") (codes "10.0.0.2/32" ∷ []) ≡ []
unfolding next_available_ip parse_network scan_digits any split_at is_ipv4 text_eq print_octets
    network_octets print_nat
is_full = refl

in_use : is_ip_in_use (codes "10.0.0.2") (codes "10.0.0.2/32" ∷ []) ≡ true
unfolding is_ip_in_use parse_cidr any split_at scan_digits print_ip is_ipv4 print_nat text_eq
in_use = refl

thousands : format_number (pos 16777214) ≡ codes "16,777,214"
unfolding format_number commas print_nat print_int
thousands = refl

summary :
    cidr_summary (codes "10.100.0.7") (codes "24") ≡ codes "10.100.0.0 – 10.100.0.255 · 254 hosts"
unfolding cidr_summary atoi parse_ip any split_at is_ipv4 print_nat print_int
summary = refl

an_hour : format_seconds (pos 3660) ≡ codes "1h 1m"
unfolding format_seconds print_nat
an_hour = refl

available : format_available_ips (codes "10.0.0.1/29") 2 ≡ codes "3 / 5"
unfolding format_available_ips atoi print_nat
available = refl

bare_address : normalize_cidr (codes " 10.0.0.1 ") (codes "/24") ≡ (codes "10.0.0.1/24", true)
unfolding normalize_cidr trim_space parse_cidr any split_at scan_digits
bare_address = refl

split : split_cidr (codes "10.0.0.1") (codes "/24") ≡ (codes "10.0.0.1", codes "24")
unfolding split_cidr trim_space
split = refl

entries : parse_csv (codes " a , b") ≡ codes "a" ∷ codes "b" ∷ []
unfolding parse_csv trim_space split_at
entries = refl

short_key : truncate_key (codes "abcdefghijklmnop") ≡ codes "abcdefgh...mnop"
unfolding truncate_key
short_key = refl

abbrev wg0 : InterfaceData
wg0 = record {
  id = codes "wg0";
  type = codes "client-access";
  listen_port = pos 51820;
  address = codes "10.100.0.1/24";
  dns = [];
  mtu = pos 1420;
  endpoint = [];
  post_up = [];
  post_down = [];
  enabled = true;
}

second : next_interface_defaults (wg0 ∷ []) ≡ (codes "wg1", codes "51821", codes "10.100.1.1/24")
unfolding next_interface_defaults any text_eq print_nat first_untaken
second = refl

abbrev network : Network
network = record { ip = 0 ∷ 0 ∷ 0 ∷ 0 ∷ 0 ∷ 0xffff ∷ 0x0a00 ∷ 1 ∷ []; ones = 30; bits = 32 }

is_network : parse_network (codes "10.0.0.1/30") ≡ some network
unfolding parse_network parse_cidr scan_digits split_at any
is_network = refl

is_v4 : is_ipv4 network.ip ≡ true
unfolding is_ipv4
is_v4 = refl

next_available_ip-FirstFree_example :
    FirstFree
      (network_octets network)
      (print_ip4 network.ip ∷ used_ips (codes "10.0.0.3" ∷ []))
      (host_count 2)
      1
      (next_available_ip (codes "10.0.0.1/30") (codes "10.0.0.3" ∷ []))
next_available_ip-FirstFree_example =
    next_available_ip-FirstFree (codes "10.0.0.1/30") (codes "10.0.0.3" ∷ []) network is_network
      is_v4

candidate-mask_octets_example :
    number (candidate (mask_octets 9 (10 ∷ 0 ∷ 3 ∷ 7 ∷ [])) 300)
    ≡ number (mask_octets 9 (10 ∷ 0 ∷ 3 ∷ 7 ∷ [])) + 300
candidate-mask_octets_example =
    candidate-mask_octets 9 10 0 3 7 300 (omega arith) (omega arith) (omega arith) (omega arith)
      (omega arith) (omega arith)

broadcast_octets-mask_octets_example :
    number (broadcast_octets 9 (mask_octets 9 (10 ∷ 0 ∷ 3 ∷ 7 ∷ [])))
    ≡ number (mask_octets 9 (10 ∷ 0 ∷ 3 ∷ 7 ∷ [])) + suc (usable_hosts 9)
broadcast_octets-mask_octets_example =
    broadcast_octets-mask_octets 9 10 0 3 7 (omega arith) (omega arith) (omega arith) (omega arith)
      (omega arith) (omega arith)

next_interface_defaults-untaken_example :
    (any (λ x. text_eq x.id (next_interface_defaults (wg0 ∷ [])).0) (wg0 ∷ []) ≡ false)
    × (port : ℕ) × ((next_interface_defaults (wg0 ∷ [])).1 ≡ print_nat port)
    × (any (λ x. is_port x.listen_port port) (wg0 ∷ []) ≡ false)
    × (51820 ≤ port)
next_interface_defaults-untaken_example = next_interface_defaults-untaken (wg0 ∷ []) (omega arith)

format_number-IsGrouped_example : IsGrouped (format_number (pos 65534)) (print_int (pos 65534))
format_number-IsGrouped_example = format_number-IsGrouped (pos 65534)

normalize_cidr-IsNormal_example :
    IsNormal (trim_space (codes " 10.0.0.1 ")) (normalize_cidr (codes " 10.0.0.1 ") (codes "/24"))
normalize_cidr-IsNormal_example = normalize_cidr-IsNormal (codes " 10.0.0.1 ") (codes "/24")
