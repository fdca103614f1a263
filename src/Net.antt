-- ===== src/Net.antt =====
-- IP addresses as Go's `net` reads and prints them. An address is its eight groups of 16 bits;
-- an IPv4 address is mapped into IPv6.
mod Parse
mod Print
mod Mask
unfoldable pub use Parse.{Address, parse_ip, parse_cidr, cut_slash, is_ipv4}
unfoldable pub use Print.{print_ip}
pub use Mask.{Network}
unfoldable pub use Mask.{
  host_bits, mask_octets, parse_network, network_octets, split_octets, print_octets,
}
