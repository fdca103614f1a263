-- ===== src/Store/TunnelIps.antt =====
-- `ExtractHostIP` and `IsTunnelIPInUse` of internal/store/store.go.
pub mod Sound
use wgrift.Base.{
  Bool, true, false, not, ◌&&◌, ◌||◌, Option, none, some, List, [], ◌∷◌, map, Text, text_eq, select,
  any, is_nil, if◌then◌else◌,
}
use wgrift.Models.{Interface, Peer}
use wgrift.Net.{Address, parse_ip, parse_cidr, print_ip}
use wgrift.Store.Db.{Db}
use wgrift.App.{App, pure, ◌>>=◌, wrapping, query}

abbrev text_of : Option Address → Text
text_of none = []
text_of (some ip) = print_ip ip

abbrev first_of_two : Option Address → Option Address → Option Address
first_of_two (some ip) other = some ip
first_of_two none other = other

-- The host address of a CIDR or a bare IP, without its prefix length; empty if it is neither.
unfoldable pub extract_host_ip : Text → Text
extract_host_ip addr = text_of (first_of_two (parse_cidr addr) (parse_ip addr))

-- The identifiers and addresses of the rows that have an address.
abbrev addressed : List (Text × Text) → List (Text × Text)
addressed rows = select (λ row. not (is_nil row.1)) rows

-- The loop over the rows: it skips the excluded row, and stops at one with the same host.
unfoldable pub host_in_rows : Text → Text → List (Text × Text) → Bool
host_in_rows target exclude [] = false
host_in_rows target exclude ((id, addr) ∷ rows) =
    let rest = host_in_rows target exclude rows in
    if text_eq id exclude
    then rest
    else if text_eq (extract_host_ip addr) target
    then true
    else rest

abbrev pub peer_addresses : Db → List (Text × Text)
peer_addresses db = addressed (map (λ p. (p.id, p.address)) db.peers)

abbrev pub interface_addresses : Db → List (Text × Text)
interface_addresses db = addressed (map (λ i. (i.id, i.address)) db.interfaces)

-- The interfaces are read only if no peer has the address.
unfoldable pub is_tunnel_ip_in_use : Text → Text → Text → App Bool
is_tunnel_ip_in_use ip exclude_peer_id exclude_iface_id =
    let target = extract_host_ip ip in
    let lookup : App Bool = (do
      peers ← wrapping "querying peer addresses" (query peer_addresses)
      if host_in_rows target exclude_peer_id peers then pure true else do
        interfaces ← wrapping "querying interface addresses" (query interface_addresses)
        pure (host_in_rows target exclude_iface_id interfaces)) in
    if is_nil target then pure false else lookup
