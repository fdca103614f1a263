-- ===== src/Web/Defaults.antt =====
-- What the form for a new interface suggests (ui/web/interfaces.go).
pub mod Untaken
pub mod Suggested
use wgrift.Base.{
  ℕ, suc, ◌+◌, Bool, false, Option, none, some, List, [], ◌∷◌, ◌++◌, Text, codes, text_eq,
  print_nat, length, ◌==◌, ℤ, pos, negsuc, any, map,
}
use wgrift.Web.Defaults.Untaken.{first_untaken}

-- An interface as the API sends it.
pub record InterfaceData : Type 0 where
  pub id : Text
  pub type : Text
  pub listen_port : ℤ
  pub address : Text
  pub dns : Text
  pub mtu : ℤ
  pub endpoint : Text
  pub post_up : Text
  pub post_down : Text
  pub enabled : Bool

abbrev pub interface_id : ℕ → Text
interface_id i = codes "wg" ++ print_nat i

abbrev pub has_id : InterfaceData → ℕ → Bool
has_id iface i = text_eq iface.id (interface_id i)

abbrev pub is_port : ℤ → ℕ → Bool
is_port (pos n) port = n == port
is_port (negsuc n) port = false

abbrev pub has_port : InterfaceData → ℕ → Bool
has_port iface port = is_port iface.listen_port port

abbrev id_or_first : Option ℕ → Text
id_or_first none = codes "wg0"
id_or_first (some i) = interface_id i

-- The loop has no bound: that it ends within one round more than there are interfaces is shown in
-- `Suggested`.
abbrev port_or_last : ℕ → Option ℕ → ℕ
port_or_last last none = last
port_or_last last (some port) = port

unfoldable pub next_port : List InterfaceData → ℕ
unfolding first_untaken
next_port existing =
    let rounds = suc (length existing) in
    port_or_last (51820 + rounds) (first_untaken has_port existing rounds 51820)

-- The identifier, the port and the address.
unfoldable pub next_interface_defaults : List InterfaceData → Text × Text × Text
unfolding first_untaken next_port
next_interface_defaults existing = (
  id_or_first (first_untaken has_id existing 100 0),
  print_nat (next_port existing),
  codes "10.100." ++ (print_nat (length existing) ++ codes ".1/24"),
)
