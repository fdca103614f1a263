-- ===== src/Web/Defaults/Suggested.antt =====
-- The suggestions of the form for a new interface are free.
use wgrift.Base.{
  ℕ, suc, ◌≤◌, ◌<◌, true, false, some, List, text_eq, text_eq_iff, print_nat, scan_digits,
  scan_digits-print_nat, length, any, drop, ◌≡◌, refl, sym, ap, ◌∙◌, arith, pos, negsuc,
}
use wgrift.Web.Defaults.{
  InterfaceData, interface_id, has_id, has_port, is_port, next_port, next_interface_defaults,
}
use wgrift.Web.Defaults.Untaken.{is_taken, first_untaken-some}

some-injective : {i j : ℕ} → some i ≡ some j → i ≡ j
some-injective h = ground (arith, h)

print_nat-injective : (i j : ℕ) → print_nat i ≡ print_nat j → i ≡ j
print_nat-injective i j h =
    some-injective
      (sym (scan_digits-print_nat i) ∙ (ap (scan_digits 0) h ∙ scan_digits-print_nat j))

interface_id-injective : (i j : ℕ) → interface_id i ≡ interface_id j → i ≡ j
interface_id-injective i j h = print_nat-injective i j (ap (drop 2) h)

one_id : (x : InterfaceData) (i j : ℕ) → has_id x i ≡ true → has_id x j ≡ true → i ≡ j
one_id x i j hi hj =
    interface_id-injective i j
      (sym ((text_eq_iff x.id (interface_id i)).0 hi) ∙ (text_eq_iff x.id (interface_id j)).0 hj)

one_port : (x : InterfaceData) (i j : ℕ) → has_port x i ≡ true → has_port x j ≡ true → i ≡ j
one_port x i j hi hj =
    elim x.listen_port as (λ p. is_port p i ≡ true → is_port p j ≡ true → i ≡ j) [
      | pos n ↦ λ h h'. ground arith
      | negsuc n ↦ λ h h'. ground arith
    ]
      hi hj

next_port-untaken :
    (existing : List InterfaceData)
    → (is_taken has_port existing (next_port existing) ≡ false) × (51820 ≤ next_port existing)
unfolding next_port
next_port-untaken existing =
    let (port, eq, free, le) =
      first_untaken-some has_port one_port existing (suc (length existing)) 51820 (omega arith) in
    rw eq (free, le)

-- With fewer than 100 interfaces, no interface has the suggested identifier; and the suggested port
-- is the decimal text of a number from 51820 on that is the port of no interface.
pub next_interface_defaults-untaken :
    (existing : List InterfaceData)
    → length existing < 100
    → (any (λ x. text_eq x.id (next_interface_defaults existing).0) existing ≡ false)
      × (port : ℕ) × ((next_interface_defaults existing).1 ≡ print_nat port)
      × (any (λ x. is_port x.listen_port port) existing ≡ false)
      × (51820 ≤ port)
unfolding next_interface_defaults
next_interface_defaults-untaken existing h =
    let (i, eq, free, le) = first_untaken-some has_id one_id existing 100 0 h in
    let (free_port, low) = next_port-untaken existing in
    (rw eq free, next_port existing, refl, free_port, low)
