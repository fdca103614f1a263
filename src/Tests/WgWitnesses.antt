-- ===== src/Tests/WgWitnesses.antt =====
-- The theorems on the manager at concrete stores.
use wgrift.Base.{◌≡◌, refl, true, [], ◌∷◌, codes, trim_space, split_at}
use wgrift.App.{World}
use wgrift.Store.Db.{empty_db}
use wgrift.Store.Consistent.{IsConsistent}
use wgrift.Wg.AllowedIps.{merged_parts}
use wgrift.Wg.Merge.{entries, first_occurrences, merged_parts_lem}
use wgrift.Wg.Sync.{sync_interface}
use wgrift.Wg.Sync.Outcome.{Synced, sync_interface-Synced}
use wgrift.Wg.Manager.{manager_create_interface, add_peer}
use wgrift.Wg.Import.{import_interface}
use wgrift.Wg.Import.Refused.{NoPeersImported, import_interface-NoPeersImported}
use wgrift.Wg.Consistent.Reachable.{
  started, stepped, creates_interface, adds_peer, Reachable-IsConsistent,
}
use wgrift.App.Reads.{Reads}
use wgrift.Wg.ClientConf.{generate_config}
use wgrift.Wg.ClientConf.Sound.{IsClientFile, generate_config-Reads}
use wgrift.Tests.Fixtures.{calm, wg0, laptop_row, one_interface, world_of}
use wgrift.Tests.ConfgenTests.{parsed_server}

merged_parts_lem_example :
    merged_parts (codes "10.0.0.2/32") (codes "10.0.0.0/24, ,10.0.0.2/32")
    ≡ first_occurrences (
        trim_space (codes "10.0.0.2/32")
        ∷ entries (split_at b',' (codes "10.0.0.0/24, ,10.0.0.2/32")))
merged_parts_lem_example =
    merged_parts_lem (codes "10.0.0.2/32") (codes "10.0.0.0/24, ,10.0.0.2/32")

sync_interface-Synced_example :
    Synced calm
      (codes "wg0")
      (world_of one_interface)
      (sync_interface (codes "wg0") calm (world_of one_interface))
sync_interface-Synced_example = sync_interface-Synced calm (codes "wg0") (world_of one_interface)

import_interface-NoPeersImported_example :
    NoPeersImported (world_of empty_db) (codes "wg1") (
      import_interface parsed_server (codes "wg1") (codes "client-access") calm (world_of empty_db))
import_interface-NoPeersImported_example =
    import_interface-NoPeersImported calm (world_of empty_db) parsed_server (codes "wg1")
      (codes "client-access") _ [] refl

-- An interface is created, and a peer is added to it.
abbrev with_peer : World
with_peer =
    (add_peer laptop_row true calm (manager_create_interface wg0 calm (world_of empty_db)).1).1

Reachable-IsConsistent_example : IsConsistent with_peer.db
Reachable-IsConsistent_example =
    Reachable-IsConsistent calm with_peer (λ t. refl)
      (stepped (add_peer laptop_row true) (manager_create_interface wg0 calm (world_of empty_db)).1
        (adds_peer laptop_row true)
        (stepped (manager_create_interface wg0) (world_of empty_db) (creates_interface wg0)
          (started (world_of empty_db) refl)))

generate_config-Reads_example :
    Reads calm one_interface
      (IsClientFile calm one_interface (codes "192.0.2.1") (codes "p1"))
      (generate_config (codes "192.0.2.1") (codes "p1"))
generate_config-Reads_example =
    generate_config-Reads calm one_interface (codes "192.0.2.1") (codes "p1")
