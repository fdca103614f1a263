-- ===== src/Tests/StoreWitnesses.antt =====
-- The theorems on the store at concrete tables.
use wgrift.Base.{
  ◌≡◌, refl, ◌&&◌, not, is_nil, true, none, some, [], ◌∷◌, codes, text_eq, if◌then◌else◌, any,
  select,
}
use wgrift.Base.Result.{ok}
use wgrift.Store.Db.{Db, peer_type_allowed, update_where, delete_where}
use wgrift.Store.Peers.{select_peer, insert_peer, set_peer, remove_peer}
use wgrift.Store.Peers.Lookup.{
  new_row, replaced, select_peer-insert_peer, select_peer-set_peer, select_peer-remove_peer,
}
use wgrift.Store.TunnelIps.{extract_host_ip, is_tunnel_ip_in_use}
use wgrift.Store.TunnelIps.Sound.{host_taken, is_tunnel_ip_in_use-Reads}
use wgrift.App.Reads.{Reads}
use wgrift.Store.Peers.{list_peers}
use wgrift.Store.Peers.Listed.{IsListing, list_peers-Reads}
use wgrift.Base.{map, pos, List, arith}
use wgrift.Base.{All}
use wgrift.Models.{ConnectionLog}
use wgrift.Store.Logs.{connected, disconnected, compute_log_durations}
use wgrift.Store.Logs.Durations.{
  IsNonNegative, without_duration, compute_log_durations-IsNonNegative,
}
use wgrift.Tests.Fixtures.{calm, laptop_row, phone_row, one_interface}

abbrev two_peers : Db
two_peers = record one_interface { peers = laptop_row ∷ new_row phone_row ∷ [] }

inserted : insert_peer phone_row true one_interface ≡ ok two_peers
unfolding insert_peer peer_type_allowed text_eq any
inserted = refl

select_peer-insert_peer_example : select_peer (codes "p2") two_peers ≡ (
    if text_eq (codes "p2") (codes "p2")
    then some (new_row phone_row)
    else select_peer (codes "p2") one_interface)
select_peer-insert_peer_example =
    select_peer-insert_peer phone_row true one_interface two_peers (codes "p2") inserted

updated : set_peer laptop_row true one_interface ≡ ok one_interface
unfolding set_peer peer_type_allowed text_eq any update_where
updated = refl

select_peer-set_peer_example : select_peer (codes "p1") one_interface ≡ (
    if text_eq (codes "p1") (codes "p1")
    then replaced laptop_row (select_peer (codes "p1") one_interface)
    else select_peer (codes "p1") one_interface)
select_peer-set_peer_example =
    select_peer-set_peer laptop_row true one_interface one_interface (codes "p1") updated

deleted : remove_peer (codes "p1") true one_interface ≡ ok (record one_interface { peers = [] })
unfolding remove_peer text_eq delete_where select
deleted = refl

select_peer-remove_peer_example :
    select_peer (codes "p1") (record one_interface { peers = [] })
    ≡ (if text_eq (codes "p1") (codes "p1") then none else select_peer (codes "p1") one_interface)
select_peer-remove_peer_example =
    select_peer-remove_peer (codes "p1") (codes "p1") true one_interface
      (record one_interface { peers = [] }) deleted

is_tunnel_ip_in_use-Reads_example :
    Reads calm one_interface
      (λ answer. answer ≡ (
        not (is_nil (extract_host_ip (codes "10.0.0.2")))
        && host_taken (extract_host_ip (codes "10.0.0.2")) [] [] one_interface))
      (is_tunnel_ip_in_use (codes "10.0.0.2") [] [])
is_tunnel_ip_in_use-Reads_example =
    is_tunnel_ip_in_use-Reads calm one_interface (codes "10.0.0.2") [] []

list_peers-Reads_example :
    Reads calm two_peers (IsListing (codes "wg0") two_peers) (list_peers (codes "wg0"))
list_peers-Reads_example = list_peers-Reads calm two_peers (codes "wg0")

abbrev logged : ConnectionLog
logged = record {
  id = 2;
  peer_id = codes "p1";
  peer_name = [];
  interface_id = codes "wg0";
  event = disconnected;
  endpoint = [];
  transfer_rx = pos 0;
  transfer_tx = pos 0;
  recorded_at = 9_000_000_000;
  duration = pos 0;
}

abbrev two_logs : List ConnectionLog
two_logs = logged ∷ record logged { id = 1; event = connected; recorded_at = 2_000_000_000 } ∷ []

compute_log_durations-IsNonNegative_example :
    All (λ l. IsNonNegative l.duration) (compute_log_durations two_logs)
    × (map without_duration (compute_log_durations two_logs) ≡ map without_duration two_logs)
compute_log_durations-IsNonNegative_example =
    compute_log_durations-IsNonNegative two_logs ((omega arith, tt), (tt, tt)) (tt, (tt, tt))
