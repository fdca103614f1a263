-- ===== src/Store/Peers/Listed.antt =====
-- What `ListPeers` of internal/store/store.go returns.
use wgrift.Base.{◌≡◌, Bool, List, Text, text_eq, select}
use wgrift.Models.{Peer}
use wgrift.App.{Env}
use wgrift.App.Reads.{Reads, Reads-wrapping, Reads-query}
use wgrift.Store.Db.{Db}
use wgrift.Store.Db.Order.{IsSorted, count, order_by-IsSorted, count-order_by}
use wgrift.Store.Peers.{created_before, select_peers, list_peers}

-- The peers of the interface, the earliest first: as many pass any test as in the table.
pub record IsListing (interface_id : Text) (db : Db) (ps : List Peer) : Type 0 where
  pub in_order : IsSorted (λ p. p.created_at) ps
  pub same_rows :
      (q : Peer → Bool)
      → count q ps ≡ count q (select (λ p. text_eq p.interface_id interface_id) db.peers)

select_peers-IsListing : (id : Text) (db : Db) → IsListing id db (select_peers id db)
unfolding select_peers
select_peers-IsListing id db = record {
  in_order =
      order_by-IsSorted (λ p. p.created_at) (select (λ p. text_eq p.interface_id id) db.peers);
  same_rows =
      λ q. count-order_by created_before q (select (λ p. text_eq p.interface_id id) db.peers);
}

-- Where the read succeeds, the peers of the interface and no others are returned, each as often as
-- it is in the table, in the order of their creation. Nothing is written.
pub list_peers-Reads :
    (env : Env) (db : Db) (id : Text) → Reads env db (IsListing id db) (list_peers id)
unfolding list_peers
list_peers-Reads env db id = Reads-wrapping _ _ _ (Reads-query _ _ (select_peers-IsListing id db))
