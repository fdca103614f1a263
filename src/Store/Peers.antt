-- ===== src/Store/Peers.antt =====
-- The peer methods of internal/store/store.go.
pub mod Lookup
pub mod Listed
use wgrift.Base.{
  pos, Bool, not, ◌&&◌, Option, none, List, [], ◌∷◌, ◌++◌, Text, text_eq, select, find_first, any,
  is_nil, leb, if◌then◌else◌,
}
use wgrift.Base.Result.{Result, ok, err}
use wgrift.Models.{Peer}
use wgrift.Store.Db.{
  Db, Constraint, check_failed, not_unique, foreign_key_failed, update_where, delete_where,
  order_by, peer_type_allowed, interface_exists, peer_exists,
}
use wgrift.App.{App, pure, ◌>>=◌, ◌>>◌, wrapping, time_now, new_uuid, query, execute}

-- `INSERT INTO peers`, with the columns that it leaves to their defaults.
unfoldable pub insert_peer : Peer → Bool → Db → Result Constraint Db
insert_peer p fk db =
    let row = record p { last_handshake = none; transfer_rx = pos 0; transfer_tx = pos 0 } in
    if not (peer_type_allowed p.peer_type)
    then err check_failed
    else if peer_exists p.id db
    then err not_unique
    else if any (λ q. text_eq q.public_key p.public_key) db.peers
    then err not_unique
    else if fk && not (interface_exists p.interface_id db)
    then err foreign_key_failed
    else ok (record db { peers = db.peers ++ row ∷ [] })

-- A peer with no id is given one.
unfoldable pub ensure_peer_id : Peer → App Peer
ensure_peer_id p = if is_nil p.id then (do id ← new_uuid; pure (record p { id = id })) else pure p

unfoldable pub create_peer : Peer → App Peer
unfolding ensure_peer_id insert_peer
create_peer peer = do
  named ← ensure_peer_id peer
  now ← time_now
  let row = record named { created_at = now; updated_at = now }
  wrapping "inserting peer" (execute (insert_peer row))
  pure row

unfoldable pub select_peer : Text → Db → Option Peer
select_peer id db = find_first (λ p. text_eq p.id id) db.peers

unfoldable pub get_peer : Text → App (Option Peer)
unfolding select_peer
get_peer id = wrapping "querying peer" (query (select_peer id))

abbrev pub created_before : Peer → Peer → Bool
created_before a b = leb a.created_at b.created_at

unfoldable pub select_peers : Text → Db → List Peer
select_peers interface_id db =
    order_by created_before (select (λ p. text_eq p.interface_id interface_id) db.peers)

unfoldable pub list_peers : Text → App (List Peer)
unfolding select_peers
list_peers interface_id = wrapping "querying peers" (query (select_peers interface_id))

unfoldable pub select_all_peers : Db → List Peer
select_all_peers db = order_by created_before db.peers

unfoldable pub list_all_peers : App (List Peer)
unfolding select_all_peers
list_all_peers = wrapping "querying all peers" (query select_all_peers)

-- `UPDATE peers SET … WHERE id=?`: the row keeps its creation time.
unfoldable pub set_peer : Peer → Bool → Db → Result Constraint Db
set_peer p fk db =
    if not (peer_exists p.id db)
    then ok db
    else if not (peer_type_allowed p.peer_type)
    then err check_failed
    else if any (λ q. not (text_eq q.id p.id) && text_eq q.public_key p.public_key) db.peers
    then err not_unique
    else if fk && not (interface_exists p.interface_id db)
    then err foreign_key_failed
    else ok (record db {
      peers =
          update_where (λ old. text_eq old.id p.id)
            (λ old. record p { created_at = old.created_at }) db.peers;
    })

unfoldable pub update_peer : Peer → App Peer
unfolding set_peer
update_peer peer = do
  now ← time_now
  let row = record peer { updated_at = now }
  wrapping "updating peer" (execute (set_peer row))
  pure row

-- `DELETE FROM peers`, with `ON DELETE CASCADE` to the connection logs.
unfoldable pub remove_peer : Text → Bool → Db → Result Constraint Db
remove_peer id fk db =
    let kept = record db { peers = delete_where (λ p. text_eq p.id id) db.peers } in
    ok (
      if fk
      then record kept {
        connection_logs = delete_where (λ l. text_eq l.peer_id id) db.connection_logs;
      }
      else kept)

unfoldable pub delete_peer : Text → App (Unit {0})
unfolding remove_peer
delete_peer id = wrapping "deleting peer" (execute (remove_peer id))
