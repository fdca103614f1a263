-- ===== src/Store/Interfaces.antt =====
-- The interface methods of internal/store/store.go.
use wgrift.Base.{
  Bool, not, ◌&&◌, Option, List, [], ◌∷◌, ◌++◌, Text, text_eq, select, find_first, any, leb,
  if◌then◌else◌,
}
use wgrift.Base.Result.{Result, ok, err}
use wgrift.Models.{Interface}
use wgrift.Store.Db.{
  Db, Constraint, check_failed, not_unique, update_where, delete_where, order_by,
  interface_type_allowed, interface_exists,
}
use wgrift.App.{App, pure, ◌>>=◌, ◌>>◌, wrapping, time_now, query, execute}

-- `INSERT INTO interfaces`.
unfoldable pub insert_interface : Interface → Bool → Db → Result Constraint Db
insert_interface i fk db =
    if not (interface_type_allowed i.interface_type)
    then err check_failed
    else if interface_exists i.id db
    then err not_unique
    else ok (record db { interfaces = db.interfaces ++ i ∷ [] })

unfoldable pub create_interface : Interface → App Interface
unfolding insert_interface
create_interface iface = do
  now ← time_now
  let row = record iface { created_at = now; updated_at = now }
  wrapping "inserting interface" (execute (insert_interface row))
  pure row

unfoldable pub select_interface : Text → Db → Option Interface
select_interface id db = find_first (λ i. text_eq i.id id) db.interfaces

-- `none` is the nil of a missing row.
unfoldable pub get_interface : Text → App (Option Interface)
unfolding select_interface
get_interface id = wrapping "querying interface" (query (select_interface id))

unfoldable pub select_interfaces : Db → List Interface
select_interfaces db = order_by (λ a b. leb a.created_at b.created_at) db.interfaces

unfoldable pub list_interfaces : App (List Interface)
unfolding select_interfaces
list_interfaces = wrapping "querying interfaces" (query select_interfaces)

-- `UPDATE interfaces SET … WHERE id=?`: the row keeps its creation time.
unfoldable pub set_interface : Interface → Bool → Db → Result Constraint Db
set_interface i fk db =
    if interface_exists i.id db && not (interface_type_allowed i.interface_type)
    then err check_failed
    else ok (record db {
      interfaces =
          update_where (λ old. text_eq old.id i.id)
            (λ old. record i { created_at = old.created_at }) db.interfaces;
    })

unfoldable pub update_interface : Interface → App Interface
unfolding set_interface
update_interface iface = do
  now ← time_now
  let row = record iface { updated_at = now }
  wrapping "updating interface" (execute (set_interface row))
  pure row

-- `DELETE FROM interfaces`, with `ON DELETE CASCADE` to the peers and from them to their logs
-- where the connection enforces foreign keys.
unfoldable pub remove_interface : Text → Bool → Db → Result Constraint Db
remove_interface id fk db =
    let gone = select (λ p. text_eq p.interface_id id) db.peers in
    let kept = record db { interfaces = delete_where (λ i. text_eq i.id id) db.interfaces } in
    ok (
      if fk
      then record kept {
        peers = delete_where (λ p. text_eq p.interface_id id) db.peers;
        connection_logs =
            delete_where (λ l. any (λ p. text_eq p.id l.peer_id) gone) db.connection_logs;
      }
      else kept)

unfoldable pub delete_interface : Text → App (Unit {0})
unfolding remove_interface
delete_interface id = wrapping "deleting interface" (execute (remove_interface id))
