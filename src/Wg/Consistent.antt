-- ===== src/Wg/Consistent.antt =====
-- The operations of internal/wg/manager.go and the consistency of the tables, where every connection
-- enforces foreign keys.
pub mod Reachable
use wgrift.Base.{
  ℕ, ◌≡◌, Bool, true, false, not, Option, none, some, List, [], ◌∷◌, Text, is_nil, if◌then◌else◌,
}
use wgrift.Base.Result.{Result, ok, err}
use wgrift.Models.{Interface, Peer}
use wgrift.Store.Db.{Db}
use wgrift.App.{App, Env, Error, NetCall, execute, fail, pure, net_call, attempt}
use wgrift.App.Keeps.{
  Keeps, keeps_rules, Keeps-if, Keeps-pure, Keeps-fail, Keeps-bind, Keeps-external_call,
  Keeps-attempt, Keeps-net_call, Keeps-wrapping,
}
use wgrift.Store.Consistent.{IsConsistent}
use wgrift.Store.Consistent.Methods.{
  create_interface-Keeps, update_interface-Keeps, delete_interface-Keeps, create_peer-Keeps,
  update_peer-Keeps, delete_peer-Keeps, get_interface-Keeps, list_interfaces-Keeps, get_peer-Keeps,
  list_peers-Keeps,
}
use wgrift.Confgen.Parse.{ParsedConfig, ParsedPeer}
use wgrift.Confgen.Generate.{ServerConfParams}
use wgrift.Wg.Sync.{
  decrypt, encrypt, peer_block, collect_blocks, apply_conf, sync_enabled, sync_found,
  sync_interface,
}
use wgrift.Wg.Manager.{
  generate_key_pair, manager_create_interface, refuse_if_peers, required, manager_delete_interface,
  with_psk, add_peer, manager_remove_peer, set_peer_enabled, fall_back, quick_up_or_sync,
  start_interface, quick_down_or_set_down, stop_interface, restart_interface,
}
use wgrift.Wg.Import.{with_imported_psk, imported_peer, import_peers, import_interface}

module _ {env : Env} {P : Db → Type 0} where
  pub decrypt-Keeps : (t : Text) → Keeps env P (decrypt t)
  unfolding decrypt
  decrypt-Keeps t = Keeps-external_call _

  encrypt-Keeps : (t : Text) → Keeps env P (encrypt t)
  unfolding encrypt
  encrypt-Keeps t = Keeps-external_call _

  generate_key_pair-Keeps : Keeps env P generate_key_pair
  unfolding generate_key_pair
  generate_key_pair-Keeps = Keeps-external_call _

  peer_block-Keeps : (p : Peer) → Keeps env P (peer_block p)
  unfolding peer_block
  peer_block-Keeps p = search (keeps_rules, decrypt-Keeps) depth 12

  collect_blocks-Keeps : (ps : List Peer) → Keeps env P (collect_blocks ps)
  unfolding collect_blocks
  collect_blocks-Keeps [] = search keeps_rules
  collect_blocks-Keeps (p ∷ ps) = Keeps-if (not p.enabled) _ _ (collect_blocks-Keeps ps) (
      Keeps-bind _ _ (peer_block-Keeps p)
        (λ b. Keeps-bind _ _ (collect_blocks-Keeps ps) (λ bs. Keeps-pure _)))

  apply_conf-Keeps : (id : Text) (c : ServerConfParams) (b : Bool) → Keeps env P (apply_conf id c b)
  unfolding apply_conf
  apply_conf-Keeps id c true = search keeps_rules depth 12
  apply_conf-Keeps id c false = search keeps_rules depth 12

  sync_enabled-Keeps : (id : Text) (i : Interface) → Keeps env P (sync_enabled id i)
  unfolding sync_enabled
  sync_enabled-Keeps id i =
      search (keeps_rules, decrypt-Keeps, list_peers-Keeps, collect_blocks-Keeps, apply_conf-Keeps)
        depth 16

  sync_found-Keeps : (id : Text) (found : Option Interface) → Keeps env P (sync_found id found)
  unfolding sync_found
  sync_found-Keeps id none = search keeps_rules
  sync_found-Keeps id (some i) = search (keeps_rules, sync_enabled-Keeps) depth 12

  -- A sync changes nothing in the store.
  pub sync_interface-Keeps : (id : Text) → Keeps env P (sync_interface id)
  unfolding sync_interface
  sync_interface-Keeps id = search (keeps_rules, get_interface-Keeps, sync_found-Keeps) depth 12

  pub required-Keeps : {A : Type 0} (e : Error) (found : Option A) → Keeps env P (required e found)
  required-Keeps e none = Keeps-fail e
  required-Keeps e (some a) = Keeps-pure a

  refuse_if_peers-Keeps : (id : Text) (force : Bool) → Keeps env P (refuse_if_peers id force)
  unfolding refuse_if_peers
  refuse_if_peers-Keeps id true = search keeps_rules
  refuse_if_peers-Keeps id false = search (keeps_rules, list_peers-Keeps) depth 12

  fall_back-Keeps :
      (m : App (Unit {0})) (r : Result Error (Unit {0}))
      → Keeps env P m
      → Keeps env P (fall_back m r)
  unfolding fall_back
  fall_back-Keeps m (ok u) k = Keeps-pure tt
  fall_back-Keeps m (err e) k = k

  quick_up_or_sync-Keeps : (id : Text) → Keeps env P (quick_up_or_sync id)
  unfolding quick_up_or_sync
  quick_up_or_sync-Keeps id = search (keeps_rules, fall_back-Keeps, sync_interface-Keeps) depth 12

  quick_down_or_set_down-Keeps : (id : Text) → Keeps env P (quick_down_or_set_down id)
  unfolding quick_down_or_set_down
  quick_down_or_set_down-Keeps id = search (keeps_rules, fall_back-Keeps) depth 12

  with_psk-Keeps : (b : Bool) (p : Peer) → Keeps env P (with_psk b p)
  unfolding with_psk
  with_psk-Keeps true p = search (keeps_rules, encrypt-Keeps) depth 12
  with_psk-Keeps false p = Keeps-pure p

  with_imported_psk-Keeps : (psk : Text) (p : Peer) → Keeps env P (with_imported_psk psk p)
  unfolding with_imported_psk
  with_imported_psk-Keeps psk p = search (keeps_rules, encrypt-Keeps) depth 12

module _ {env : Env} (enforced : (t : ℕ) → env.foreign_keys t ≡ true) where
  pub manager_create_interface-Keeps :
      (i : Interface) → Keeps env IsConsistent (manager_create_interface i)
  unfolding manager_create_interface
  manager_create_interface-Keeps i =
      search (keeps_rules, generate_key_pair-Keeps, encrypt-Keeps, create_interface-Keeps) depth 16

  pub manager_delete_interface-Keeps :
      (id : Text) (force : Bool) → Keeps env IsConsistent (manager_delete_interface id force)
  unfolding manager_delete_interface
  manager_delete_interface-Keeps id force =
      search
        (
          keeps_rules, get_interface-Keeps, required-Keeps, refuse_if_peers-Keeps,
          delete_interface-Keeps,
        )
        depth 16

  pub add_peer-Keeps : (p : Peer) (psk : Bool) → Keeps env IsConsistent (add_peer p psk)
  unfolding add_peer
  add_peer-Keeps p psk =
      search
        (
          keeps_rules, get_interface-Keeps, required-Keeps, generate_key_pair-Keeps, encrypt-Keeps,
          with_psk-Keeps, create_peer-Keeps, sync_interface-Keeps,
        )
        depth 20

  pub manager_remove_peer-Keeps : (id : Text) → Keeps env IsConsistent (manager_remove_peer id)
  unfolding manager_remove_peer
  manager_remove_peer-Keeps id =
      search (keeps_rules, get_peer-Keeps, required-Keeps, delete_peer-Keeps, sync_interface-Keeps)
        depth 16

  pub set_peer_enabled-Keeps :
      (id : Text) (on : Bool) → Keeps env IsConsistent (set_peer_enabled id on)
  unfolding set_peer_enabled
  set_peer_enabled-Keeps id on =
      search (keeps_rules, get_peer-Keeps, required-Keeps, update_peer-Keeps, sync_interface-Keeps)
        depth 16

  pub start_interface-Keeps : (id : Text) → Keeps env IsConsistent (start_interface id)
  unfolding start_interface
  start_interface-Keeps id =
      search
        (
          keeps_rules, get_interface-Keeps, required-Keeps, update_interface-Keeps,
          quick_up_or_sync-Keeps,
        )
        depth 16

  pub stop_interface-Keeps : (id : Text) → Keeps env IsConsistent (stop_interface id)
  unfolding stop_interface
  stop_interface-Keeps id =
      search
        (
          keeps_rules, get_interface-Keeps, required-Keeps, quick_down_or_set_down-Keeps,
          update_interface-Keeps,
        )
        depth 16

  pub restart_interface-Keeps : (id : Text) → Keeps env IsConsistent (restart_interface id)
  unfolding restart_interface
  restart_interface-Keeps id = search (keeps_rules, quick_up_or_sync-Keeps) depth 12

  import_peers-Keeps :
      (id : Text) (ps : List ParsedPeer) → Keeps env IsConsistent (import_peers id ps)
  unfolding import_peers
  import_peers-Keeps id [] = Keeps-pure tt
  import_peers-Keeps id (pp ∷ rest) =
      Keeps-bind _ _ (with_imported_psk-Keeps pp.preshared_key (imported_peer id pp)) (λ p.
        Keeps-bind _ _ (Keeps-wrapping _ _ (create_peer-Keeps enforced p))
          (λ u. import_peers-Keeps id rest))

  pub import_interface-Keeps :
      (c : ParsedConfig) (id t : Text) → Keeps env IsConsistent (import_interface c id t)
  unfolding import_interface
  import_interface-Keeps c id t =
      search (keeps_rules, encrypt-Keeps, create_interface-Keeps, import_peers-Keeps) depth 16
