-- ===== src/Server/Consistent/Rows.antt =====
-- The handlers of users, peers and interfaces in internal/server and the consistency of the tables.
use wgrift.Base.{ℕ, ◌≡◌, Bool, true, Option, none, some, Text}
use wgrift.Base.Result.{Result, ok, err}
use wgrift.Models.{Interface, Peer, User}
use wgrift.App.{Env, App}
use wgrift.App.Keeps.{Keeps, keeps_rules}
use wgrift.Confgen.Parse.{ParsedConfig, ParseError}
use wgrift.Store.Consistent.{IsConsistent}
use wgrift.Store.Consistent.Methods.{
  create_user-Keeps, update_user-Keeps, delete_user-Keeps, get_user-Keeps, update_peer-Keeps,
  get_peer-Keeps, update_interface-Keeps, get_interface-Keeps,
}
use wgrift.Wg.Consistent.{
  sync_interface-Keeps, manager_create_interface-Keeps, manager_delete_interface-Keeps,
  add_peer-Keeps, manager_remove_peer-Keeps, set_peer_enabled-Keeps, start_interface-Keeps,
  stop_interface-Keeps, restart_interface-Keeps, import_interface-Keeps,
}
use wgrift.Wg.Manager.{enable_peer, disable_peer}
use wgrift.Oidc.Consistent.{hash_password-Keeps, validate_password_strength-Keeps}
use wgrift.Server.{Server}
use wgrift.Server.Reading.{handler_rules, is_tunnel_ip_in_use-Keeps, check_if_given-Keeps}
use wgrift.Server.Response.{Response, Decoded}
use wgrift.Server.Users.{
  CreateUserRequest, handle_create_user, create_user_with_role, handle_delete_user,
  handle_change_password, set_password, user_or_not_found,
}
use wgrift.Server.Peers.{
  AddPeerRequest, UpdatePeerRequest, if_ip_free, create_peer_for, check_and_save_peer, save_peer,
  handle_add_peer, handle_update_peer, handle_delete_peer, handle_enable_peer, handle_disable_peer,
  handle_set_peer_private_key, store_private_key,
}
use wgrift.Server.Interfaces.{
  CreateInterfaceRequest, UpdateInterfaceRequest, ImportConfigRequest, handle_create_interface,
  handle_update_interface, save_interface, handle_delete_interface, handle_sync_interface,
  handle_import_interface, if_parsed, import_as,
}
use wgrift.Server.Running.{
  AdoptRequest, handle_adopt_interface, adopt_as, handle_start_interface, handle_stop_interface,
  handle_restart_interface,
}

module _ {env : Env} (enforced : (t : ℕ) → env.foreign_keys t ≡ true) where
  set_password-Keeps :
      (password : Text) (user : User) → Keeps env IsConsistent (set_password password user)
  unfolding set_password
  set_password-Keeps password user =
      search (handler_rules, hash_password-Keeps, update_user-Keeps) depth 16

  user_or_not_found-Keeps :
      (password : Text) (found : Option User)
      → Keeps env IsConsistent (user_or_not_found password found)
  user_or_not_found-Keeps password none = search keeps_rules
  user_or_not_found-Keeps password (some u) = set_password-Keeps password u

  pub handle_change_password-Keeps :
      (s : Server) (user : User) (id : Text) (body : Decoded Text)
      → Keeps env IsConsistent (handle_change_password s user id body)
  unfolding handle_change_password
  handle_change_password-Keeps s user id body =
      search
        (handler_rules, user_or_not_found-Keeps, get_user-Keeps, validate_password_strength-Keeps)
        depth 16

  pub handle_create_user-Keeps :
      (s : Server) (user : User) (body : Decoded CreateUserRequest)
      → Keeps env IsConsistent (handle_create_user s user body)
  unfolding handle_create_user create_user_with_role
  handle_create_user-Keeps s user body =
      search
        (handler_rules, validate_password_strength-Keeps, hash_password-Keeps, create_user-Keeps)
        depth 20

  pub handle_delete_user-Keeps :
      (user : User) (id : Text) → Keeps env IsConsistent (handle_delete_user user id)
  unfolding handle_delete_user
  handle_delete_user-Keeps user id = search (handler_rules, delete_user-Keeps) depth 16

  if_ip_free-Keeps :
      (check : App Bool) (next : App Response)
      → Keeps env IsConsistent check
      → Keeps env IsConsistent next
      → Keeps env IsConsistent (if_ip_free check next)
  unfolding if_ip_free
  if_ip_free-Keeps check next hc hn = search handler_rules depth 8

  create_peer_for-Keeps :
      (iface_id : Text) (req : AddPeerRequest)
      → Keeps env IsConsistent (create_peer_for iface_id req)
  unfolding create_peer_for
  create_peer_for-Keeps iface_id req = search (handler_rules, add_peer-Keeps) depth 16

  pub handle_add_peer-Keeps :
      (iface_id : Text) (body : Decoded AddPeerRequest)
      → Keeps env IsConsistent (handle_add_peer iface_id body)
  unfolding handle_add_peer
  handle_add_peer-Keeps iface_id body =
      search
        (
          handler_rules, check_if_given-Keeps, if_ip_free-Keeps, is_tunnel_ip_in_use-Keeps,
          create_peer_for-Keeps,
        )
        depth 16

  check_and_save_peer-Keeps :
      (req : UpdatePeerRequest) (peer : Peer)
      → Keeps env IsConsistent (check_and_save_peer req peer)
  unfolding check_and_save_peer save_peer
  check_and_save_peer-Keeps req peer =
      search (handler_rules, check_if_given-Keeps, update_peer-Keeps, sync_interface-Keeps) depth 16

  pub handle_update_peer-Keeps :
      (id : Text) (body : Decoded UpdatePeerRequest)
      → Keeps env IsConsistent (handle_update_peer id body)
  unfolding handle_update_peer
  handle_update_peer-Keeps id body =
      search
        (
          handler_rules, get_peer-Keeps, check_and_save_peer-Keeps, if_ip_free-Keeps,
          is_tunnel_ip_in_use-Keeps,
        )
        depth 16

  pub handle_delete_peer-Keeps : (id : Text) → Keeps env IsConsistent (handle_delete_peer id)
  unfolding handle_delete_peer
  handle_delete_peer-Keeps id = search (handler_rules, manager_remove_peer-Keeps) depth 16

  pub handle_enable_peer-Keeps : (id : Text) → Keeps env IsConsistent (handle_enable_peer id)
  unfolding handle_enable_peer enable_peer
  handle_enable_peer-Keeps id = search (handler_rules, set_peer_enabled-Keeps) depth 16

  pub handle_disable_peer-Keeps : (id : Text) → Keeps env IsConsistent (handle_disable_peer id)
  unfolding handle_disable_peer disable_peer
  handle_disable_peer-Keeps id = search (handler_rules, set_peer_enabled-Keeps) depth 16

  pub handle_set_peer_private_key-Keeps :
      (id : Text) (body : Decoded Text)
      → Keeps env IsConsistent (handle_set_peer_private_key id body)
  unfolding handle_set_peer_private_key store_private_key
  handle_set_peer_private_key-Keeps id body =
      search (handler_rules, get_peer-Keeps, update_peer-Keeps) depth 20

  pub handle_create_interface-Keeps :
      (body : Decoded CreateInterfaceRequest)
      → Keeps env IsConsistent (handle_create_interface body)
  unfolding handle_create_interface
  handle_create_interface-Keeps body =
      search
        (handler_rules, if_ip_free-Keeps, is_tunnel_ip_in_use-Keeps, manager_create_interface-Keeps)
        depth 16

  save_interface-Keeps :
      (req : UpdateInterfaceRequest) (iface : Interface)
      → Keeps env IsConsistent (save_interface req iface)
  unfolding save_interface
  save_interface-Keeps req iface = search (handler_rules, update_interface-Keeps) depth 16

  pub handle_update_interface-Keeps :
      (id : Text) (body : Decoded UpdateInterfaceRequest)
      → Keeps env IsConsistent (handle_update_interface id body)
  unfolding handle_update_interface
  handle_update_interface-Keeps id body =
      search
        (
          handler_rules, get_interface-Keeps, save_interface-Keeps, if_ip_free-Keeps,
          is_tunnel_ip_in_use-Keeps,
        )
        depth 16

  pub handle_delete_interface-Keeps :
      (id : Text) → Keeps env IsConsistent (handle_delete_interface id)
  unfolding handle_delete_interface
  handle_delete_interface-Keeps id = search (handler_rules, manager_delete_interface-Keeps) depth 16

  pub handle_sync_interface-Keeps : (id : Text) → Keeps env IsConsistent (handle_sync_interface id)
  unfolding handle_sync_interface
  handle_sync_interface-Keeps id = search (handler_rules, sync_interface-Keeps) depth 16

  pub handle_start_interface-Keeps :
      (id : Text) → Keeps env IsConsistent (handle_start_interface id)
  unfolding handle_start_interface
  handle_start_interface-Keeps id = search (handler_rules, start_interface-Keeps) depth 16

  pub handle_stop_interface-Keeps : (id : Text) → Keeps env IsConsistent (handle_stop_interface id)
  unfolding handle_stop_interface
  handle_stop_interface-Keeps id = search (handler_rules, stop_interface-Keeps) depth 16

  pub handle_restart_interface-Keeps :
      (id : Text) → Keeps env IsConsistent (handle_restart_interface id)
  unfolding handle_restart_interface
  handle_restart_interface-Keeps id = search (handler_rules, restart_interface-Keeps) depth 16

  if_parsed-Keeps :
      (parsed : Result ParseError ParsedConfig) (next : ParsedConfig → App Response)
      → ((c : ParsedConfig) → Keeps env IsConsistent (next c))
      → Keeps env IsConsistent (if_parsed parsed next)
  if_parsed-Keeps (ok c) next h = h c
  if_parsed-Keeps (err e) next h = search keeps_rules

  import_as-Keeps :
      (req : ImportConfigRequest) (c : ParsedConfig) → Keeps env IsConsistent (import_as req c)
  unfolding import_as
  import_as-Keeps req c = search (handler_rules, import_interface-Keeps) depth 16

  pub handle_import_interface-Keeps :
      (body : Decoded ImportConfigRequest) → Keeps env IsConsistent (handle_import_interface body)
  unfolding handle_import_interface
  handle_import_interface-Keeps body =
      search (handler_rules, if_parsed-Keeps, import_as-Keeps) depth 16

  adopt_as-Keeps :
      (id : Text) (interface_type : Text) (c : ParsedConfig)
      → Keeps env IsConsistent (adopt_as id interface_type c)
  unfolding adopt_as
  adopt_as-Keeps id interface_type c = search (handler_rules, import_interface-Keeps) depth 16

  pub handle_adopt_interface-Keeps :
      (body : Decoded AdoptRequest) → Keeps env IsConsistent (handle_adopt_interface body)
  unfolding handle_adopt_interface
  handle_adopt_interface-Keeps body =
      search (handler_rules, if_parsed-Keeps, adopt_as-Keeps) depth 16
