-- ===== src/Server/Answers/Rows.antt =====
-- The handlers of users, peers and interfaces in internal/server: what they answer.
use wgrift.Base.{Bool, Option, none, some, Text}
use wgrift.Base.Result.{Result, ok, err}
use wgrift.Models.{User, Interface, Peer}
use wgrift.App.{Env, App}
use wgrift.Confgen.Parse.{ParsedConfig, ParseError}
use wgrift.Server.{Server, Request}
use wgrift.Server.Answers.{Answers, answers_rules}
use wgrift.Server.Response.{Response, Decoded}
use wgrift.Server.Smtp.{SmtpSettings}
use wgrift.Server.Users.{
  CreateUserRequest, handle_create_user, create_user_with_role, handle_change_password,
  set_password, user_or_not_found,
}
use wgrift.Server.Peers.{
  AddPeerRequest, UpdatePeerRequest, if_ip_free, create_peer_for, check_and_save_peer, save_peer,
  handle_add_peer, handle_update_peer, handle_set_peer_private_key, store_private_key,
}
use wgrift.Server.Email.{
  EmailRequest, with_smtp, if_address, email_config, handle_email_peer_config,
}
use wgrift.Server.Interfaces.{
  CreateInterfaceRequest, UpdateInterfaceRequest, ImportConfigRequest, handle_create_interface,
  handle_update_interface, save_interface, handle_import_interface, if_parsed, import_as,
}
use wgrift.Server.Running.{AdoptRequest, handle_adopt_interface, adopt_as}

module _ {env : Env} where
  set_password-Answers : (password : Text) (user : User) → Answers env (set_password password user)
  unfolding set_password
  set_password-Answers password user = search answers_rules depth 12

  user_or_not_found-Answers :
      (password : Text) (found : Option User) → Answers env (user_or_not_found password found)
  user_or_not_found-Answers password none = search answers_rules depth 3
  user_or_not_found-Answers password (some u) = set_password-Answers password u

  pub handle_change_password-Answers :
      (s : Server) (caller : User) (id : Text) (body : Decoded Text)
      → Answers env (handle_change_password s caller id body)
  unfolding handle_change_password
  handle_change_password-Answers s caller id body =
      search (answers_rules, user_or_not_found-Answers) depth 12

  pub handle_create_user-Answers :
      (s : Server) (caller : User) (body : Decoded CreateUserRequest)
      → Answers env (handle_create_user s caller body)
  unfolding handle_create_user create_user_with_role
  handle_create_user-Answers s caller body = search answers_rules depth 16

  if_ip_free-Answers :
      (check : App Bool) (next : App Response) (h : Answers env next)
      → Answers env (if_ip_free check next)
  unfolding if_ip_free
  if_ip_free-Answers check next h = search answers_rules depth 12

  pub handle_add_peer-Answers :
      (iface_id : Text) (body : Decoded AddPeerRequest)
      → Answers env (handle_add_peer iface_id body)
  unfolding handle_add_peer create_peer_for
  handle_add_peer-Answers iface_id body = search (answers_rules, if_ip_free-Answers) depth 16

  check_and_save_peer-Answers :
      (req : UpdatePeerRequest) (peer : Peer) → Answers env (check_and_save_peer req peer)
  unfolding check_and_save_peer save_peer
  check_and_save_peer-Answers req peer = search answers_rules depth 12

  pub handle_update_peer-Answers :
      (id : Text) (body : Decoded UpdatePeerRequest) → Answers env (handle_update_peer id body)
  unfolding handle_update_peer
  handle_update_peer-Answers id body =
      search (answers_rules, if_ip_free-Answers, check_and_save_peer-Answers) depth 16

  pub handle_set_peer_private_key-Answers :
      (id : Text) (body : Decoded Text) → Answers env (handle_set_peer_private_key id body)
  unfolding handle_set_peer_private_key store_private_key
  handle_set_peer_private_key-Answers id body = search answers_rules depth 16

  pub if_address-Answers :
      (to : Text) (next : App Response) (h : Answers env next) → Answers env (if_address to next)
  unfolding if_address
  if_address-Answers to next h = search answers_rules depth 12

  pub with_smtp-Answers :
      (found : Option SmtpSettings) (next : SmtpSettings → App Response)
      → ((smtp : SmtpSettings) → Answers env (next smtp))
      → Answers env (with_smtp found next)
  with_smtp-Answers none next h = search answers_rules depth 3
  with_smtp-Answers (some smtp) next h = h smtp

  email_config-Answers :
      (s : Server) (r : Request) (id : Text) (req : EmailRequest)
      → Answers env (email_config s r id req)
  unfolding email_config
  email_config-Answers s r id req = search answers_rules depth 16

  pub handle_email_peer_config-Answers :
      (s : Server) (r : Request) (id : Text) (body : Decoded EmailRequest)
      → Answers env (handle_email_peer_config s r id body)
  unfolding handle_email_peer_config
  handle_email_peer_config-Answers s r id body =
      search (answers_rules, with_smtp-Answers, if_address-Answers, email_config-Answers) depth 12

  pub handle_create_interface-Answers :
      (body : Decoded CreateInterfaceRequest) → Answers env (handle_create_interface body)
  unfolding handle_create_interface
  handle_create_interface-Answers body = search (answers_rules, if_ip_free-Answers) depth 16

  save_interface-Answers :
      (req : UpdateInterfaceRequest) (iface : Interface) → Answers env (save_interface req iface)
  unfolding save_interface
  save_interface-Answers req iface = search answers_rules depth 12

  pub handle_update_interface-Answers :
      (id : Text) (body : Decoded UpdateInterfaceRequest)
      → Answers env (handle_update_interface id body)
  unfolding handle_update_interface
  handle_update_interface-Answers id body =
      search (answers_rules, if_ip_free-Answers, save_interface-Answers) depth 16

  if_parsed-Answers :
      (parsed : Result ParseError ParsedConfig) (next : ParsedConfig → App Response)
      → ((c : ParsedConfig) → Answers env (next c))
      → Answers env (if_parsed parsed next)
  if_parsed-Answers (ok c) next h = h c
  if_parsed-Answers (err e) next h = search answers_rules depth 3

  import_as-Answers : (req : ImportConfigRequest) (c : ParsedConfig) → Answers env (import_as req c)
  unfolding import_as
  import_as-Answers req c = search answers_rules depth 12

  pub handle_import_interface-Answers :
      (body : Decoded ImportConfigRequest) → Answers env (handle_import_interface body)
  unfolding handle_import_interface
  handle_import_interface-Answers body =
      search (answers_rules, if_parsed-Answers, import_as-Answers) depth 12

  adopt_as-Answers :
      (id : Text) (interface_type : Text) (c : ParsedConfig)
      → Answers env (adopt_as id interface_type c)
  unfolding adopt_as
  adopt_as-Answers id interface_type c = search answers_rules depth 12

  pub handle_adopt_interface-Answers :
      (body : Decoded AdoptRequest) → Answers env (handle_adopt_interface body)
  unfolding handle_adopt_interface
  handle_adopt_interface-Answers body =
      search (answers_rules, if_parsed-Answers, adopt_as-Answers) depth 12
