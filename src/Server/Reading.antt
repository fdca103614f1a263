-- ===== src/Server/Reading.antt =====
-- The handlers of internal/server that only read, and how any handler keeps a property of the tables.
use Prim.Native.String.{String}
use wgrift.Base.{Option, none, some, List, [], ◌∷◌, Text}
use wgrift.Base.Result.{Result, ok, err}
use wgrift.Models.{Interface, Peer, User}
use wgrift.Store.Db.{Db}
use wgrift.App.{Env, App, Error}
use wgrift.App.Keeps.{Keeps, Keeps-bind, Keeps-attempt, Keeps-external_call, keeps_rules}
use wgrift.Store.Consistent.Methods.{
  get_interface-Keeps, list_interfaces-Keeps, get_peer-Keeps, list_peers-Keeps,
}
use wgrift.Store.Consistent.Settings.{list_oidc_providers-Keeps, get_setting-Keeps}
use wgrift.Store.Users.{list_users}
use wgrift.Store.Logs.{list_logs, list_connection_logs, list_peer_connection_logs}
use wgrift.Store.TunnelIps.{is_tunnel_ip_in_use}
use wgrift.Wg.Consistent.{required-Keeps, decrypt-Keeps}
use wgrift.Wg.Status.{get_status, peer_statuses, public_key_from_private}
use wgrift.App.{LivePeer}
use wgrift.Wg.ClientConf.{generate_config, require_key, decrypt_psk}
use wgrift.Poller.{Poller}
use wgrift.Server.{Server, Request, setting_or_blank, external_url}
use wgrift.Server.Smtp.{
  SmtpSettings, config_password, decrypt_password, stored_smtp, configured_smtp, smtp_settings,
  smtp_enabled,
}
use wgrift.Server.Response.{
  Response, DashboardResponse, answering, unless_error, or_not_found, Decoded,
}
use wgrift.Server.Settings.Mail.{
  load_smtp_settings_data, configured_data, stored_data, handle_test_smtp,
}
use wgrift.Server.Settings.{handle_get_settings}
use wgrift.Server.Email.{
  EmailRequest, with_smtp, if_address, email_config, send_mail, handle_email_peer_config,
}
use wgrift.Server.Users.{handle_list_users}
use wgrift.Server.Peers.{
  generate_png, check_emails, validate_emails, check_if_given, handle_list_peers,
  handle_peer_config, handle_peer_qr,
}
use wgrift.Server.Interfaces.{handle_list_interfaces, handle_get_interface}
use wgrift.Server.Running.{handle_interface_status}
use wgrift.Server.Logs.{handle_interface_logs, handle_peer_logs}
use wgrift.Server.Dashboard.{handle_dashboard, add_interfaces}

module _ {env : Env} {P : Db → Type 0} where
  pub Keeps-unless_error :
      {A : Type 0} (failed : Error → App Response) (r : Result Error A) (next : A → App Response)
      → ((e : Error) → Keeps env P (failed e))
      → ((a : A) → Keeps env P (next a))
      → Keeps env P (unless_error failed r next)
  Keeps-unless_error failed (ok a) next he ha = ha a
  Keeps-unless_error failed (err e) next he ha = he e

  pub Keeps-answering :
      {A : Type 0} (failed : Error → App Response) (m : App A) (next : A → App Response)
      → Keeps env P m
      → ((e : Error) → Keeps env P (failed e))
      → ((a : A) → Keeps env P (next a))
      → Keeps env P (answering failed m next)
  unfolding answering
  Keeps-answering failed m next hm he ha =
      Keeps-bind _ _ (Keeps-attempt m hm) (λ r. Keeps-unless_error failed r next he ha)

  pub Keeps-or_not_found :
      {A : Type 0} (text : String) (found : Option A) (next : A → App Response)
      → ((a : A) → Keeps env P (next a))
      → Keeps env P (or_not_found text found next)
  Keeps-or_not_found text none next h = search keeps_rules
  Keeps-or_not_found text (some a) next h = h a

  pub setting_or_blank-Keeps : (key : Text) → Keeps env P (setting_or_blank key)
  unfolding setting_or_blank
  setting_or_blank-Keeps key = search (keeps_rules, get_setting-Keeps) depth 5

pub ruleset handler_rules =
    (keeps_rules, Keeps-unless_error, Keeps-answering, Keeps-or_not_found, setting_or_blank-Keeps)

module _ {env : Env} {P : Db → Type 0} where
  pub external_url-Keeps : (s : Server) (r : Request) → Keeps env P (external_url s r)
  unfolding external_url
  external_url-Keeps s r = search handler_rules depth 14

  pub is_tunnel_ip_in_use-Keeps :
      (ip : Text) (peer : Text) (iface : Text) → Keeps env P (is_tunnel_ip_in_use ip peer iface)
  unfolding is_tunnel_ip_in_use
  is_tunnel_ip_in_use-Keeps ip peer iface = search handler_rules depth 14

  public_key_from_private-Keeps : (key : Text) → Keeps env P (public_key_from_private key)
  unfolding public_key_from_private
  public_key_from_private-Keeps key = Keeps-external_call _

  pub generate_config-Keeps : (ip : Text) (id : Text) → Keeps env P (generate_config ip id)
  unfolding generate_config require_key decrypt_psk
  generate_config-Keeps ip id =
      search
        (
          handler_rules, get_peer-Keeps, get_interface-Keeps, required-Keeps, decrypt-Keeps,
          public_key_from_private-Keeps,
        )
        depth 24

  peer_statuses-Keeps :
      (peers : List Peer) (device : Result Error (List LivePeer))
      → Keeps env P (peer_statuses peers device)
  peer_statuses-Keeps peers (err e) = search keeps_rules
  peer_statuses-Keeps peers (ok live) = search keeps_rules

  get_status-Keeps : (id : Text) → Keeps env P (get_status id)
  unfolding get_status
  get_status-Keeps id =
      search
        (
          handler_rules, get_interface-Keeps, required-Keeps, decrypt-Keeps,
          public_key_from_private-Keeps, list_peers-Keeps, peer_statuses-Keeps,
        )
        depth 24

  stored_smtp-Keeps : (host : Text) → Keeps env P (stored_smtp host)
  unfolding stored_smtp decrypt_password
  stored_smtp-Keeps host = search handler_rules depth 20

  smtp_settings-Keeps : (s : Server) → Keeps env P (smtp_settings s)
  unfolding smtp_settings configured_smtp config_password
  smtp_settings-Keeps s = search (handler_rules, stored_smtp-Keeps) depth 16

  pub smtp_enabled-Keeps : (s : Server) → Keeps env P (smtp_enabled s)
  unfolding smtp_enabled
  smtp_enabled-Keeps s = search handler_rules depth 14

  load_smtp_settings_data-Keeps : (s : Server) → Keeps env P (load_smtp_settings_data s)
  unfolding load_smtp_settings_data configured_data stored_data config_password
  load_smtp_settings_data-Keeps s = search handler_rules depth 20

  with_smtp-Keeps :
      (found : Option SmtpSettings) (next : SmtpSettings → App Response)
      → ((smtp : SmtpSettings) → Keeps env P (next smtp))
      → Keeps env P (with_smtp found next)
  with_smtp-Keeps none next h = search keeps_rules
  with_smtp-Keeps (some smtp) next h = h smtp

  if_address-Keeps :
      (to : Text) (next : App Response) (h : Keeps env P next) → Keeps env P (if_address to next)
  unfolding if_address
  if_address-Keeps to next h = search handler_rules depth 14

  check_emails-Keeps : (parts : List Text) → Keeps env P (check_emails parts)
  unfolding check_emails
  check_emails-Keeps [] = search keeps_rules
  check_emails-Keeps (part ∷ rest) =
      let more : Keeps env P (check_emails rest) = check_emails-Keeps rest in
      search keeps_rules depth 8

  pub check_if_given-Keeps : (emails : Text) → Keeps env P (check_if_given emails)
  unfolding validate_emails
  check_if_given-Keeps emails = search (handler_rules, check_emails-Keeps) depth 14

  pub handle_list_users-Keeps : (u : User) → Keeps env P (handle_list_users u)
  unfolding handle_list_users list_users
  handle_list_users-Keeps u = search (handler_rules, list_oidc_providers-Keeps) depth 14

  pub handle_list_peers-Keeps : (id : Text) → Keeps env P (handle_list_peers id)
  unfolding handle_list_peers
  handle_list_peers-Keeps id = search (handler_rules, list_peers-Keeps) depth 14

  pub handle_peer_config-Keeps : (s : Server) (id : Text) → Keeps env P (handle_peer_config s id)
  unfolding handle_peer_config
  handle_peer_config-Keeps s id =
      search (handler_rules, get_peer-Keeps, generate_config-Keeps) depth 14

  pub handle_peer_qr-Keeps : (s : Server) (id : Text) → Keeps env P (handle_peer_qr s id)
  unfolding handle_peer_qr generate_png
  handle_peer_qr-Keeps s id = search (handler_rules, generate_config-Keeps) depth 14

  pub handle_list_interfaces-Keeps : Keeps env P handle_list_interfaces
  unfolding handle_list_interfaces
  handle_list_interfaces-Keeps = search (handler_rules, list_interfaces-Keeps) depth 14

  pub handle_get_interface-Keeps : (id : Text) → Keeps env P (handle_get_interface id)
  unfolding handle_get_interface
  handle_get_interface-Keeps id = search (handler_rules, get_interface-Keeps) depth 14

  pub handle_interface_status-Keeps :
      (s : Server) (id : Text) → Keeps env P (handle_interface_status s id)
  unfolding handle_interface_status
  handle_interface_status-Keeps s id = search (handler_rules, get_status-Keeps) depth 14

  pub handle_interface_logs-Keeps :
      (id : Text) (limit : Text) (offset : Text)
      → Keeps env P (handle_interface_logs id limit offset)
  unfolding handle_interface_logs list_connection_logs list_logs
  handle_interface_logs-Keeps id limit offset = search handler_rules depth 14

  pub handle_peer_logs-Keeps :
      (id : Text) (limit : Text) (offset : Text) → Keeps env P (handle_peer_logs id limit offset)
  unfolding handle_peer_logs list_peer_connection_logs list_logs
  handle_peer_logs-Keeps id limit offset = search handler_rules depth 14

  pub handle_email_peer_config-Keeps :
      (s : Server) (r : Request) (id : Text) (body : Decoded EmailRequest)
      → Keeps env P (handle_email_peer_config s r id body)
  unfolding handle_email_peer_config email_config generate_png send_mail
  handle_email_peer_config-Keeps s r id body =
      search
        (
          handler_rules, smtp_settings-Keeps, with_smtp-Keeps, if_address-Keeps, get_peer-Keeps,
          generate_config-Keeps, external_url-Keeps,
        )
        depth 24

  pub handle_test_smtp-Keeps :
      (s : Server) (r : Request) (u : User) (body : Decoded Text)
      → Keeps env P (handle_test_smtp s r u body)
  unfolding handle_test_smtp send_mail
  handle_test_smtp-Keeps s r u body =
      search
        (handler_rules, smtp_settings-Keeps, with_smtp-Keeps, if_address-Keeps, external_url-Keeps)
        depth 24

  pub handle_get_settings-Keeps : (s : Server) (u : User) → Keeps env P (handle_get_settings s u)
  unfolding handle_get_settings
  handle_get_settings-Keeps s u =
      search (handler_rules, list_oidc_providers-Keeps, load_smtp_settings_data-Keeps) depth 16

  add_interfaces-Keeps :
      (poller : Poller) (ifaces : List Interface) (resp : DashboardResponse)
      → Keeps env P (add_interfaces poller resp ifaces)
  unfolding add_interfaces
  add_interfaces-Keeps poller [] resp = search keeps_rules
  add_interfaces-Keeps poller (iface ∷ ifaces) resp =
      Keeps-bind _ _ (Keeps-attempt _ (get_status-Keeps iface.id))
        (λ status. add_interfaces-Keeps poller ifaces _)

  pub handle_dashboard-Keeps : (s : Server) → Keeps env P (handle_dashboard s)
  unfolding handle_dashboard
  handle_dashboard-Keeps s =
      search (handler_rules, list_interfaces-Keeps, add_interfaces-Keeps) depth 14
