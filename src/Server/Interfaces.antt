-- ===== src/Server/Interfaces.antt =====
-- internal/server/handler_interfaces.go.
use wgrift.Base.{
  ℤ, pos, Bool, true, false, not, ◌||◌, [], Text, text_eq, is_nil, is_zero, is_positive,
  if◌then◌else◌,
}
use wgrift.Base.Result.{Result, ok, err}
use wgrift.Models.{Interface, site_to_site, client_access}
use wgrift.App.{App, Error, message, message_about, wrapped}
use wgrift.Store.Interfaces.{list_interfaces, get_interface, update_interface}
use wgrift.Store.TunnelIps.{is_tunnel_ip_in_use, extract_host_ip}
use wgrift.Confgen.Parse.{
  ParsedConfig, ParseError, invalid_listen_port, invalid_mtu, invalid_persistent_keepalive,
  reading_config, missing_private_key, index_out_of_range, parse_config,
}
use wgrift.Wg.Sync.{sync_interface}
use wgrift.Wg.Import.{import_interface}
use wgrift.Wg.Manager.{manager_create_interface, manager_delete_interface}
use wgrift.Server.Peers.{if_ip_free, if_filled}
use wgrift.Server.Response.{
  Response, Decoded, write_json, write_error, its_error, answering, with_json, or_not_found,
  status_is, the_interface, the_interfaces,
}

unfoldable pub handle_list_interfaces : App Response
handle_list_interfaces =
    answering (its_error 500) list_interfaces (λ ifaces. write_json 200 (the_interfaces ifaces))

pub record CreateInterfaceRequest : Type 0 where
  pub id : Text
  pub interface_type : Text
  pub listen_port : ℤ
  pub address : Text
  pub dns : Text
  pub mtu : ℤ
  pub endpoint : Text
  pub post_up : Text
  pub post_down : Text

abbrev pub is_interface_type : Text → Bool
is_interface_type t = text_eq t site_to_site || text_eq t client_access

abbrev pub created_interface : CreateInterfaceRequest → Interface
created_interface req = record {
  id = req.id;
  interface_type = req.interface_type;
  listen_port = req.listen_port;
  private_key_encrypted = [];
  address = req.address;
  dns = req.dns;
  mtu = if is_zero req.mtu then pos 1420 else req.mtu;
  endpoint = req.endpoint;
  post_up = req.post_up;
  post_down = req.post_down;
  enabled = false;
  created_at = 0;
  updated_at = 0;
}

unfoldable pub handle_create_interface : Decoded CreateInterfaceRequest → App Response
unfolding if_ip_free
handle_create_interface body = with_json body (λ req.
    if is_nil req.id || is_nil req.interface_type || is_zero req.listen_port || is_nil req.address
    then write_error 400 (message "id, type, listen_port, and address are required")
    else if not (is_interface_type req.interface_type)
    then write_error 400 (message "type must be 'site-to-site' or 'client-access'")
    else if_ip_free (is_tunnel_ip_in_use req.address [] []) (
        answering (its_error 500) (manager_create_interface (created_interface req))
          (λ iface. write_json 201 (the_interface iface))))

pub record UpdateInterfaceRequest : Type 0 where
  pub address : Text
  pub listen_port : ℤ
  pub dns : Text
  pub mtu : ℤ
  pub endpoint : Text
  pub post_up : Text
  pub post_down : Text

unfoldable pub updated_interface : UpdateInterfaceRequest → Interface → Interface
updated_interface req iface = record iface {
  address = if_filled iface.address req.address;
  listen_port = if is_positive req.listen_port then req.listen_port else iface.listen_port;
  dns = req.dns;
  endpoint = req.endpoint;
  post_up = req.post_up;
  post_down = req.post_down;
  mtu = if is_positive req.mtu then req.mtu else iface.mtu;
}

unfoldable pub save_interface : UpdateInterfaceRequest → Interface → App Response
unfolding updated_interface
save_interface req iface =
    answering (its_error 500) (update_interface (updated_interface req iface))
      (λ row. write_json 200 (the_interface row))

unfoldable pub handle_update_interface : Text → Decoded UpdateInterfaceRequest → App Response
unfolding save_interface if_ip_free
handle_update_interface id body = answering (its_error 500) (get_interface id) (λ found.
    or_not_found "interface not found" found (λ iface. with_json body (λ req.
      if is_nil req.address || text_eq (extract_host_ip req.address) (extract_host_ip iface.address)
      then save_interface req iface
      else if_ip_free (is_tunnel_ip_in_use req.address [] iface.id) (save_interface req iface))))

unfoldable pub handle_get_interface : Text → App Response
handle_get_interface id = answering (its_error 500) (get_interface id) (λ found.
    or_not_found "interface not found" found (λ iface. write_json 200 (the_interface iface)))

unfoldable pub handle_delete_interface : Text → App Response
handle_delete_interface id =
    answering (its_error 500) (manager_delete_interface id true)
      (λ _. write_json 200 (status_is "deleted"))

unfoldable pub handle_sync_interface : Text → App Response
handle_sync_interface id =
    answering (its_error 500) (sync_interface id) (λ _. write_json 200 (status_is "synced"))

pub record ImportConfigRequest : Type 0 where
  pub id : Text
  pub interface_type : Text
  pub config : Text

abbrev pub parse_message : ParseError → Error
parse_message (invalid_listen_port v) = message_about "invalid ListenPort %q" v
parse_message (invalid_mtu v) = message_about "invalid MTU %q" v
parse_message (invalid_persistent_keepalive v) = message_about "invalid PersistentKeepalive %q" v
parse_message reading_config = message "reading config"
parse_message missing_private_key = message "missing PrivateKey in [Interface] section"
parse_message index_out_of_range = message "index out of range"

-- The error of `ParseConfig` goes back to the client.
abbrev pub if_parsed : Result ParseError ParsedConfig → (ParsedConfig → App Response) → App Response
if_parsed (ok parsed) next = next parsed
if_parsed (err e) next = write_error 400 (wrapped "invalid config" (parse_message e))

unfoldable pub import_as : ImportConfigRequest → ParsedConfig → App Response
import_as req parsed =
    answering (its_error 500) (import_interface parsed req.id req.interface_type)
      (λ iface. write_json 201 (the_interface iface))

unfoldable pub handle_import_interface : Decoded ImportConfigRequest → App Response
unfolding import_as
handle_import_interface body = with_json body (λ req.
    if is_nil req.id || is_nil req.interface_type || is_nil req.config
    then write_error 400 (message "id, type, and config are required")
    else if not (is_interface_type req.interface_type)
    then write_error 400 (message "type must be 'site-to-site' or 'client-access'")
    else if_parsed (parse_config req.config) (import_as req))
