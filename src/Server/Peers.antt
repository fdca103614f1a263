-- ===== src/Server/Peers.antt =====
-- internal/server/handler_peers.go and handler_email.go.
use wgrift.Base.{
  ℤ, pos, Bool, false, ◌||◌, Option, none, some, List, [], ◌∷◌, Text, text_eq, is_nil, split_at,
  trim_space, if◌then◌else◌,
}
use wgrift.Models.{Peer, client, site}
use wgrift.App.{
  App, Error, message, message_about, wrapped, pure, fail, ◌>>=◌, wrapping, external_call,
}
use wgrift.Store.Peers.{list_peers, get_peer, update_peer}
use wgrift.Store.TunnelIps.{is_tunnel_ip_in_use, extract_host_ip}
use wgrift.Wg.Sync.{sync_interface}
use wgrift.Wg.Manager.{add_peer, manager_remove_peer, enable_peer, disable_peer}
use wgrift.Wg.ClientConf.{generate_config}
use wgrift.Server.{Server}
use wgrift.Server.Response.{
  Response, response, Decoded, write_json, write_error, write_validation_error, its_error,
  answering, with_json, or_not_found, status_is, the_peer, the_peers, config_file, image,
}

unfoldable pub handle_list_peers : Text → App Response
handle_list_peers iface_id =
    answering (its_error 500) (list_peers iface_id) (λ peers. write_json 200 (the_peers peers))

pub record AddPeerRequest : Type 0 where
  pub peer_type : Text
  pub name : Text
  pub address : Text
  pub allowed_ips : Text
  pub client_allowed_ips : Text
  pub dns : Text
  pub endpoint : Text
  pub persistent_keepalive : ℤ
  pub psk : Bool
  pub alert_on_connect : Bool
  pub alert_on_disconnect : Bool
  pub alert_emails : Text

abbrev pub is_peer_type : Text → Bool
is_peer_type t = text_eq t client || text_eq t site

-- The parts between commas that are not blank are addresses.
unfoldable pub check_emails : List Text → App (Unit {0})
check_emails [] = pure tt
check_emails (part ∷ rest) =
    let more = check_emails rest in
    let address = trim_space part in
    let checked = (do
      valid ← external_call (λ env t. some (env.parse_address address))
      if valid then more else fail (message_about "invalid email address: %s" address)) in
    if is_nil address then more else checked

unfoldable pub validate_emails : Text → App (Unit {0})
unfolding check_emails
validate_emails emails = check_emails (split_at b',' emails)

-- `if emails != "" { … }`.
abbrev pub check_if_given : Text → App (Unit {0})
check_if_given emails = if is_nil emails then pure tt else validate_emails emails

abbrev pub ip_taken : Error
ip_taken = message "tunnel IP address is already in use by another peer or interface"

-- The check that no other row has an address, and what follows.
unfoldable pub if_ip_free : App Bool → App Response → App Response
if_ip_free check next =
    answering (its_error 500) check
      (λ in_use. if in_use then write_validation_error ip_taken else next)

abbrev pub added_peer : Text → AddPeerRequest → Peer
added_peer iface_id req = record {
  id = [];
  interface_id = iface_id;
  peer_type = if is_peer_type req.peer_type then req.peer_type else client;
  name = req.name;
  public_key = [];
  private_key_encrypted = [];
  preshared_key_encrypted = [];
  address = req.address;
  allowed_ips = req.allowed_ips;
  client_allowed_ips = req.client_allowed_ips;
  dns = req.dns;
  endpoint = req.endpoint;
  persistent_keepalive = req.persistent_keepalive;
  alert_on_connect = req.alert_on_connect;
  alert_on_disconnect = req.alert_on_disconnect;
  alert_emails = req.alert_emails;
  enabled = false;
  expires_at = none;
  last_handshake = none;
  transfer_rx = pos 0;
  transfer_tx = pos 0;
  created_at = 0;
  updated_at = 0;
}

unfoldable pub create_peer_for : Text → AddPeerRequest → App Response
create_peer_for iface_id req =
    answering (its_error 500) (add_peer (added_peer iface_id req) req.psk)
      (λ peer. write_json 201 (the_peer peer))

unfoldable pub handle_add_peer : Text → Decoded AddPeerRequest → App Response
unfolding validate_emails if_ip_free create_peer_for
handle_add_peer iface_id body = with_json body (λ req.
    if is_nil req.name || is_nil req.allowed_ips
    then write_error 400 (message "name and allowed_ips are required")
    else answering (its_error 400) (check_if_given req.alert_emails) (λ _.
      if is_nil req.address
      then create_peer_for iface_id req
      else if_ip_free (is_tunnel_ip_in_use req.address [] []) (create_peer_for iface_id req)))

-- The fields that a request may leave out are pointers.
pub record UpdatePeerRequest : Type 0 where
  pub peer_type : Text
  pub name : Text
  pub address : Text
  pub allowed_ips : Text
  pub client_allowed_ips : Option Text
  pub dns : Option Text
  pub endpoint : Text
  pub persistent_keepalive : ℤ
  pub alert_on_connect : Option Bool
  pub alert_on_disconnect : Option Bool
  pub alert_emails : Option Text

abbrev pub given_or : {A : Type 0} → A → Option A → A
given_or old none = old
given_or old (some new) = new

abbrev pub if_filled : Text → Text → Text
if_filled old new = if is_nil new then old else new

unfoldable pub updated_peer : UpdatePeerRequest → Peer → Peer
updated_peer req peer = record peer {
  peer_type = if is_peer_type req.peer_type then req.peer_type else peer.peer_type;
  name = if_filled peer.name req.name;
  address = if_filled peer.address req.address;
  allowed_ips = if_filled peer.allowed_ips req.allowed_ips;
  client_allowed_ips = given_or peer.client_allowed_ips req.client_allowed_ips;
  dns = given_or peer.dns req.dns;
  endpoint = req.endpoint;
  persistent_keepalive = req.persistent_keepalive;
  alert_on_connect = given_or peer.alert_on_connect req.alert_on_connect;
  alert_on_disconnect = given_or peer.alert_on_disconnect req.alert_on_disconnect;
  alert_emails = given_or peer.alert_emails req.alert_emails;
}

abbrev pub sync_failed : Error → App Response
sync_failed e = write_error 500 (wrapped "peer updated but sync failed" e)

-- The running interface is synced behind the update.
unfoldable pub save_peer : Peer → App Response
save_peer peer = answering (its_error 500) (update_peer peer) (λ row.
    answering sync_failed (sync_interface row.interface_id) (λ _. write_json 200 (the_peer row)))

unfoldable pub check_and_save_peer : UpdatePeerRequest → Peer → App Response
unfolding updated_peer save_peer validate_emails
check_and_save_peer req peer =
    answering (its_error 400) (check_if_given (given_or [] req.alert_emails))
      (λ _. save_peer (updated_peer req peer))

-- Another host address than the peer's is looked up first.
unfoldable pub handle_update_peer : Text → Decoded UpdatePeerRequest → App Response
unfolding check_and_save_peer if_ip_free
handle_update_peer id body = answering (its_error 500) (get_peer id) (λ found.
    or_not_found "peer not found" found (λ peer. with_json body (λ req.
      if is_nil req.address || text_eq (extract_host_ip req.address) (extract_host_ip peer.address)
      then check_and_save_peer req peer
      else if_ip_free (is_tunnel_ip_in_use req.address peer.id []) (check_and_save_peer req peer))))

unfoldable pub handle_delete_peer : Text → App Response
handle_delete_peer id =
    answering (its_error 500) (manager_remove_peer id) (λ _. write_json 200 (status_is "deleted"))

unfoldable pub handle_enable_peer : Text → App Response
handle_enable_peer id =
    answering (its_error 500) (enable_peer id) (λ _. write_json 200 (status_is "enabled"))

unfoldable pub handle_disable_peer : Text → App Response
handle_disable_peer id =
    answering (its_error 500) (disable_peer id) (λ _. write_json 200 (status_is "disabled"))

abbrev pub encrypting_failed : Error → App Response
encrypting_failed e = write_error 500 (wrapped "encrypting key" e)

unfoldable pub store_private_key : Peer → Text → App Response
store_private_key peer key =
    answering encrypting_failed (external_call (λ env t. env.encrypt t key)) (λ encrypted.
      answering (its_error 500) (update_peer (record peer { private_key_encrypted = encrypted }))
        (λ _. write_json 200 (status_is "updated")))

unfoldable pub handle_set_peer_private_key : Text → Decoded Text → App Response
unfolding store_private_key
handle_set_peer_private_key id body = answering (its_error 500) (get_peer id) (λ found.
    or_not_found "peer not found" found (λ peer. with_json body (λ key.
      if is_nil key
      then write_error 400 (message "private_key is required")
      else store_private_key peer key)))

unfoldable pub handle_peer_config : Server → Text → App Response
handle_peer_config s id = answering (its_error 500) (get_peer id) (λ found.
    or_not_found "peer not found" found (λ peer.
      answering (its_error 500) (generate_config s.external_ip id)
        (λ conf. pure (response 200 (config_file conf peer.name)))))

-- `qr.GeneratePNG`, whose encoder is a library's.
unfoldable pub generate_png : Text → App Text
generate_png conf = wrapping "generating QR PNG" (external_call (λ env t. env.qr_png conf))

unfoldable pub handle_peer_qr : Server → Text → App Response
unfolding generate_png
handle_peer_qr s id =
    answering (its_error 500) (generate_config s.external_ip id) (λ conf.
      answering (its_error 500) (generate_png conf) (λ png. pure (response 200 (image png))))
