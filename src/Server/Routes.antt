-- ===== src/Server/Routes.antt =====
-- internal/server/routes.go and middleware.go: the protected routes behind authentication and the
-- check of the CSRF token.
pub mod Guarded
pub mod Entered
pub mod Answered
use wgrift.Base.{
  Bool, true, false, not, ◌&&◌, ◌||◌, Option, none, some, List, [], ◌∷◌, Text, text_eq, is_nil,
  if◌then◌else◌,
}
use wgrift.Base.Result.{Result, ok, err}
use wgrift.Models.{User, Session}
use wgrift.App.{App, Error, message, pure, ◌>>=◌, attempt}
use wgrift.Auth.{validate_session}
use wgrift.Server.{Server, Request}
use wgrift.Server.Users.{
  CreateUserRequest, handle_list_users, handle_create_user, handle_delete_user,
  handle_change_password,
}
use wgrift.Server.Peers.{
  AddPeerRequest, UpdatePeerRequest, handle_list_peers, handle_add_peer, handle_update_peer,
  handle_delete_peer, handle_enable_peer, handle_disable_peer, handle_set_peer_private_key,
  handle_peer_config, handle_peer_qr,
}
use wgrift.Server.Email.{EmailRequest, handle_email_peer_config}
use wgrift.Server.Interfaces.{
  CreateInterfaceRequest, UpdateInterfaceRequest, ImportConfigRequest, handle_list_interfaces,
  handle_create_interface, handle_update_interface, handle_get_interface, handle_delete_interface,
  handle_sync_interface, handle_import_interface,
}
use wgrift.Server.Running.{
  AdoptRequest, handle_adopt_interface, handle_start_interface, handle_stop_interface,
  handle_restart_interface, handle_interface_status,
}
use wgrift.Server.Settings.{
  ProviderRequest, handle_get_settings, handle_update_settings, handle_create_oidc_provider,
  handle_update_oidc_provider, handle_delete_oidc_provider,
}
use wgrift.Server.Settings.Mail.{
  UpdateSmtpRequest, handle_update_smtp, handle_test_smtp, handle_delete_smtp,
}
use wgrift.Server.Auth.{LoginRequest, handle_login, handle_setup, handle_logout, handle_get_session}
use wgrift.Server.Oidc.{CallbackQuery, handle_oidc_login, handle_oidc_callback}
use wgrift.Server.Logs.{handle_interface_logs, handle_peer_logs}
use wgrift.Server.Dashboard.{handle_dashboard}
use wgrift.Server.Response.{Response, Decoded, write_error, unless_error, said, is_admin, answering}

-- The protected routes, with what their paths, queries and bodies say.
pub data Route : Type 0 where
  get_dashboard : Route
  get_interfaces : Route
  post_interface : Decoded CreateInterfaceRequest → Route
  post_import : Decoded ImportConfigRequest → Route
  post_adopt : Decoded AdoptRequest → Route
  get_one_interface : (id : Text) → Route
  put_interface : (id : Text) → Decoded UpdateInterfaceRequest → Route
  delete_one_interface post_sync post_start post_stop : (id : Text) → Route
  post_restart get_interface_status : (id : Text) → Route
  get_peers : (iface_id : Text) → Route
  post_peer : (iface_id : Text) → Decoded AddPeerRequest → Route
  put_peer : (id : Text) → Decoded UpdatePeerRequest → Route
  delete_one_peer post_enable post_disable : (id : Text) → Route
  put_private_key : (id : Text) → Decoded Text → Route
  get_config get_qr : (id : Text) → Route
  post_email : (id : Text) → Decoded EmailRequest → Route
  get_interface_logs get_peer_logs : (id limit offset : Text) → Route
  get_users : Route
  post_user : Decoded CreateUserRequest → Route
  delete_one_user : (id : Text) → Route
  put_password : (id : Text) → Decoded Text → Route
  get_all_settings : Route
  put_settings : Decoded Text → Route
  post_oidc : Decoded ProviderRequest → Route
  put_oidc : (id : Text) → Decoded ProviderRequest → Route
  delete_oidc : (id : Text) → Route
  put_smtp : Decoded UpdateSmtpRequest → Route
  post_smtp_test : Decoded Text → Route
  delete_smtp : Route

-- The mux of the protected routes, for the user that the middleware found.
unfoldable pub serve : Server → Request → User → Route → App Response
serve s r user get_dashboard = handle_dashboard s
serve s r user get_interfaces = handle_list_interfaces
serve s r user (post_interface body) = handle_create_interface body
serve s r user (post_import body) = handle_import_interface body
serve s r user (post_adopt body) = handle_adopt_interface body
serve s r user (get_one_interface id) = handle_get_interface id
serve s r user (put_interface id body) = handle_update_interface id body
serve s r user (delete_one_interface id) = handle_delete_interface id
serve s r user (post_sync id) = handle_sync_interface id
serve s r user (post_start id) = handle_start_interface id
serve s r user (post_stop id) = handle_stop_interface id
serve s r user (post_restart id) = handle_restart_interface id
serve s r user (get_interface_status id) = handle_interface_status s id
serve s r user (get_peers iface_id) = handle_list_peers iface_id
serve s r user (post_peer iface_id body) = handle_add_peer iface_id body
serve s r user (put_peer id body) = handle_update_peer id body
serve s r user (delete_one_peer id) = handle_delete_peer id
serve s r user (post_enable id) = handle_enable_peer id
serve s r user (post_disable id) = handle_disable_peer id
serve s r user (put_private_key id body) = handle_set_peer_private_key id body
serve s r user (get_config id) = handle_peer_config s id
serve s r user (get_qr id) = handle_peer_qr s id
serve s r user (post_email id body) = handle_email_peer_config s r id body
serve s r user (get_interface_logs id limit offset) = handle_interface_logs id limit offset
serve s r user (get_peer_logs id limit offset) = handle_peer_logs id limit offset
serve s r user get_users = handle_list_users user
serve s r user (post_user body) = handle_create_user s user body
serve s r user (delete_one_user id) = handle_delete_user user id
serve s r user (put_password id body) = handle_change_password s user id body
serve s r user get_all_settings = handle_get_settings s user
serve s r user (put_settings body) = handle_update_settings user body
serve s r user (post_oidc body) = handle_create_oidc_provider s user body
serve s r user (put_oidc id body) = handle_update_oidc_provider s user id body
serve s r user (delete_oidc id) = handle_delete_oidc_provider s user id
serve s r user (put_smtp body) = handle_update_smtp user body
serve s r user (post_smtp_test body) = handle_test_smtp s r user body
serve s r user delete_smtp = handle_delete_smtp user

-- The routes of `GET`; the others are `POST`, `PUT` or `DELETE`.
unfoldable pub is_safe : Route → Bool
is_safe get_dashboard = true
is_safe get_interfaces = true
is_safe (get_one_interface id) = true
is_safe (get_interface_status id) = true
is_safe (get_peers iface_id) = true
is_safe (get_config id) = true
is_safe (get_qr id) = true
is_safe (get_interface_logs id limit offset) = true
is_safe (get_peer_logs id limit offset) = true
is_safe get_users = true
is_safe get_all_settings = true
is_safe _ = false

-- `csrfProtect`: a safe method passes, and any other one with the session's token.
unfoldable pub csrf_protect : Bool → Request → Session → App Response → App Response
csrf_protect safe r session next =
    if safe
    then next
    else if is_nil r.csrf_header || not (text_eq r.csrf_header session.csrf_token)
    then write_error 403 (message "invalid CSRF token")
    else next

abbrev pub with_cookie : Option Text → (Text → App Response) → App Response
with_cookie none next = write_error 403 (message "authentication required")
with_cookie (some id) next = next id

-- `authRequired`: the cookie's session and its user are what the handlers find in their context.
unfoldable pub auth_required : Server → Request → (Session → User → App Response) → App Response
auth_required s r next = with_cookie r.cookie (λ id.
    answering (said 403 "invalid session") (validate_session s.auth id)
      (λ found. next found.0 found.1))

-- `s.mux.Handle("/api/v1/", authed)`.
unfoldable pub api : Server → Request → Route → App Response
unfolding auth_required csrf_protect serve is_safe
api s r route =
    auth_required s r
      (λ session user. csrf_protect (is_safe route) r session (serve s r user route))

-- The routes in front of the middleware.
pub data PublicRoute : Type 0 where
  post_login post_setup : Decoded LoginRequest → PublicRoute
  post_logout get_session : PublicRoute
  get_oidc_login : (id redirect_param : Text) → PublicRoute
  get_oidc_callback : CallbackQuery → PublicRoute

unfoldable pub serve_public : Server → Request → PublicRoute → App Response
serve_public s r (post_login body) = handle_login s r body
serve_public s r (post_setup body) = handle_setup s r body
serve_public s r post_logout = handle_logout r
serve_public s r get_session = handle_get_session s r
serve_public s r (get_oidc_login id redirect_param) = handle_oidc_login s r id redirect_param
serve_public s r (get_oidc_callback q) = handle_oidc_callback s r q
