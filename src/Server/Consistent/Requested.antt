-- ===== src/Server/Consistent/Requested.antt =====
-- The states that requests to internal/server reach from an empty store.
use wgrift.Base.{ℕ, ◌≡◌, Bool, true, Option, none, some, Text}
use wgrift.Models.{User, Session}
use wgrift.App.{Env, World, App}
use wgrift.App.Keeps.{Keeps, keeps_rules}
use wgrift.Store.Db.{empty_db}
use wgrift.Store.Consistent.{IsConsistent}
use wgrift.Wg.Consistent.Reachable.{empty_db-IsConsistent}
use wgrift.Oidc.Consistent.{validate_session-Keeps}
use wgrift.Server.{Server, Request}
use wgrift.Server.Response.{Response}
use wgrift.Server.Reading.{
  handle_dashboard-Keeps, handle_list_interfaces-Keeps, handle_get_interface-Keeps,
  handle_interface_status-Keeps, handle_list_peers-Keeps, handle_peer_config-Keeps,
  handle_peer_qr-Keeps, handle_email_peer_config-Keeps, handle_interface_logs-Keeps,
  handle_peer_logs-Keeps, handle_list_users-Keeps, handle_get_settings-Keeps,
  handle_test_smtp-Keeps, handler_rules,
}
use wgrift.Server.Consistent.Rows.{
  handle_create_interface-Keeps, handle_import_interface-Keeps, handle_adopt_interface-Keeps,
  handle_update_interface-Keeps, handle_delete_interface-Keeps, handle_sync_interface-Keeps,
  handle_start_interface-Keeps, handle_stop_interface-Keeps, handle_restart_interface-Keeps,
  handle_add_peer-Keeps, handle_update_peer-Keeps, handle_delete_peer-Keeps,
  handle_enable_peer-Keeps, handle_disable_peer-Keeps, handle_set_peer_private_key-Keeps,
  handle_create_user-Keeps, handle_delete_user-Keeps, handle_change_password-Keeps,
}
use wgrift.Server.Consistent.Logins.{
  handle_update_settings-Keeps, handle_create_oidc_provider-Keeps,
  handle_update_oidc_provider-Keeps, handle_delete_oidc_provider-Keeps, handle_update_smtp-Keeps,
  handle_delete_smtp-Keeps, handle_login-Keeps, handle_setup-Keeps, handle_logout-Keeps,
  handle_get_session-Keeps, handle_oidc_login-Keeps, handle_oidc_callback-Keeps,
}
use wgrift.Server.Routes.{
  Route, PublicRoute, serve, serve_public, csrf_protect, auth_required, with_cookie, api,
  get_dashboard, get_interfaces, post_interface, post_import, post_adopt, get_one_interface,
  put_interface, delete_one_interface, post_sync, post_start, post_stop, post_restart,
  get_interface_status, get_peers, post_peer, put_peer, delete_one_peer, post_enable, post_disable,
  put_private_key, get_config, get_qr, post_email, get_interface_logs, get_peer_logs, get_users,
  post_user, delete_one_user, put_password, get_all_settings, put_settings, post_oidc, put_oidc,
  delete_oidc, put_smtp, post_smtp_test, delete_smtp, post_login, post_setup, post_logout,
  get_session, get_oidc_login, get_oidc_callback,
}

module _ {env : Env} (enforced : (t : ℕ) → env.foreign_keys t ≡ true) where
  serve-Keeps :
      (s : Server) (r : Request) (user : User) (route : Route)
      → Keeps env IsConsistent (serve s r user route)
  unfolding serve
  serve-Keeps s r user get_dashboard = search handle_dashboard-Keeps
  serve-Keeps s r user get_interfaces = search handle_list_interfaces-Keeps
  serve-Keeps s r user (post_interface body) = search handle_create_interface-Keeps
  serve-Keeps s r user (post_import body) = search handle_import_interface-Keeps
  serve-Keeps s r user (post_adopt body) = search handle_adopt_interface-Keeps
  serve-Keeps s r user (get_one_interface id) = search handle_get_interface-Keeps
  serve-Keeps s r user (put_interface id body) = search handle_update_interface-Keeps
  serve-Keeps s r user (delete_one_interface id) = search handle_delete_interface-Keeps
  serve-Keeps s r user (post_sync id) = search handle_sync_interface-Keeps
  serve-Keeps s r user (post_start id) = search handle_start_interface-Keeps
  serve-Keeps s r user (post_stop id) = search handle_stop_interface-Keeps
  serve-Keeps s r user (post_restart id) = search handle_restart_interface-Keeps
  serve-Keeps s r user (get_interface_status id) = search handle_interface_status-Keeps
  serve-Keeps s r user (get_peers iface_id) = search handle_list_peers-Keeps
  serve-Keeps s r user (post_peer iface_id body) = search handle_add_peer-Keeps
  serve-Keeps s r user (put_peer id body) = search handle_update_peer-Keeps
  serve-Keeps s r user (delete_one_peer id) = search handle_delete_peer-Keeps
  serve-Keeps s r user (post_enable id) = search handle_enable_peer-Keeps
  serve-Keeps s r user (post_disable id) = search handle_disable_peer-Keeps
  serve-Keeps s r user (put_private_key id body) = search handle_set_peer_private_key-Keeps
  serve-Keeps s r user (get_config id) = search handle_peer_config-Keeps
  serve-Keeps s r user (get_qr id) = search handle_peer_qr-Keeps
  serve-Keeps s r user (post_email id body) = search handle_email_peer_config-Keeps
  serve-Keeps s r user (get_interface_logs id limit offset) = search handle_interface_logs-Keeps
  serve-Keeps s r user (get_peer_logs id limit offset) = search handle_peer_logs-Keeps
  serve-Keeps s r user get_users = search handle_list_users-Keeps
  serve-Keeps s r user (post_user body) = search handle_create_user-Keeps
  serve-Keeps s r user (delete_one_user id) = search handle_delete_user-Keeps
  serve-Keeps s r user (put_password id body) = search handle_change_password-Keeps
  serve-Keeps s r user get_all_settings = search handle_get_settings-Keeps
  serve-Keeps s r user (put_settings body) = search handle_update_settings-Keeps
  serve-Keeps s r user (post_oidc body) = search handle_create_oidc_provider-Keeps
  serve-Keeps s r user (put_oidc id body) = search handle_update_oidc_provider-Keeps
  serve-Keeps s r user (delete_oidc id) = search handle_delete_oidc_provider-Keeps
  serve-Keeps s r user (put_smtp body) = search handle_update_smtp-Keeps
  serve-Keeps s r user (post_smtp_test body) = search handle_test_smtp-Keeps
  serve-Keeps s r user delete_smtp = search handle_delete_smtp-Keeps

  serve_public-Keeps :
      (s : Server) (r : Request) (route : PublicRoute)
      → Keeps env IsConsistent (serve_public s r route)
  unfolding serve_public
  serve_public-Keeps s r (post_login body) = search handle_login-Keeps
  serve_public-Keeps s r (post_setup body) = search handle_setup-Keeps
  serve_public-Keeps s r post_logout = search handle_logout-Keeps
  serve_public-Keeps s r get_session = search handle_get_session-Keeps
  serve_public-Keeps s r (get_oidc_login id redirect_param) = search handle_oidc_login-Keeps
  serve_public-Keeps s r (get_oidc_callback q) = search handle_oidc_callback-Keeps

  csrf_protect-Keeps :
      (safe : Bool) (r : Request) (session : Session) (next : App Response)
      → Keeps env IsConsistent next
      → Keeps env IsConsistent (csrf_protect safe r session next)
  unfolding csrf_protect
  csrf_protect-Keeps safe r session next h = search keeps_rules depth 6

  with_cookie-Keeps :
      (cookie : Option Text) (next : Text → App Response)
      → ((id : Text) → Keeps env IsConsistent (next id))
      → Keeps env IsConsistent (with_cookie cookie next)
  with_cookie-Keeps none next h = search keeps_rules
  with_cookie-Keeps (some id) next h = h id

  api-Keeps : (s : Server) (r : Request) (route : Route) → Keeps env IsConsistent (api s r route)
  unfolding api auth_required
  api-Keeps s r route =
      search
        (handler_rules, with_cookie-Keeps, validate_session-Keeps, csrf_protect-Keeps, serve-Keeps)
        depth 10

-- The worlds behind any number of requests, by anyone, whatever is answered.
pub data Requested (env : Env) : World → Type 0 where
  started : (w : World) → w.db ≡ empty_db → Requested env w
  asked :
      (s : Server) (r : Request) (route : Route) (w : World)
      → Requested env w
      → Requested env (api s r route env w).1
  asked_public :
      (s : Server) (r : Request) (route : PublicRoute) (w : World)
      → Requested env w
      → Requested env (serve_public s r route env w).1

-- No sequence of requests, to any route and with any cookies, tokens and bodies, takes a store that
-- was empty to tables with a repeated key, a value that a CHECK forbids or a dangling reference,
-- whatever fails in the middle of a handler, where every connection enforces foreign keys. The keys
-- are those of interfaces, peers, users, sessions, settings, OIDC providers and OIDC states, public
-- keys, usernames, provider names, the identities of OIDC users and the numbers of logs.
pub Requested-IsConsistent :
    (env : Env) (w : World)
    → ((t : ℕ) → env.foreign_keys t ≡ true)
    → Requested env w
    → IsConsistent w.db
Requested-IsConsistent env w e (started _ empty) = rw empty empty_db-IsConsistent
Requested-IsConsistent env _ e (asked s r route w before) =
    (api-Keeps e s r route).at w (Requested-IsConsistent env w e before)
Requested-IsConsistent env _ e (asked_public s r route w before) =
    (serve_public-Keeps e s r route).at w (Requested-IsConsistent env w e before)
