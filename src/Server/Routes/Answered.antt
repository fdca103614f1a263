-- ===== src/Server/Routes/Answered.antt =====
-- The routes of internal/server/routes.go: the status and the cookie of what they answer.
use wgrift.Models.{User, Session}
use wgrift.App.{Env, App}
use wgrift.Server.{Server, Request}
use wgrift.Server.Answers.{Answers, answers_rules}
use wgrift.Server.Answers.Rows.{
  handle_create_interface-Answers, handle_import_interface-Answers, handle_adopt_interface-Answers,
  handle_update_interface-Answers, handle_add_peer-Answers, handle_update_peer-Answers,
  handle_set_peer_private_key-Answers, handle_email_peer_config-Answers, handle_create_user-Answers,
  handle_change_password-Answers,
}
use wgrift.Server.Answers.Settings.{
  handle_dashboard-Answers, handle_get_settings-Answers, handle_create_oidc_provider-Answers,
  handle_update_oidc_provider-Answers, handle_delete_oidc_provider-Answers,
  handle_update_smtp-Answers, handle_test_smtp-Answers, handle_delete_smtp-Answers,
  handle_login-Answers, handle_setup-Answers, handle_logout-Answers, handle_get_session-Answers,
  handle_oidc_login-Answers, handle_oidc_callback-Answers,
}
use wgrift.Server.Users.{handle_list_users, handle_delete_user}
use wgrift.Server.Peers.{
  handle_list_peers, handle_delete_peer, handle_enable_peer, handle_disable_peer,
  handle_peer_config, handle_peer_qr,
}
use wgrift.Server.Interfaces.{
  handle_list_interfaces, handle_get_interface, handle_delete_interface, handle_sync_interface,
}
use wgrift.Server.Running.{
  handle_start_interface, handle_stop_interface, handle_restart_interface, handle_interface_status,
}
use wgrift.Server.Settings.{handle_update_settings}
use wgrift.Server.Logs.{handle_interface_logs, handle_peer_logs}
use wgrift.Server.Response.{Response}
use wgrift.Server.Routes.{
  Route, PublicRoute, serve, serve_public, csrf_protect, auth_required, with_cookie, api,
  get_dashboard, get_interfaces, post_interface, post_import, post_adopt, get_one_interface,
  put_interface, delete_one_interface, post_sync, post_start, post_stop, post_restart,
  get_interface_status, get_peers, post_peer, put_peer, delete_one_peer, post_enable, post_disable,
  put_private_key, get_config, get_qr, post_email, get_interface_logs, get_peer_logs, get_users,
  post_user, delete_one_user, put_password, get_all_settings, put_settings, post_oidc, put_oidc,
  delete_oidc, put_smtp, post_smtp_test, delete_smtp, post_login, post_setup, post_logout,
  get_session, get_oidc_login, get_oidc_callback,
}
use wgrift.Base.{Bool, Option, none, some, Text}

module _ {env : Env} where
  serve-Answers :
      (s : Server) (r : Request) (user : User) (route : Route) → Answers env (serve s r user route)
  unfolding serve
  serve-Answers s r user get_dashboard = search (answers_rules, handle_dashboard-Answers) depth 3
  serve-Answers s r user get_interfaces =
      unfold handle_list_interfaces in search answers_rules depth 10
  serve-Answers s r user (post_interface body) =
      search (answers_rules, handle_create_interface-Answers) depth 3
  serve-Answers s r user (post_import body) =
      search (answers_rules, handle_import_interface-Answers) depth 3
  serve-Answers s r user (post_adopt body) =
      search (answers_rules, handle_adopt_interface-Answers) depth 3
  serve-Answers s r user (get_one_interface id) =
      unfold handle_get_interface in search answers_rules depth 10
  serve-Answers s r user (put_interface id body) =
      search (answers_rules, handle_update_interface-Answers) depth 3
  serve-Answers s r user (delete_one_interface id) =
      unfold handle_delete_interface in search answers_rules depth 10
  serve-Answers s r user (post_sync id) =
      unfold handle_sync_interface in search answers_rules depth 10
  serve-Answers s r user (post_start id) =
      unfold handle_start_interface in search answers_rules depth 10
  serve-Answers s r user (post_stop id) =
      unfold handle_stop_interface in search answers_rules depth 10
  serve-Answers s r user (post_restart id) =
      unfold handle_restart_interface in search answers_rules depth 10
  serve-Answers s r user (get_interface_status id) =
      unfold handle_interface_status in search answers_rules depth 10
  serve-Answers s r user (get_peers iface_id) =
      unfold handle_list_peers in search answers_rules depth 10
  serve-Answers s r user (post_peer iface_id body) =
      search (answers_rules, handle_add_peer-Answers) depth 3
  serve-Answers s r user (put_peer id body) =
      search (answers_rules, handle_update_peer-Answers) depth 3
  serve-Answers s r user (delete_one_peer id) =
      unfold handle_delete_peer in search answers_rules depth 10
  serve-Answers s r user (post_enable id) =
      unfold handle_enable_peer in search answers_rules depth 10
  serve-Answers s r user (post_disable id) =
      unfold handle_disable_peer in search answers_rules depth 10
  serve-Answers s r user (put_private_key id body) =
      search (answers_rules, handle_set_peer_private_key-Answers) depth 3
  serve-Answers s r user (get_config id) =
      unfold handle_peer_config in search answers_rules depth 10
  serve-Answers s r user (get_qr id) = unfold handle_peer_qr in search answers_rules depth 10
  serve-Answers s r user (post_email id body) =
      search (answers_rules, handle_email_peer_config-Answers) depth 3
  serve-Answers s r user (get_interface_logs id limit offset) =
      unfold handle_interface_logs in search answers_rules depth 10
  serve-Answers s r user (get_peer_logs id limit offset) =
      unfold handle_peer_logs in search answers_rules depth 10
  serve-Answers s r user get_users = unfold handle_list_users in search answers_rules depth 10
  serve-Answers s r user (post_user body) =
      search (answers_rules, handle_create_user-Answers) depth 3
  serve-Answers s r user (delete_one_user id) =
      unfold handle_delete_user in search answers_rules depth 10
  serve-Answers s r user (put_password id body) =
      search (answers_rules, handle_change_password-Answers) depth 3
  serve-Answers s r user get_all_settings =
      search (answers_rules, handle_get_settings-Answers) depth 3
  serve-Answers s r user (put_settings body) =
      unfold handle_update_settings in search answers_rules depth 10
  serve-Answers s r user (post_oidc body) =
      search (answers_rules, handle_create_oidc_provider-Answers) depth 3
  serve-Answers s r user (put_oidc id body) =
      search (answers_rules, handle_update_oidc_provider-Answers) depth 3
  serve-Answers s r user (delete_oidc id) =
      search (answers_rules, handle_delete_oidc_provider-Answers) depth 3
  serve-Answers s r user (put_smtp body) =
      search (answers_rules, handle_update_smtp-Answers) depth 3
  serve-Answers s r user (post_smtp_test body) =
      search (answers_rules, handle_test_smtp-Answers) depth 3
  serve-Answers s r user delete_smtp = search (answers_rules, handle_delete_smtp-Answers) depth 3

  -- Every request to a route in front of the middleware is answered, whatever fails behind it, with
  -- a status and a cookie that fit the body: an error has a status of 400 or more, or is the
  -- validation error with 200, and sets no cookie; a payload has 200 or 201, and a redirection 302.
  pub serve_public-Answers :
      (s : Server) (r : Request) (route : PublicRoute) → Answers env (serve_public s r route)
  unfolding serve_public
  serve_public-Answers s r (post_login body) = search (answers_rules, handle_login-Answers) depth 3
  serve_public-Answers s r (post_setup body) = search (answers_rules, handle_setup-Answers) depth 3
  serve_public-Answers s r post_logout = search (answers_rules, handle_logout-Answers) depth 3
  serve_public-Answers s r get_session = search (answers_rules, handle_get_session-Answers) depth 3
  serve_public-Answers s r (get_oidc_login id redirect_param) =
      search (answers_rules, handle_oidc_login-Answers) depth 3
  serve_public-Answers s r (get_oidc_callback q) =
      search (answers_rules, handle_oidc_callback-Answers) depth 3

  csrf_protect-Answers :
      (safe : Bool) (r : Request) (session : Session) (next : App Response) (h : Answers env next)
      → Answers env (csrf_protect safe r session next)
  unfolding csrf_protect
  csrf_protect-Answers safe r session next h = search answers_rules depth 8

  with_cookie-Answers :
      (cookie : Option Text) (next : Text → App Response)
      → ((id : Text) → Answers env (next id))
      → Answers env (with_cookie cookie next)
  with_cookie-Answers none next h = search answers_rules depth 3
  with_cookie-Answers (some id) next h = h id

  -- Every request to a protected route is answered: no failure of the store, the system, the
  -- cryptographic libraries or the provider of a login leaves a handler without a response, and the
  -- status and the cookie fit the body. An error has a status of 400 or more, or is the validation
  -- error with 200, and sets no cookie; a payload has 200 or 201, a file or an image 200, and a
  -- redirection 302.
  pub api-Answers : (s : Server) (r : Request) (route : Route) → Answers env (api s r route)
  unfolding api auth_required
  api-Answers s r route =
      search (answers_rules, with_cookie-Answers, csrf_protect-Answers, serve-Answers) depth 10
