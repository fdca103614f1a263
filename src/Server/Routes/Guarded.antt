-- ===== src/Server/Routes/Guarded.antt =====
-- Who gets past the guards of internal/server: a user with a role, and a request with a session.
use wgrift.Base.{◌≡◌, refl, Bool, true, false, ◌||◌, arith, text_eq}
use wgrift.Base.Result.{Result, ok, err}
use wgrift.Models.{User}
use wgrift.App.{Env, World, Error, ◌>>=◌}
use wgrift.Server.{Server, Request}
use wgrift.Server.Users.{
  handle_list_users, handle_create_user, handle_delete_user, handle_change_password,
}
use wgrift.Server.Settings.{
  handle_get_settings, handle_update_settings, handle_create_oidc_provider,
  handle_update_oidc_provider, handle_delete_oidc_provider,
}
use wgrift.Server.Settings.Mail.{handle_update_smtp, handle_test_smtp, handle_delete_smtp}
use wgrift.Server.Response.{Response, is_admin}
use wgrift.Server.Routes.{
  Route, serve, get_users, post_user, delete_one_user, put_password, get_all_settings, put_settings,
  post_oidc, put_oidc, delete_oidc, put_smtp, post_smtp_test, delete_smtp, delete_one_interface,
  delete_one_peer, get_config, get_dashboard, get_interface_logs, get_interface_status,
  get_interfaces, get_one_interface, get_peer_logs, get_peers, get_qr, post_adopt, post_disable,
  post_email, post_enable, post_import, post_interface, post_peer, post_restart, post_start,
  post_stop, post_sync, put_interface, put_peer, put_private_key,
}

-- What the roles allow: users, settings, providers and mail are an administrator's, but for one's
-- own password.
unfoldable pub may_use : User → Route → Bool
may_use user get_users = is_admin user
may_use user (post_user body) = is_admin user
may_use user (delete_one_user id) = is_admin user
may_use user (put_password id body) = is_admin user || text_eq id user.id
may_use user get_all_settings = is_admin user
may_use user (put_settings body) = is_admin user
may_use user (post_oidc body) = is_admin user
may_use user (put_oidc id body) = is_admin user
may_use user (delete_oidc id) = is_admin user
may_use user (put_smtp body) = is_admin user
may_use user (post_smtp_test body) = is_admin user
may_use user delete_smtp = is_admin user
may_use user _ = true

-- The refusal of a request.
abbrev pub IsForbidden : World → Result Error Response × World → Type 0
IsForbidden w (ok resp, w') = (resp.status ≡ 403) × (w' ≡ w)
IsForbidden w (err e, w') = ⊥

-- A user whose role does not allow a route is refused, and nothing changes.
pub serve-IsForbidden :
    (env : Env) (s : Server) (r : Request) (user : User) (route : Route) (w : World)
    → may_use user route ≡ false
    → IsForbidden w (serve s r user route env w)
unfolding may_use serve ◌>>=◌
serve-IsForbidden env s r user get_users w h = unfold handle_list_users in rw h (refl, refl)
serve-IsForbidden env s r user (post_user body) w h = unfold handle_create_user in rw h (refl, refl)
serve-IsForbidden env s r user (delete_one_user id) w h =
    unfold handle_delete_user in rw h (refl, refl)
serve-IsForbidden env s r user get_all_settings w h =
    unfold handle_get_settings in rw h (refl, refl)
serve-IsForbidden env s r user (put_settings body) w h =
    unfold handle_update_settings in rw h (refl, refl)
serve-IsForbidden env s r user (post_oidc body) w h =
    unfold handle_create_oidc_provider in rw h (refl, refl)
serve-IsForbidden env s r user (put_oidc id body) w h =
    unfold handle_update_oidc_provider in rw h (refl, refl)
serve-IsForbidden env s r user (delete_oidc id) w h =
    unfold handle_delete_oidc_provider in rw h (refl, refl)
serve-IsForbidden env s r user (put_smtp body) w h = unfold handle_update_smtp in rw h (refl, refl)
serve-IsForbidden env s r user (post_smtp_test body) w h =
    unfold handle_test_smtp in rw h (refl, refl)
serve-IsForbidden env s r user delete_smtp w h = unfold handle_delete_smtp in rw h (refl, refl)
serve-IsForbidden env s r user (put_password id body) w h =
    unfold handle_change_password in ground (arith, h)
serve-IsForbidden env s r user get_dashboard w h = ground (arith, h)
serve-IsForbidden env s r user get_interfaces w h = ground (arith, h)
serve-IsForbidden env s r user (post_interface body) w h = ground (arith, h)
serve-IsForbidden env s r user (post_import body) w h = ground (arith, h)
serve-IsForbidden env s r user (post_adopt body) w h = ground (arith, h)
serve-IsForbidden env s r user (get_one_interface id) w h = ground (arith, h)
serve-IsForbidden env s r user (put_interface id body) w h = ground (arith, h)
serve-IsForbidden env s r user (delete_one_interface id) w h = ground (arith, h)
serve-IsForbidden env s r user (post_sync id) w h = ground (arith, h)
serve-IsForbidden env s r user (post_start id) w h = ground (arith, h)
serve-IsForbidden env s r user (post_stop id) w h = ground (arith, h)
serve-IsForbidden env s r user (post_restart id) w h = ground (arith, h)
serve-IsForbidden env s r user (get_interface_status id) w h = ground (arith, h)
serve-IsForbidden env s r user (get_peers id) w h = ground (arith, h)
serve-IsForbidden env s r user (post_peer id body) w h = ground (arith, h)
serve-IsForbidden env s r user (put_peer id body) w h = ground (arith, h)
serve-IsForbidden env s r user (delete_one_peer id) w h = ground (arith, h)
serve-IsForbidden env s r user (post_enable id) w h = ground (arith, h)
serve-IsForbidden env s r user (post_disable id) w h = ground (arith, h)
serve-IsForbidden env s r user (put_private_key id body) w h = ground (arith, h)
serve-IsForbidden env s r user (get_config id) w h = ground (arith, h)
serve-IsForbidden env s r user (get_qr id) w h = ground (arith, h)
serve-IsForbidden env s r user (post_email id body) w h = ground (arith, h)
serve-IsForbidden env s r user (get_interface_logs id limit offset) w h = ground (arith, h)
serve-IsForbidden env s r user (get_peer_logs id limit offset) w h = ground (arith, h)
