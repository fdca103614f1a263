-- ===== src/Tests/ServerTests.antt =====
-- Handlers and logins run at a store with an administrator and a viewer.
use wgrift.Base.{
  ℕ, ◌≡◌, refl, Option, some, none, [], codes, Text, find_first, text_eq, any, select, join_with,
  split_at, has_prefix,
}
use wgrift.Base.Result.{Result, ok, err}
use wgrift.Models.{User}
use wgrift.App.{
  Error, ◌>>=◌, wrapping, query, attempt, time_now, execute, cached, external_call, new_uuid,
}
use wgrift.Store.Db.{role_allowed}
use wgrift.Store.Settings.{get_oidc_state, delete_oidc_state}
use wgrift.Store.Sessions.{get_session, touch_session}
use wgrift.Store.Users.{
  get_user_by_oidc_identity, create_user, get_user, get_user_by_username, delete_user,
}
use wgrift.Auth.{validate_session, check_expiry}
use wgrift.Server.Users.{handle_delete_user}
use wgrift.Oidc.Claims.{matches_claim, claim_of}
use wgrift.Oidc.Callback.{handle_callback}
use wgrift.Server.Oidc.{sanitize_redirect_url}
use wgrift.Server.Running.{config_path}
use wgrift.Server.Routes.{api, delete_one_user}
use wgrift.Server.Response.{Response, answering}
use wgrift.Tests.Fixtures.{calm, world_of}
use wgrift.Tests.ServerFixtures.{server, request, logged_in, trusting, waiting}

abbrev login_of : Result Error (User × Text) → Option (Text × Text × Text)
login_of (ok (user, url)) = some (user.username, user.role, url)
login_of (err e) = none

-- A first login makes an administrator of a member of the provider's group.
first_login :
    login_of
      (handle_callback (codes "code") (codes "st") (codes "https://vpn.example") trusting waiting).0
    ≡ some (codes "bob", codes "admin", codes "/peers")
unfolding handle_callback ◌>>=◌ wrapping get_oidc_state query find_first text_eq attempt time_now
    delete_oidc_state execute cached external_call get_user_by_oidc_identity create_user new_uuid
    role_allowed any select matches_claim claim_of get_user_by_username
first_login = refl

status_of : Result Error Response → Option ℕ
status_of (ok resp) = some resp.status
status_of (err e) = none

-- The administrator deletes the viewer.
deletes :
    status_of (api server request (delete_one_user (codes "u2")) calm (world_of logged_in)).0
    ≡ some 200
unfolding status_of api answering ◌>>=◌ attempt validate_session wrapping get_session query
    find_first text_eq time_now check_expiry touch_session execute get_user handle_delete_user
    delete_user
deletes = refl

paths :
    (config_path (codes "wg0") ≡ codes "/etc/wireguard/wg0.conf")
    × (config_path (codes "../../tmp/x") ≡ codes "/tmp/x.conf")
unfolding config_path join_with split_at text_eq
paths = (refl, refl)

redirects :
    (sanitize_redirect_url (codes "/peers") ≡ codes "/peers")
    × (sanitize_redirect_url (codes "//evil.example") ≡ [])
    × (sanitize_redirect_url (codes "https://evil.example") ≡ [])
    × (sanitize_redirect_url (codes "/\\evil.example") ≡ codes "/\\evil.example")
unfolding sanitize_redirect_url has_prefix
redirects = (refl, refl, refl, refl)
