-- ===== src/Server/Consistent/Logins.antt =====
-- The handlers of settings and logins in internal/server and the consistency of the tables.
use wgrift.Base.{ℕ, ◌≡◌, true, Option, none, some, List, [], ◌∷◌, Text}
use wgrift.Base.Result.{Result, ok, err}
use wgrift.Models.{User, OidcProvider, Session}
use wgrift.App.{Env, App, Error}
use wgrift.App.Keeps.{Keeps, keeps_rules}
use wgrift.Oidc.{list_providers}
use wgrift.Store.Consistent.{IsConsistent}
use wgrift.Store.Consistent.Settings.{
  set_setting-Keeps, create_oidc_provider-Keeps, update_oidc_provider-Keeps,
  delete_oidc_provider-Keeps, get_oidc_provider-Keeps,
}
use wgrift.Oidc.Consistent.{
  needs_setup-Keeps, authenticate-Keeps, reload-Keeps, auth_create_session-Keeps,
  validate_session-Keeps, destroy_session-Keeps, create_initial_admin-Keeps,
  authorization_url-Keeps, handle_callback-Keeps,
}
use wgrift.Server.{Server, Request}
use wgrift.Server.Reading.{handler_rules, smtp_enabled-Keeps, external_url-Keeps}
use wgrift.Server.Response.{Response, Decoded}
use wgrift.Server.Settings.{
  ProviderRequest, handle_update_settings, handle_create_oidc_provider, save_new_provider,
  handle_update_oidc_provider, update_with_secret, save_provider, handle_delete_oidc_provider,
  reload_if_any,
}
use wgrift.Server.Settings.Mail.{
  UpdateSmtpRequest, set_smtp_password, handle_update_smtp, blank_all, handle_delete_smtp,
}
use wgrift.Server.Auth.{
  LoginRequest, open_session, handle_login, destroy_if_any, handle_logout, write_auth_options,
  session_or_options, cookie_or_options, handle_get_session, handle_setup,
}
use wgrift.Server.Oidc.{
  CallbackQuery, redirect_to_provider, handle_oidc_login, enter, handle_oidc_callback,
}

module _ {env : Env} (enforced : (t : ℕ) → env.foreign_keys t ≡ true) where
  reload_if_any-Keeps : (s : Server) → Keeps env IsConsistent (reload_if_any s)
  unfolding reload_if_any
  reload_if_any-Keeps s = search (handler_rules, reload-Keeps) depth 16

  pub handle_update_settings-Keeps :
      (user : User) (body : Decoded Text)
      → Keeps env IsConsistent (handle_update_settings user body)
  unfolding handle_update_settings
  handle_update_settings-Keeps user body = search (handler_rules, set_setting-Keeps) depth 16

  pub handle_create_oidc_provider-Keeps :
      (s : Server) (user : User) (body : Decoded ProviderRequest)
      → Keeps env IsConsistent (handle_create_oidc_provider s user body)
  unfolding handle_create_oidc_provider save_new_provider
  handle_create_oidc_provider-Keeps s user body =
      search (handler_rules, create_oidc_provider-Keeps, reload_if_any-Keeps) depth 20

  update_with_secret-Keeps :
      (s : Server) (req : ProviderRequest) (p : OidcProvider)
      → Keeps env IsConsistent (update_with_secret s req p)
  unfolding update_with_secret save_provider
  update_with_secret-Keeps s req p =
      search (handler_rules, update_oidc_provider-Keeps, reload_if_any-Keeps) depth 20

  pub handle_update_oidc_provider-Keeps :
      (s : Server) (user : User) (id : Text) (body : Decoded ProviderRequest)
      → Keeps env IsConsistent (handle_update_oidc_provider s user id body)
  unfolding handle_update_oidc_provider
  handle_update_oidc_provider-Keeps s user id body =
      search (handler_rules, get_oidc_provider-Keeps, update_with_secret-Keeps) depth 16

  pub handle_delete_oidc_provider-Keeps :
      (s : Server) (user : User) (id : Text)
      → Keeps env IsConsistent (handle_delete_oidc_provider s user id)
  unfolding handle_delete_oidc_provider
  handle_delete_oidc_provider-Keeps s user id =
      search (handler_rules, delete_oidc_provider-Keeps, reload_if_any-Keeps) depth 16

  set_smtp_password-Keeps :
      (password : Text) (next : App Response)
      → Keeps env IsConsistent next
      → Keeps env IsConsistent (set_smtp_password password next)
  unfolding set_smtp_password
  set_smtp_password-Keeps password next h = search (handler_rules, set_setting-Keeps) depth 10

  pub handle_update_smtp-Keeps :
      (user : User) (body : Decoded UpdateSmtpRequest)
      → Keeps env IsConsistent (handle_update_smtp user body)
  unfolding handle_update_smtp
  handle_update_smtp-Keeps user body =
      search (handler_rules, set_setting-Keeps, set_smtp_password-Keeps) depth 24

  blank_all-Keeps : (keys : List Text) → Keeps env IsConsistent (blank_all keys)
  unfolding blank_all
  blank_all-Keeps [] = search keeps_rules
  blank_all-Keeps (key ∷ keys) =
      let rest : Keeps env IsConsistent (blank_all keys) = blank_all-Keeps keys in
      search (handler_rules, set_setting-Keeps) depth 6

  pub handle_delete_smtp-Keeps : (user : User) → Keeps env IsConsistent (handle_delete_smtp user)
  unfolding handle_delete_smtp
  handle_delete_smtp-Keeps user = search (handler_rules, blank_all-Keeps) depth 16

  open_session-Keeps :
      (s : Server) (r : Request) (user : User) (status : ℕ)
      → Keeps env IsConsistent (open_session s r user status)
  unfolding open_session
  open_session-Keeps s r user status =
      search (handler_rules, auth_create_session-Keeps, smtp_enabled-Keeps) depth 16

  pub handle_login-Keeps :
      (s : Server) (r : Request) (body : Decoded LoginRequest)
      → Keeps env IsConsistent (handle_login s r body)
  unfolding handle_login
  handle_login-Keeps s r body =
      search (handler_rules, authenticate-Keeps, open_session-Keeps) depth 16

  pub handle_setup-Keeps :
      (s : Server) (r : Request) (body : Decoded LoginRequest)
      → Keeps env IsConsistent (handle_setup s r body)
  unfolding handle_setup
  handle_setup-Keeps s r body =
      search (handler_rules, create_initial_admin-Keeps, open_session-Keeps) depth 16

  destroy_if_any-Keeps : (cookie : Option Text) → Keeps env IsConsistent (destroy_if_any cookie)
  destroy_if_any-Keeps none = search keeps_rules
  destroy_if_any-Keeps (some id) = search (keeps_rules, destroy_session-Keeps) depth 6

  pub handle_logout-Keeps : (r : Request) → Keeps env IsConsistent (handle_logout r)
  unfolding handle_logout
  handle_logout-Keeps r = search (handler_rules, destroy_if_any-Keeps) depth 16

  write_auth_options-Keeps : (s : Server) → Keeps env IsConsistent (write_auth_options s)
  unfolding write_auth_options list_providers
  write_auth_options-Keeps s = search handler_rules depth 16

  session_or_options-Keeps :
      (s : Server) (validated : Result Error (Session × User))
      → Keeps env IsConsistent (session_or_options s validated)
  session_or_options-Keeps s (err e) = write_auth_options-Keeps s
  session_or_options-Keeps s (ok (session, user)) = search (keeps_rules, smtp_enabled-Keeps) depth 6

  cookie_or_options-Keeps :
      (s : Server) (cookie : Option Text) → Keeps env IsConsistent (cookie_or_options s cookie)
  cookie_or_options-Keeps s none = write_auth_options-Keeps s
  cookie_or_options-Keeps s (some id) =
      search (keeps_rules, validate_session-Keeps, session_or_options-Keeps) depth 8

  pub handle_get_session-Keeps :
      (s : Server) (r : Request) → Keeps env IsConsistent (handle_get_session s r)
  unfolding handle_get_session
  handle_get_session-Keeps s r =
      search (handler_rules, needs_setup-Keeps, cookie_or_options-Keeps) depth 16

  pub handle_oidc_login-Keeps :
      (s : Server) (r : Request) (id : Text) (redirect_param : Text)
      → Keeps env IsConsistent (handle_oidc_login s r id redirect_param)
  unfolding handle_oidc_login redirect_to_provider
  handle_oidc_login-Keeps s r id redirect_param =
      search (handler_rules, external_url-Keeps, authorization_url-Keeps) depth 16

  pub handle_oidc_callback-Keeps :
      (s : Server) (r : Request) (q : CallbackQuery)
      → Keeps env IsConsistent (handle_oidc_callback s r q)
  unfolding handle_oidc_callback enter
  handle_oidc_callback-Keeps s r q =
      search (handler_rules, external_url-Keeps, handle_callback-Keeps, auth_create_session-Keeps)
        depth 20
