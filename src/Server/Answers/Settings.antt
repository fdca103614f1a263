-- ===== src/Server/Answers/Settings.antt =====
-- The handlers of settings, logins and the dashboard in internal/server: what they answer.
use wgrift.App.Total.{Total-attempt}
use wgrift.Base.{true, ◌==◌, ◌||◌, ◌≡◌, refl, ℕ, Option, none, some, List, [], ◌∷◌, Text}
use wgrift.Base.Result.{Result, ok, err}
use wgrift.Models.{User, Session, Interface, OidcProvider}
use wgrift.App.{Env, App, Error}
use wgrift.App.External.{ResolvedProvider}
use wgrift.Oidc.{reload, reload_listed, resolve_all, list_providers}
use wgrift.Poller.{Poller}
use wgrift.Server.{Server, Request, SmtpConfig}
use wgrift.Server.Answers.{
  Answers, Runs, Runs-if, Runs-bind, Answers-answering, Answers-error, answers_rules,
}
use wgrift.Server.Answers.Rows.{with_smtp-Answers, if_address-Answers}
use wgrift.Server.Response.{Response, DashboardResponse, Decoded}
use wgrift.Server.Smtp.{smtp_enabled}
use wgrift.Server.Settings.{
  ProviderRequest, handle_get_settings, handle_create_oidc_provider, save_new_provider,
  handle_update_oidc_provider, update_with_secret, save_provider, handle_delete_oidc_provider,
  reload_if_any,
}
use wgrift.Server.Settings.Mail.{
  UpdateSmtpRequest, load_smtp_settings_data, configured_data, stored_data, set_smtp_password,
  handle_update_smtp, handle_test_smtp, blank_all, handle_delete_smtp,
}
use wgrift.Server.Dashboard.{handle_dashboard, add_interfaces}
use wgrift.Server.Auth.{
  LoginRequest, open_session, handle_login, destroy_if_any, handle_logout, write_auth_options,
  session_or_options, cookie_or_options, handle_get_session, handle_setup,
}
use wgrift.Server.Oidc.{
  CallbackQuery, redirect_to_provider, handle_oidc_login, enter, handle_oidc_callback,
}

module _ {env : Env} where
  resolve_all-Runs :
      (ps : List OidcProvider) (rs : List ResolvedProvider) → Runs env (resolve_all rs ps)
  unfolding resolve_all
  resolve_all-Runs [] rs = search answers_rules depth 3
  resolve_all-Runs (p ∷ ps) rs =
      Runs-if p.enabled _ _ (Runs-bind _ _ (Total-attempt _) (λ r. resolve_all-Runs ps _))
        (resolve_all-Runs ps rs)

  reload_listed-Runs : (listed : Result Error (List OidcProvider)) → Runs env (reload_listed listed)
  reload_listed-Runs (err e) = search answers_rules depth 3
  reload_listed-Runs (ok ps) = search (answers_rules, resolve_all-Runs) depth 6

  reload_if_any-Runs : (s : Server) → Runs env (reload_if_any s)
  unfolding reload_if_any reload
  reload_if_any-Runs s = search (answers_rules, reload_listed-Runs) depth 6

  configured_data-Runs : (c : SmtpConfig) → Runs env (configured_data c)
  unfolding configured_data
  configured_data-Runs c = search answers_rules depth 14

  stored_data-Runs : (host : Text) → Runs env (stored_data host)
  unfolding stored_data
  stored_data-Runs host = search answers_rules depth 14

  load_smtp_settings_data-Runs : (s : Server) → Runs env (load_smtp_settings_data s)
  unfolding load_smtp_settings_data
  load_smtp_settings_data-Runs s =
      search (answers_rules, configured_data-Runs, stored_data-Runs) depth 14

  pub handle_get_settings-Answers :
      (s : Server) (caller : User) → Answers env (handle_get_settings s caller)
  unfolding handle_get_settings
  handle_get_settings-Answers s caller =
      search (answers_rules, load_smtp_settings_data-Runs) depth 14

  pub handle_create_oidc_provider-Answers :
      (s : Server) (caller : User) (body : Decoded ProviderRequest)
      → Answers env (handle_create_oidc_provider s caller body)
  unfolding handle_create_oidc_provider save_new_provider
  handle_create_oidc_provider-Answers s caller body =
      search (answers_rules, reload_if_any-Runs) depth 18

  update_with_secret-Answers :
      (s : Server) (req : ProviderRequest) (p : OidcProvider)
      → Answers env (update_with_secret s req p)
  unfolding update_with_secret save_provider
  update_with_secret-Answers s req p = search (answers_rules, reload_if_any-Runs) depth 18

  pub handle_update_oidc_provider-Answers :
      (s : Server) (caller : User) (id : Text) (body : Decoded ProviderRequest)
      → Answers env (handle_update_oidc_provider s caller id body)
  unfolding handle_update_oidc_provider
  handle_update_oidc_provider-Answers s caller id body =
      search (answers_rules, update_with_secret-Answers) depth 18

  pub handle_delete_oidc_provider-Answers :
      (s : Server) (caller : User) (id : Text)
      → Answers env (handle_delete_oidc_provider s caller id)
  unfolding handle_delete_oidc_provider
  handle_delete_oidc_provider-Answers s caller id =
      search (answers_rules, reload_if_any-Runs) depth 14

  set_smtp_password-Answers :
      (password : Text) (next : App Response) (h : Answers env next)
      → Answers env (set_smtp_password password next)
  unfolding set_smtp_password
  set_smtp_password-Answers password next h = search answers_rules depth 14

  pub handle_update_smtp-Answers :
      (caller : User) (body : Decoded UpdateSmtpRequest)
      → Answers env (handle_update_smtp caller body)
  unfolding handle_update_smtp
  handle_update_smtp-Answers caller body =
      search (answers_rules, set_smtp_password-Answers) depth 20

  pub handle_test_smtp-Answers :
      (s : Server) (r : Request) (caller : User) (body : Decoded Text)
      → Answers env (handle_test_smtp s r caller body)
  unfolding handle_test_smtp
  handle_test_smtp-Answers s r caller body =
      search (answers_rules, with_smtp-Answers, if_address-Answers) depth 16

  blank_all-Answers : (keys : List Text) → Answers env (blank_all keys)
  unfolding blank_all
  blank_all-Answers [] = search answers_rules depth 3
  blank_all-Answers (key ∷ keys) =
      Answers-answering _ _ _ (λ e. Answers-error _ _ refl) (λ u. blank_all-Answers keys)

  pub handle_delete_smtp-Answers : (caller : User) → Answers env (handle_delete_smtp caller)
  unfolding handle_delete_smtp
  handle_delete_smtp-Answers caller = search (answers_rules, blank_all-Answers) depth 5

  add_interfaces-Runs :
      (poller : Poller) (ifaces : List Interface) (resp : DashboardResponse)
      → Runs env (add_interfaces poller resp ifaces)
  unfolding add_interfaces
  add_interfaces-Runs poller [] resp = search answers_rules depth 3
  add_interfaces-Runs poller (iface ∷ ifaces) resp =
      Runs-bind _ _ (Total-attempt _) (λ status. add_interfaces-Runs poller ifaces _)

  pub handle_dashboard-Answers : (s : Server) → Answers env (handle_dashboard s)
  unfolding handle_dashboard
  handle_dashboard-Answers s = search (answers_rules, add_interfaces-Runs) depth 10

  smtp_enabled-Runs : (s : Server) → Runs env (smtp_enabled s)
  unfolding smtp_enabled
  smtp_enabled-Runs s = search answers_rules depth 14

  open_session-Answers :
      (s : Server) (r : Request) (user : User) (status : ℕ)
      → (status == 200 || status == 201) ≡ true
      → Answers env (open_session s r user status)
  unfolding open_session
  open_session-Answers s r user status ok_status =
      search (answers_rules, smtp_enabled-Runs) depth 14

  pub handle_login-Answers :
      (s : Server) (r : Request) (body : Decoded LoginRequest) → Answers env (handle_login s r body)
  unfolding handle_login
  handle_login-Answers s r body = search (answers_rules, open_session-Answers) depth 14

  destroy_if_any-Runs : (cookie : Option Text) → Runs env (destroy_if_any cookie)
  destroy_if_any-Runs none = search answers_rules depth 3
  destroy_if_any-Runs (some id) = search answers_rules depth 5

  pub handle_logout-Answers : (r : Request) → Answers env (handle_logout r)
  unfolding handle_logout
  handle_logout-Answers r = search (answers_rules, destroy_if_any-Runs) depth 6

  write_auth_options-Answers : (s : Server) → Answers env (write_auth_options s)
  unfolding write_auth_options list_providers
  write_auth_options-Answers s = search answers_rules depth 14

  session_or_options-Answers :
      (s : Server) (validated : Result Error (Session × User))
      → Answers env (session_or_options s validated)
  session_or_options-Answers s (err e) = write_auth_options-Answers s
  session_or_options-Answers s (ok (session, user)) =
      search (answers_rules, smtp_enabled-Runs) depth 6

  cookie_or_options-Answers :
      (s : Server) (cookie : Option Text) → Answers env (cookie_or_options s cookie)
  cookie_or_options-Answers s none = write_auth_options-Answers s
  cookie_or_options-Answers s (some id) = search (answers_rules, session_or_options-Answers) depth 6

  pub handle_get_session-Answers : (s : Server) (r : Request) → Answers env (handle_get_session s r)
  unfolding handle_get_session
  handle_get_session-Answers s r = search (answers_rules, cookie_or_options-Answers) depth 10

  pub handle_setup-Answers :
      (s : Server) (r : Request) (body : Decoded LoginRequest) → Answers env (handle_setup s r body)
  unfolding handle_setup
  handle_setup-Answers s r body = search (answers_rules, open_session-Answers) depth 14

  pub handle_oidc_login-Answers :
      (s : Server) (r : Request) (id : Text) (redirect_param : Text)
      → Answers env (handle_oidc_login s r id redirect_param)
  unfolding handle_oidc_login redirect_to_provider
  handle_oidc_login-Answers s r id redirect_param = search answers_rules depth 14

  pub handle_oidc_callback-Answers :
      (s : Server) (r : Request) (q : CallbackQuery) → Answers env (handle_oidc_callback s r q)
  unfolding handle_oidc_callback enter
  handle_oidc_callback-Answers s r q = search answers_rules depth 18
