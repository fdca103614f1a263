-- ===== src/Server/Settings.antt =====
-- internal/server/handler_settings.go: the settings and the OIDC providers.
pub mod Mail
use wgrift.Base.{
  Bool, true, false, not, ◌&&◌, ◌||◌, Option, none, some, List, [], ◌∷◌, Text, codes, text_eq,
  is_nil, if◌then◌else◌,
}
use wgrift.Base.Result.{Result, ok, err}
use wgrift.Models.{User, OidcProvider}
use wgrift.App.{App, Env, Error, message, pure, ◌>>=◌, ◌>>◌, external_call}
use wgrift.Store.Settings.{
  set_setting, list_oidc_providers, create_oidc_provider, get_oidc_provider, update_oidc_provider,
  delete_oidc_provider,
}
use wgrift.Oidc.{reload}
use wgrift.Server.{Server, setting_or_blank, text_or}
use wgrift.Server.Settings.Mail.{load_smtp_settings_data}
use wgrift.Server.Response.{
  Response, Decoded, write_json, write_error, its_error, said, answering, with_json, or_not_found,
  if_admin, status_is, the_provider, the_settings,
}

unfoldable pub handle_get_settings : Server → User → App Response
handle_get_settings s caller = if_admin caller (do
  external_url ← setting_or_blank (codes "external_url")
  answering (its_error 500) list_oidc_providers (λ providers. do
    smtp ← load_smtp_settings_data s
    write_json 200 (
        the_settings (record {
          external_url = external_url;
          oidc_providers = providers;
          local_auth_enabled = s.local_auth_enabled;
          smtp = smtp;
        }))))

unfoldable pub handle_update_settings : User → Decoded Text → App Response
handle_update_settings caller body = if_admin caller (
    with_json body (λ url.
      answering (its_error 500) (set_setting (codes "external_url") url)
        (λ _. write_json 200 (status_is "updated"))))

pub record ProviderRequest : Type 0 where
  pub name : Text
  pub issuer : Text
  pub client_id : Text
  pub client_secret : Text
  pub scopes : Text
  pub auto_discover : Bool
  pub admin_claim : Text
  pub admin_value : Text
  pub default_role : Text
  pub enabled : Bool

-- `s.oidc.Reload()`, where there is a service.
unfoldable pub reload_if_any : Server → App (Unit {0})
reload_if_any s = if s.has_oidc then reload else pure tt

abbrev pub all_scopes : Text
all_scopes = codes "openid profile email groups"

-- The fields of a request, with their defaults, in a provider.
abbrev pub requested : ProviderRequest → OidcProvider → OidcProvider
requested req p = record p {
  name = req.name;
  issuer = req.issuer;
  client_id = req.client_id;
  scopes = text_or req.scopes all_scopes;
  auto_discover = req.auto_discover;
  admin_claim = req.admin_claim;
  admin_value = req.admin_value;
  default_role = text_or req.default_role (codes "viewer");
  enabled = req.enabled;
}

abbrev pub new_provider : ProviderRequest → Text → OidcProvider
new_provider req encrypted = record {
  id = [];
  name = req.name;
  issuer = req.issuer;
  client_id = req.client_id;
  client_secret_encrypted = encrypted;
  scopes = text_or req.scopes all_scopes;
  auto_discover = req.auto_discover;
  admin_claim = req.admin_claim;
  admin_value = req.admin_value;
  default_role = text_or req.default_role (codes "viewer");
  enabled = req.enabled;
  created_at = 0;
  updated_at = 0;
}

unfoldable pub save_new_provider : Server → ProviderRequest → App Response
unfolding reload_if_any
save_new_provider s req =
    answering (said 500 "failed to encrypt client secret")
      (external_call (λ env t. env.encrypt t req.client_secret))
      (λ encrypted.
        answering (its_error 500) (create_oidc_provider (new_provider req encrypted))
          (λ row. do reload_if_any s; write_json 201 (the_provider row)))

abbrev pub is_role : Text → Bool
is_role role = text_eq role (codes "admin") || text_eq role (codes "viewer")

unfoldable pub handle_create_oidc_provider : Server → User → Decoded ProviderRequest → App Response
unfolding save_new_provider
handle_create_oidc_provider s caller body = if_admin caller (
    with_json body (λ req.
      if is_nil req.name || is_nil req.issuer || is_nil req.client_id || is_nil req.client_secret
      then write_error 400 (message "name, issuer, client_id, and client_secret are required")
      else if not (is_role (text_or req.default_role (codes "viewer")))
      then write_error 400 (message "default_role must be 'admin' or 'viewer'")
      else save_new_provider s req))

unfoldable pub save_provider : Server → OidcProvider → App Response
unfolding reload_if_any
save_provider s p =
    answering (its_error 500) (update_oidc_provider p)
      (λ row. do reload_if_any s; write_json 200 (the_provider row))

-- A secret that is left out stays as it is.
unfoldable pub update_with_secret : Server → ProviderRequest → OidcProvider → App Response
unfolding save_provider
update_with_secret s req existing =
    if is_nil req.client_secret
    then save_provider s (requested req existing)
    else answering (said 500 "failed to encrypt client secret")
        (external_call (λ env t. env.encrypt t req.client_secret))
        (λ encrypted.
          save_provider s (record (requested req existing) { client_secret_encrypted = encrypted }))

unfoldable pub handle_update_oidc_provider :
    Server → User → Text → Decoded ProviderRequest → App Response
unfolding update_with_secret
handle_update_oidc_provider s caller id body = if_admin caller (
    answering (its_error 500) (get_oidc_provider id) (λ found.
      or_not_found "OIDC provider not found" found (λ existing. with_json body (λ req.
        if is_nil req.name || is_nil req.issuer || is_nil req.client_id
        then write_error 400 (message "name, issuer, and client_id are required")
        else update_with_secret s req existing))))

unfoldable pub handle_delete_oidc_provider : Server → User → Text → App Response
unfolding reload_if_any
handle_delete_oidc_provider s caller id = if_admin caller (
    answering (its_error 500) (delete_oidc_provider id)
      (λ _. do reload_if_any s; write_json 200 (status_is "deleted")))
