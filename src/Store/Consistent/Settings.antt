-- ===== src/Store/Consistent/Settings.antt =====
-- The methods of internal/store/store_settings.go and the consistency of the tables.
mod Keyed
use wgrift.Base.{
  sym, text_eq_iff, ◌++◌, [], ◌∷◌, ◌≡◌, refl, true, false, arith, Bool, ◌&&◌, ◌||◌, not, List, Text,
  text_eq, any, Bool-cases, inl, inr,
}
use wgrift.Models.{OidcProvider, OidcState}
use wgrift.App.{Env}
use wgrift.App.Keeps.{Keeps, After, Keeps-execute, keeps_rules}
use wgrift.Store.Db.{Db, update_where, delete_where}
use wgrift.Store.Keys.{
  IsDistinct, IsDistinct-append, IsDistinct-select, IsDistinct-update_where, update_where-none,
  has_key,
}
use wgrift.Store.Renewal.{IsDistinct-renew}
use wgrift.Store.Consistent.{IsConsistent, IsKeyed}
use wgrift.Store.Settings.{
  put_setting, set_setting, insert_oidc_provider, ensure_provider_id, create_oidc_provider,
  set_oidc_provider, update_oidc_provider, delete_oidc_provider, insert_oidc_state,
  create_oidc_state, remove_oidc_state, delete_oidc_state, list_oidc_providers, get_oidc_provider,
  get_setting,
}
use wgrift.Store.Consistent.Settings.Keyed.{
  put_setting-IsConsistent, insert_oidc_provider-IsConsistent, set_oidc_provider-IsConsistent,
  remove_oidc_provider-IsConsistent, insert_oidc_state-IsConsistent, remove_oidc_state-IsConsistent,
}

module _ {env : Env} where
  pub set_setting-Keeps : (key value : Text) → Keeps env IsConsistent (set_setting key value)
  unfolding set_setting
  set_setting-Keeps key value =
      search (keeps_rules, Keeps-execute, put_setting-IsConsistent) depth 10

  pub create_oidc_provider-Keeps :
      (p : OidcProvider) → Keeps env IsConsistent (create_oidc_provider p)
  unfolding create_oidc_provider ensure_provider_id
  create_oidc_provider-Keeps p =
      search (keeps_rules, Keeps-execute, insert_oidc_provider-IsConsistent) depth 12

  pub update_oidc_provider-Keeps :
      (p : OidcProvider) → Keeps env IsConsistent (update_oidc_provider p)
  unfolding update_oidc_provider
  update_oidc_provider-Keeps p =
      search (keeps_rules, Keeps-execute, set_oidc_provider-IsConsistent) depth 10

  pub delete_oidc_provider-Keeps : (id : Text) → Keeps env IsConsistent (delete_oidc_provider id)
  unfolding delete_oidc_provider
  delete_oidc_provider-Keeps id =
      search (keeps_rules, Keeps-execute, remove_oidc_provider-IsConsistent) depth 10

  pub create_oidc_state-Keeps : (s : OidcState) → Keeps env IsConsistent (create_oidc_state s)
  unfolding create_oidc_state
  create_oidc_state-Keeps s =
      search (keeps_rules, Keeps-execute, insert_oidc_state-IsConsistent) depth 10

  pub delete_oidc_state-Keeps : (id : Text) → Keeps env IsConsistent (delete_oidc_state id)
  unfolding delete_oidc_state
  delete_oidc_state-Keeps id =
      search (keeps_rules, Keeps-execute, remove_oidc_state-IsConsistent) depth 10

module _ {env : Env} {P : Db → Type 0} where
  pub list_oidc_providers-Keeps : Keeps env P list_oidc_providers
  unfolding list_oidc_providers
  list_oidc_providers-Keeps = search keeps_rules

  pub get_oidc_provider-Keeps : (id : Text) → Keeps env P (get_oidc_provider id)
  unfolding get_oidc_provider
  get_oidc_provider-Keeps id = search keeps_rules

  pub get_setting-Keeps : (key : Text) → Keeps env P (get_setting key)
  unfolding get_setting
  get_setting-Keeps key = search keeps_rules
