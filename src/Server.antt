-- ===== src/Server.antt =====
-- internal/server: the HTTP server, what its handlers are given, and the settings that they share.
pub mod Response
pub mod Answers
pub mod Smtp
pub mod Auth
pub mod Users
pub mod Peers
pub mod Email
pub mod Interfaces
pub mod Running
pub mod Settings
pub mod Logs
pub mod Dashboard
pub mod Oidc
pub mod Reading
pub mod Consistent
pub mod Routes
use wgrift.Base.{
  ℕ, ℤ, ◌==◌, Bool, Option, none, some, List, [], ◌∷◌, ◌++◌, Text, codes, text_eq, is_nil,
  if◌then◌else◌,
}
use wgrift.Base.Result.{Result, ok, err}
use wgrift.App.{App, Error, pure, ◌>>=◌, attempt}
use wgrift.Store.Settings.{get_setting}
use wgrift.Auth.{Service}
use wgrift.Poller.{Poller}

-- `config.SMTPConfig`.
pub record SmtpConfig : Type 0 where
  pub host : Text
  pub port : ℤ
  pub username : Text
  pub password_file : Text
  pub from : Text
  pub tls : Text

-- `Server`, with the fields of its configuration that the handlers read. The store is the world's.
pub record Server : Type 0 where
  pub auth : Service
  pub local_auth_enabled : Bool
  pub tls_mode : Text
  pub external_url : Text
  pub demo : Bool
  pub smtp : SmtpConfig
  -- whether there is an OIDC service
  pub has_oidc : Bool
  -- the manager's external address
  pub external_ip : Text
  pub poller : Poller

-- What a handler reads of a request beside its path and its body.
pub record Request : Type 0 where
  pub cookie : Option Text
  pub csrf_header : Text
  pub remote_addr : Text
  pub user_agent : Text
  pub host : Text

abbrev pub or_blank : Result Error Text → Text
or_blank (ok v) = v
or_blank (err e) = []

-- `v, _ := s.store.GetSetting(key)`.
unfoldable pub setting_or_blank : Text → App Text
setting_or_blank key = do r ← attempt (get_setting key); pure (or_blank r)

abbrev pub text_or : Text → Text → Text
text_or text other = if is_nil text then other else text

-- `strings.TrimRight(url, "/")`.
unfoldable pub trim_slashes : Text → Text
trim_slashes [] = []
trim_slashes (c ∷ s) = elim (trim_slashes s) [
  | [] ↦ if c == b'/' then [] else c ∷ []
  | d ∷ r ↦ c ∷ d ∷ r
]

-- The setting comes before the configuration, and this before the request.
unfoldable pub external_url : Server → Request → App Text
unfolding setting_or_blank trim_slashes
external_url s r = do
  url ← setting_or_blank (codes "external_url")
  pure (
      if is_nil url
      then if is_nil s.external_url
        then (if text_eq s.tls_mode (codes "none") then codes "http" else codes "https")
          ++ (codes "://" ++ r.host)
        else trim_slashes s.external_url
      else trim_slashes url)
