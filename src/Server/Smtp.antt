-- ===== src/Server/Smtp.antt =====
-- internal/server/smtp.go, and the SMTP part of internal/config/config.go.
use wgrift.Base.{
  ℤ, pos, Bool, true, not, Option, none, some, [], Text, codes, is_nil, is_zero, atoi, trim_space,
  if◌then◌else◌,
}
use wgrift.App.{App, pure, ◌>>=◌, wrapping, external_call}
use wgrift.Server.{Server, SmtpConfig, setting_or_blank, text_or}

-- `mail.SMTPSettings`.
pub record SmtpSettings : Type 0 where
  pub host : Text
  pub port : ℤ
  pub username : Text
  pub password : Text
  pub from : Text
  pub tls : Text

-- `SMTPConfig.Enabled`.
unfoldable pub config_enabled : SmtpConfig → Bool
config_enabled c = not (is_nil c.host)

abbrev trimmed : Option Text → Option Text
trimmed none = none
trimmed (some s) = some (trim_space s)

-- `SMTPConfig.Password`: the environment comes before the file.
unfoldable pub config_password : SmtpConfig → App Text
config_password c = wrapping "reading SMTP password file" (
    external_call (λ env t.
      let from_env = env.getenv (codes "WGRIFT_SMTP_PASSWORD") in
      if not (is_nil from_env)
      then some from_env
      else if is_nil c.password_file
      then some []
      else trimmed (env.read_file t c.password_file)))

abbrev port_or : ℤ → Option ℤ → ℤ
port_or default none = default
port_or default (some p) = p

-- A port that is no number is the default one.
unfoldable pub port_of : Text → ℤ
port_of text = if is_nil text then pos 587 else port_or (pos 587) (atoi text)

unfoldable pub decrypt_password : Text → App Text
decrypt_password encrypted =
    if is_nil encrypted then pure [] else external_call (λ env t. env.decrypt encrypted)

-- The settings of the database, for a host that is set there.
unfoldable pub stored_smtp : Text → App (Option SmtpSettings)
unfolding port_of decrypt_password
stored_smtp host = do
  port ← setting_or_blank (codes "smtp_port")
  username ← setting_or_blank (codes "smtp_username")
  encrypted ← setting_or_blank (codes "smtp_password_encrypted")
  from ← setting_or_blank (codes "smtp_from")
  tls ← setting_or_blank (codes "smtp_tls")
  password ← decrypt_password encrypted
  pure (
      some (record {
        host = host;
        port = port_of port;
        username = username;
        password = password;
        from = from;
        tls = text_or tls (codes "starttls");
      }))

unfoldable pub configured_smtp : SmtpConfig → App (Option SmtpSettings)
unfolding config_enabled config_password
configured_smtp c =
    if config_enabled c
    then (do
      password ← config_password c
      pure (
          some (record {
            host = c.host;
            port = if is_zero c.port then pos 587 else c.port;
            username = c.username;
            password = password;
            from = c.from;
            tls = text_or c.tls (codes "starttls");
          })))
    else pure none

-- The database comes before the configuration file.
unfoldable pub smtp_settings : Server → App (Option SmtpSettings)
unfolding stored_smtp configured_smtp
smtp_settings s = do
  host ← setting_or_blank (codes "smtp_host")
  if is_nil host then configured_smtp s.smtp else stored_smtp host

unfoldable pub smtp_enabled : Server → App Bool
unfolding config_enabled
smtp_enabled s = do
  host ← setting_or_blank (codes "smtp_host")
  pure (if is_nil host then config_enabled s.smtp else true)
