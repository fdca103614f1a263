-- ===== src/Server/Settings/Mail.antt =====
-- internal/server/handler_settings.go: the SMTP settings.
use wgrift.Base.{
  not, Option, none, some, List, [], ◌∷◌, Text, codes, is_nil, is_zero, print_int, if◌then◌else◌,
}
use wgrift.Models.{User}
use wgrift.App.{App, Error, message, wrapped, pure, ◌>>=◌, attempt, external_call}
use wgrift.Store.Settings.{set_setting}
use wgrift.Server.{Server, Request, SmtpConfig, setting_or_blank, or_blank, text_or, external_url}
use wgrift.Server.Smtp.{config_enabled, config_password, smtp_settings}
use wgrift.Server.Email.{with_smtp, if_address, send_mail}
use wgrift.Server.Response.{
  Response, Decoded, SmtpSettingsData, write_json, write_error, its_error, said, answering,
  with_json, if_admin, status_is, sent_to,
}

-- The settings of the configuration file, the password told only as there or not.
unfoldable pub configured_data : SmtpConfig → App (Option SmtpSettingsData)
configured_data c =
    if config_enabled c
    then (do
      password ← attempt (config_password c)
      pure (
          some (record {
            host = c.host;
            port = if is_zero c.port then codes "587" else print_int c.port;
            username = c.username;
            has_password = not (is_nil (or_blank password));
            from = c.from;
            tls = text_or c.tls (codes "starttls");
          })))
    else pure none

unfoldable pub stored_data : Text → App (Option SmtpSettingsData)
stored_data host = do
  port ← setting_or_blank (codes "smtp_port")
  username ← setting_or_blank (codes "smtp_username")
  encrypted ← setting_or_blank (codes "smtp_password_encrypted")
  from ← setting_or_blank (codes "smtp_from")
  tls ← setting_or_blank (codes "smtp_tls")
  pure (
      some (record {
        host = host;
        port = text_or port (codes "587");
        username = username;
        has_password = not (is_nil encrypted);
        from = from;
        tls = text_or tls (codes "starttls");
      }))

unfoldable pub load_smtp_settings_data : Server → App (Option SmtpSettingsData)
unfolding configured_data stored_data
load_smtp_settings_data s = do
  host ← setting_or_blank (codes "smtp_host")
  if is_nil host then configured_data s.smtp else stored_data host

pub record UpdateSmtpRequest : Type 0 where
  pub host : Text
  pub port : Text
  pub username : Text
  pub password : Text
  pub from : Text
  pub tls : Text

-- A write of one setting, and what follows.
abbrev pub setting : Text → Text → App Response → App Response
setting key value next = answering (its_error 500) (set_setting key value) (λ _. next)

-- The password that is left out stays as it is.
unfoldable pub set_smtp_password : Text → App Response → App Response
set_smtp_password password next =
    if is_nil password
    then next
    else answering (said 500 "failed to encrypt password")
        (external_call (λ env t. env.encrypt t password))
        (λ encrypted. setting (codes "smtp_password_encrypted") encrypted next)

-- The settings are written one by one, not in a transaction.
unfoldable pub handle_update_smtp : User → Decoded UpdateSmtpRequest → App Response
unfolding set_smtp_password
handle_update_smtp caller body = if_admin caller (
    with_json body (λ req.
      if is_nil req.host
      then write_error 400 (message "host is required")
      else if is_nil req.from
      then write_error 400 (message "from address is required")
      else setting (codes "smtp_host") req.host (
          setting (codes "smtp_port") (text_or req.port (codes "587")) (
            setting (codes "smtp_username") req.username (
              set_smtp_password req.password (
                setting (codes "smtp_from") req.from (
                  setting (codes "smtp_tls") (text_or req.tls (codes "starttls"))
                    (write_json 200 (status_is "updated")))))))))

abbrev pub loading_failed : Error → App Response
loading_failed e = write_error 500 (wrapped "failed to load SMTP settings" e)

abbrev pub test_failed : Error → App Response
test_failed e = write_error 500 (wrapped "SMTP test failed" e)

unfoldable pub handle_test_smtp : Server → Request → User → Decoded Text → App Response
handle_test_smtp s r caller body = if_admin caller (
    with_json body (λ to. if_address to (
      answering loading_failed (smtp_settings s) (λ found. with_smtp found (λ smtp. do
        url ← external_url s r
        answering test_failed (send_mail to) (λ _. write_json 200 (sent_to to)))))))

abbrev pub smtp_keys : List Text
smtp_keys =
    codes "smtp_host"
    ∷ codes "smtp_port"
    ∷ codes "smtp_username"
    ∷ codes "smtp_password_encrypted"
    ∷ codes "smtp_from"
    ∷ codes "smtp_tls"
    ∷ []

unfoldable pub blank_all : List Text → App Response
blank_all [] = write_json 200 (status_is "deleted")
blank_all (key ∷ keys) = setting key [] (blank_all keys)

unfoldable pub handle_delete_smtp : User → App Response
unfolding blank_all
handle_delete_smtp caller = if_admin caller (blank_all smtp_keys)
