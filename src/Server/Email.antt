-- ===== src/Server/Email.antt =====
-- internal/server/handler_email.go.
use wgrift.Base.{Option, none, some, Text, is_nil, if◌then◌else◌}
use wgrift.App.{App, Error, message, wrapped, ◌>>=◌, external_call}
use wgrift.Store.Peers.{get_peer}
use wgrift.Wg.ClientConf.{generate_config}
use wgrift.Server.{Server, Request, external_url}
use wgrift.Server.Smtp.{SmtpSettings, smtp_settings}
use wgrift.Server.Peers.{generate_png}
use wgrift.Server.Response.{
  Response, Decoded, write_json, write_error, its_error, said, answering, with_json, sent_to,
}

pub record EmailRequest : Type 0 where
  pub to : Text
  pub note : Text

-- The branches of `smtp == nil` and of an address that does not parse.
abbrev pub with_smtp : Option SmtpSettings → (SmtpSettings → App Response) → App Response
with_smtp none next = write_error 400 (message "SMTP is not configured")
with_smtp (some smtp) next = next smtp

unfoldable pub if_address : Text → App Response → App Response
if_address to next = if is_nil to then write_error 400 (message "email address is required") else do
  valid ← external_call (λ env t. some (env.parse_address to))
  if valid then next else write_error 400 (message "invalid email address")

-- Whether the mail server takes a message.
unfoldable pub send_mail : Text → App (Unit {0})
send_mail to = external_call (λ env t. if env.send_mail t to then some tt else none)

abbrev pub sending_failed : Error → App Response
sending_failed e = write_error 500 (wrapped "failed to send email" e)

-- The peer is not looked at for `nil`: a missing one makes the configuration fail, before its name
-- is read.
unfoldable pub email_config : Server → Request → Text → EmailRequest → App Response
unfolding send_mail
email_config s r id req = answering (said 404 "peer not found") (get_peer id) (λ peer.
    answering (its_error 500) (generate_config s.external_ip id) (λ conf.
      answering (said 500 "failed to generate QR code") (generate_png conf) (λ png. do
        server_name ← external_url s r
        answering sending_failed (send_mail req.to) (λ _. write_json 200 (sent_to req.to)))))

unfoldable pub handle_email_peer_config :
    Server → Request → Text → Decoded EmailRequest → App Response
unfolding if_address email_config
handle_email_peer_config s r id body =
    answering (said 500 "failed to load SMTP settings") (smtp_settings s) (λ found.
      with_smtp found (λ smtp. with_json body (λ req. if_address req.to (email_config s r id req))))
