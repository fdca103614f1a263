-- ===== src/Server/Response.antt =====
-- internal/server/respond.go, and the bodies of the responses.
use wgrift.Base.{ℕ, ℤ, Bool, Option, none, some, List, Text, codes, text_eq, if◌then◌else◌}
use Prim.Native.String.{String}
use wgrift.Base.Result.{Result, ok, err}
use wgrift.Models.{Time, Interface, Peer, User, OidcProvider, ConnectionLog}
use wgrift.App.{App, Error, message, pure, ◌>>=◌, attempt}
use wgrift.Wg.Status.{InterfaceStatus}

pub record SmtpSettingsData : Type 0 where
  pub host : Text
  pub port : Text
  pub username : Text
  pub has_password : Bool
  pub from : Text
  pub tls : Text

pub record SettingsResponse : Type 0 where
  pub external_url : Text
  pub oidc_providers : List OidcProvider
  pub local_auth_enabled : Bool
  pub smtp : Option SmtpSettingsData

pub record InterfaceSummary : Type 0 where
  pub id : Text
  pub interface_type : Text
  pub address : Text
  pub listen_port : ℤ
  pub endpoint : Text
  pub enabled : Bool
  pub running : Bool
  pub public_key : Text
  pub total_peers : ℕ
  pub connected_peers : ℕ
  pub total_rx : ℤ
  pub total_tx : ℤ

-- The zero time stands for a text that is empty, any other one for its format.
pub record ActiveConnection : Type 0 where
  pub interface_id : Text
  pub peer_id : Text
  pub peer_name : Text
  pub peer_type : Text
  pub address : Text
  pub endpoint : Text
  pub last_handshake : Time
  pub connected_since : Time
  pub transfer_rx : ℤ
  pub transfer_tx : ℤ

pub record DashboardResponse : Type 0 where
  pub interfaces : List InterfaceSummary
  pub active_connections : List ActiveConnection
  pub total_peers : ℕ
  pub active_peers : ℕ
  pub total_rx : ℤ
  pub total_tx : ℤ

pub record SessionResponse : Type 0 where
  pub user : User
  pub csrf_token : Text
  pub smtp_enabled : Bool

pub record ProviderInfo : Type 0 where
  pub id : Text
  pub name : Text
  pub login_url : Text

pub record AuthOptions : Type 0 where
  pub auth_required : Bool
  pub oidc_providers : List ProviderInfo
  pub local_auth_enabled : Bool
  pub demo : Bool

-- The values that the handlers write as JSON.
pub data Payload : Type 0 where
  status_is : String → Payload
  sent_to : Text → Payload
  the_user : User → Payload
  the_users : List User → Payload
  the_peer : Peer → Payload
  the_peers : List Peer → Payload
  the_interface : Interface → Payload
  the_interfaces : List Interface → Payload
  adopted : Interface → ℕ → Payload
  -- the time that each peer has been connected since, beside the status
  the_status : InterfaceStatus → List (Option Time) → Payload
  the_logs : List ConnectionLog → Payload
  the_provider : OidcProvider → Payload
  the_settings : SettingsResponse → Payload
  the_dashboard : DashboardResponse → Payload
  the_session : SessionResponse → Payload
  auth_options : AuthOptions → Payload
  setup_needed : Payload

pub data Body : Type 0 where
  json : Payload → Body
  json_list : Payload → ℕ → Body
  json_error : Error → Body
  -- a configuration, and the name of its peer
  config_file : Text → Text → Body
  image : Text → Body
  redirect : Text → Body

-- The session cookie of a login, strict or lax, or its removal.
pub data Cookie : Type 0 where
  strict lax : (value : Text) (secure : Bool) → Cookie
  cleared : Cookie

pub record Response : Type 0 where
  pub status : ℕ
  pub body : Body
  pub cookie : Option Cookie

abbrev pub response : ℕ → Body → Response
response status body = record { status = status; body = body; cookie = none }

abbrev pub write_json : ℕ → Payload → App Response
write_json status v = pure (response status (json v))

abbrev pub write_json_list : ℕ → Payload → ℕ → App Response
write_json_list status v total = pure (response status (json_list v total))

abbrev pub write_error : ℕ → Error → App Response
write_error status e = pure (response status (json_error e))

-- The status of a validation error is 200.
abbrev pub write_validation_error : Error → App Response
write_validation_error e = pure (response 200 (json_error e))

abbrev pub redirect_to : Text → App Response
redirect_to url = pure (response 302 (redirect url))

-- `v, err := …; if err != nil { … return }`, and what follows.
abbrev pub unless_error :
    {A : Type 0} → (Error → App Response) → Result Error A → (A → App Response) → App Response
unless_error failed (ok a) next = next a
unless_error failed (err e) next = failed e

unfoldable pub answering :
    {A : Type 0} → (Error → App Response) → App A → (A → App Response) → App Response
answering failed m next = do r ← attempt m; unless_error failed r next

-- The branch of an error: `writeError` with the error's message, or with a text of its own.
abbrev pub its_error : ℕ → Error → App Response
its_error status e = write_error status e

abbrev pub said : ℕ → String → Error → App Response
said status text e = write_error status (message text)

-- `readJSON`: the decoder is a library's, so a handler is given what it reads, or its error.
abbrev pub Decoded : Type 0 → Type 0
Decoded A = Result Error A

abbrev pub with_json : {A : Type 0} → Decoded A → (A → App Response) → App Response
with_json req next = unless_error (its_error 400) req next

abbrev pub or_not_found : {A : Type 0} → String → Option A → (A → App Response) → App Response
or_not_found text none next = write_error 404 (message text)
or_not_found text (some a) next = next a

abbrev pub is_admin : User → Bool
is_admin user = text_eq user.role (codes "admin")

-- `if user.Role != "admin" { … return }`, and what follows.
abbrev pub if_admin : User → App Response → App Response
if_admin user next =
    if is_admin user then next else write_error 403 (message "admin access required")
