-- ===== src/Models.antt =====
-- internal/models/models.go. A time is a count of nanoseconds from Go's zero time, which is 0.
use wgrift.Base.{ℕ, ℤ, Bool, Option, Text, codes}

abbrev pub Time : Type 0
Time = ℕ

abbrev pub site_to_site : Text
site_to_site = codes "site-to-site"

abbrev pub client_access : Text
client_access = codes "client-access"

abbrev pub client : Text
client = codes "client"

abbrev pub site : Text
site = codes "site"

pub record Interface : Type 0 where
  pub id : Text
  pub interface_type : Text
  pub listen_port : ℤ
  pub private_key_encrypted : Text
  pub address : Text
  pub dns : Text
  pub mtu : ℤ
  pub endpoint : Text
  pub post_up : Text
  pub post_down : Text
  pub enabled : Bool
  pub created_at : Time
  pub updated_at : Time

pub record Peer : Type 0 where
  pub id : Text
  pub interface_id : Text
  pub peer_type : Text
  pub name : Text
  pub public_key : Text
  pub private_key_encrypted : Text
  pub preshared_key_encrypted : Text
  pub address : Text
  pub allowed_ips : Text
  pub client_allowed_ips : Text
  pub dns : Text
  pub endpoint : Text
  pub persistent_keepalive : ℤ
  pub alert_on_connect : Bool
  pub alert_on_disconnect : Bool
  pub alert_emails : Text
  pub enabled : Bool
  pub expires_at : Option Time
  pub last_handshake : Option Time
  pub transfer_rx : ℤ
  pub transfer_tx : ℤ
  pub created_at : Time
  pub updated_at : Time

pub record User : Type 0 where
  pub id : Text
  pub username : Text
  pub password_hash : Text
  pub display_name : Text
  pub role : Text
  pub is_initial : Bool
  pub oidc_provider : Text
  pub oidc_subject : Text
  pub oidc_issuer : Text
  pub created_at : Time
  pub updated_at : Time

pub record OidcProvider : Type 0 where
  pub id : Text
  pub name : Text
  pub issuer : Text
  pub client_id : Text
  pub client_secret_encrypted : Text
  pub scopes : Text
  pub auto_discover : Bool
  pub admin_claim : Text
  pub admin_value : Text
  pub default_role : Text
  pub enabled : Bool
  pub created_at : Time
  pub updated_at : Time

pub record OidcState : Type 0 where
  pub state : Text
  pub provider_id : Text
  pub nonce : Text
  pub redirect_url : Text
  pub created_at : Time

pub record Session : Type 0 where
  pub id : Text
  pub user_id : Text
  pub csrf_token : Text
  pub expires_at : Time
  pub created_at : Time
  pub last_seen_at : Time
  pub ip_address : Text
  pub user_agent : Text

pub record ConnectionLog : Type 0 where
  pub id : ℕ
  pub peer_id : Text
  pub peer_name : Text
  pub interface_id : Text
  pub event : Text
  pub endpoint : Text
  pub transfer_rx : ℤ
  pub transfer_tx : ℤ
  pub recorded_at : Time
  pub duration : ℤ
