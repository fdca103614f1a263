-- ===== src/Config.antt =====
-- The configuration of the program (internal/config/config.go): its record, its defaults, and the
-- environment variables that come before the file.
pub mod Overrides
use wgrift.Base.{
  ℤ, pos, Bool, true, false, not, ◌||◌, Option, none, some, List, [], Text, codes, text_eq, is_nil,
  if◌then◌else◌,
}
use wgrift.Base.Result.{Result, ok, err}
use wgrift.Server.{SmtpConfig}

pub record TlsConfig : Type 0 where
  pub mode : Text
  pub acme_email : Text
  pub cert_file : Text
  pub key_file : Text

pub record ServerConfig : Type 0 where
  pub listen : Text
  pub external_url : Text
  pub auto_start_interfaces : Option Bool
  pub tls : TlsConfig

pub record LocalAuth : Type 0 where
  pub enabled : Bool
  pub min_password_length : ℤ

pub record OidcConfig : Type 0 where
  pub name : Text
  pub issuer : Text
  pub client_id : Text
  pub client_secret_file : Text
  pub scopes : List Text
  pub admin_claim : Text
  pub admin_value : Text

pub record MfaConfig : Type 0 where
  pub required : Bool

pub record DatabaseConfig : Type 0 where
  pub path : Text

pub record EncryptionConfig : Type 0 where
  pub master_key_file : Text

pub record AuthConfig : Type 0 where
  pub session_timeout : Text
  pub max_session_age : Text
  pub local : LocalAuth
  pub oidc : List OidcConfig
  pub mfa : MfaConfig

pub record LoggingConfig : Type 0 where
  pub connection_poll_interval : Text
  pub connection_timeout : Text
  pub retention_days : ℤ
  pub audit_retention_days : ℤ

pub record BackupConfig : Type 0 where
  pub path : Text
  pub schedule : Text
  pub retention_count : ℤ

pub record UniFiConfig : Type 0 where
  pub enabled : Bool
  pub controller_url : Text
  pub username : Text
  pub password_file : Text
  pub site : Text

pub record Config : Type 0 where
  pub demo : Bool
  pub server : ServerConfig
  pub database : DatabaseConfig
  pub auth : AuthConfig
  pub encryption : EncryptionConfig
  pub logging : LoggingConfig
  pub backup : BackupConfig
  pub unifi : UniFiConfig
  pub smtp : SmtpConfig

unfoldable pub should_auto_start : ServerConfig → Bool
should_auto_start c = elim c.auto_start_interfaces [ none ↦ true | some b ↦ b ]

pub data LoadError : Type 0 where
  reading_config : LoadError
  parsing_config : LoadError

pub data KeyError : Type 0 where
  no_master_key : KeyError
  reading_master_key : KeyError

abbrev pub auto_start_set : Text → Bool
auto_start_set v = text_eq v (codes "true") || text_eq v (codes "1")

-- The variables of the environment, and the files.
module _ (getenv : Text → Text) where
  abbrev pub demo_set : Bool
  demo_set = text_eq (getenv (codes "WGRIFT_DEMO_MODE")) (codes "true")

  unfoldable pub defaults : Config
  defaults = record {
    demo = demo_set;
    server = record {
      listen = codes "0.0.0.0:8080";
      external_url = [];
      auto_start_interfaces = some true;
      tls = record { mode = codes "none"; acme_email = []; cert_file = []; key_file = [] };
    };
    database = record { path = codes "./wgrift.db" };
    auth = record {
      session_timeout = codes "30m";
      max_session_age = codes "24h";
      local = record { enabled = true; min_password_length = pos 16 };
      oidc = [];
      mfa = record { required = false };
    };
    encryption = record { master_key_file = codes "/etc/wgrift/master.key" };
    logging = record {
      connection_poll_interval = codes "30s";
      connection_timeout = codes "180s";
      retention_days = pos 90;
      audit_retention_days = pos 365;
    };
    backup = record {
      path = codes "/var/lib/wgrift/backups";
      schedule = codes "0 2 * * *";
      retention_count = pos 30;
    };
    unifi = record {
      enabled = false;
      controller_url = [];
      username = [];
      password_file = [];
      site = codes "default";
    };
    smtp = record {
      host = [];
      port = pos 0;
      username = [];
      password_file = [];
      from = [];
      tls = [];
    };
  }

  abbrev pub override_key : Config → Config
  override_key cfg =
      if is_nil (getenv (codes "WGRIFT_MASTER_KEY"))
      then cfg
      else record cfg { encryption = record { master_key_file = [] } }

  abbrev pub override_demo : Config → Config
  override_demo cfg = if demo_set then record cfg { demo = true } else cfg

  abbrev pub override_auto_start : Config → Config
  override_auto_start cfg =
      let v = getenv (codes "WGRIFT_AUTO_START_INTERFACES") in
      if is_nil v then cfg else record cfg {
        server = record cfg.server { auto_start_interfaces = some (auto_start_set v) };
      }

  abbrev pub override_parsed : Config × Bool → Config × Option LoadError
  override_parsed (cfg, false) = (cfg, some parsing_config)
  override_parsed (cfg, true) = (override_auto_start (override_demo (override_key cfg)), none)

  module _ (read_file : Text → Option Text) where
    abbrev pub read_key : Option Text → Result KeyError Text
    read_key none = err reading_master_key
    read_key (some key) = ok key

    unfoldable pub master_key : Config → Result KeyError Text
    master_key cfg =
        let key = getenv (codes "WGRIFT_MASTER_KEY") in
        if not (is_nil key)
        then ok key
        else if is_nil cfg.encryption.master_key_file
        then err no_master_key
        else read_key (read_file cfg.encryption.master_key_file)

    -- `unmarshal` is `yaml.Unmarshal`: what it makes of a configuration, and whether without an error.
    -- The configuration is returned beside an error too.
    unfoldable pub load : (Text → Config → Config × Bool) → Text → Config × Option LoadError
    unfolding defaults
    load unmarshal path = elim (read_file path) [
      | none ↦ (defaults, some reading_config)
      | some text ↦ override_parsed (unmarshal text defaults)
    ]
