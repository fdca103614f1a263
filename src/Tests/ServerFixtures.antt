-- ===== src/Tests/ServerFixtures.antt =====
-- A server, a viewer of it, and an environment with a provider of logins.
use wgrift.Base.{pos, true, false, some, [], ◌∷◌, codes}
use wgrift.Models.{User, OidcProvider}
use wgrift.Store.Db.{Db, empty_db}
use wgrift.App.{Env, World}
use wgrift.App.External.{ResolvedProvider, array_value}
use wgrift.Server.{Server, Request}
use wgrift.Tests.Fixtures.{calm, root_user, world_of}

abbrev pub server : Server
server = record {
  auth = record { session_timeout = 100; max_session_age = 1000; min_password_length = 8 };
  local_auth_enabled = true;
  tls_mode = codes "none";
  external_url = [];
  demo = false;
  smtp = record { host = []; port = pos 0; username = []; password_file = []; from = []; tls = [] };
  has_oidc = true;
  external_ip = codes "192.0.2.1";
  poller = record { last_state = []; seed_connected = []; alerts = []; has_alert_fn = false };
}

abbrev pub request : Request
request = record {
  cookie = some (codes "s1");
  csrf_header = codes "t";
  remote_addr = [];
  user_agent = [];
  host = codes "vpn.example";
}

abbrev pub viewer : User
viewer = record root_user { id = codes "u2"; username = codes "ann"; role = codes "viewer" }

-- The administrator u1, with the session s1, and the viewer.
abbrev pub logged_in : Db
logged_in = record empty_db {
  users = record root_user { id = codes "u1" } ∷ viewer ∷ [];
  sessions =
      record {
        id = codes "s1";
        user_id = codes "u1";
        csrf_token = codes "t";
        expires_at = 500;
        created_at = 5;
        last_seen_at = 5;
        ip_address = [];
        user_agent = [];
      }
      ∷ [];
}

abbrev pub provider : OidcProvider
provider = record {
  id = codes "p";
  name = codes "Id";
  issuer = codes "https://id.example";
  client_id = codes "c";
  client_secret_encrypted = codes "secret";
  scopes = [];
  auto_discover = true;
  admin_claim = codes "groups";
  admin_value = codes "ops";
  default_role = [];
  enabled = true;
  created_at = 1;
  updated_at = 1;
}

abbrev pub resolved : ResolvedProvider
resolved = record {
  model = provider;
  oauth = record {
    client_id = codes "c";
    client_secret = codes "secret";
    scopes = [];
    endpoint = codes "https://id.example/authorize";
    redirect_url = [];
  };
}

-- The provider takes any code, and its token is for `sub`, in the group of administrators.
abbrev pub trusting : Env
trusting = record calm {
  verify_id_token = λ t r raw. some (record {
    nonce = codes "n";
    claims = some (record {
      subject = codes "sub";
      preferred_username = codes "bob";
      email = [];
      name = codes "Bob";
    });
    all_claims = some ((codes "groups", array_value (some (codes "ops") ∷ [])) ∷ []);
  });
}

-- A login waits under the state `st`.
abbrev pub waiting : World
waiting =
    record (world_of (record logged_in {
      oidc_states =
          record {
            state = codes "st";
            provider_id = codes "p";
            nonce = codes "n";
            redirect_url = codes "/peers";
            created_at = 5;
          }
          ∷ [];
    })) { oidc = record { providers = resolved ∷ []; ready = true } }
