-- ===== src/Tests/Fixtures.antt =====
-- A store with one interface and two peers, and an environment in which nothing fails.
use wgrift.Base.{pos, true, false, none, some, [], ◌∷◌, codes}
use wgrift.Models.{Interface, Peer, User, client_access, client}
use wgrift.Store.Db.{Db, empty_db}
use wgrift.App.{Env, World}

-- Keys are their own ciphertexts here, and the clock and the generators count the ticks.
abbrev pub calm : Env
calm = record {
  clock = λ t. t;
  uuid = λ t. t ∷ [];
  db_fails = λ t. false;
  foreign_keys = λ t. true;
  encrypt = λ t text. some text;
  decrypt = λ text. some text;
  generate_key_pair = λ t. some (t ∷ [], t ∷ t ∷ []);
  generate_preshared_key = λ t. some (t ∷ []);
  public_key = λ key. some key;
  random_token = λ t. some (t ∷ []);
  hash_password = λ t password. some password;
  check_password = λ hash password. true;
  net_fails = λ t. false;
  net_exists = λ t. true;
  device = λ t id. none;
  discover = λ t issuer. some issuer;
  auth_code_url = λ config state nonce. config.endpoint;
  exchange = λ t config code. some (some code);
  verify_id_token = λ t provider raw. none;
  parse_address = λ address. true;
  read_file = λ t path. none;
  getenv = λ name. [];
  to_lower = λ c. c;
  qr_png = λ text. some text;
  send_mail = λ t address. true;
}

abbrev pub wg0 : Interface
wg0 = record {
  id = codes "wg0";
  interface_type = client_access;
  listen_port = pos 51820;
  private_key_encrypted = codes "key=";
  address = codes "10.0.0.1/24";
  dns = [];
  mtu = pos 1420;
  endpoint = [];
  post_up = [];
  post_down = [];
  enabled = true;
  created_at = 1;
  updated_at = 1;
}

abbrev pub laptop_row : Peer
laptop_row = record {
  id = codes "p1";
  interface_id = codes "wg0";
  peer_type = client;
  name = codes "laptop";
  public_key = codes "pub1=";
  private_key_encrypted = codes "priv1=";
  preshared_key_encrypted = [];
  address = codes "10.0.0.2/32";
  allowed_ips = codes "10.0.0.2/32";
  client_allowed_ips = [];
  dns = [];
  endpoint = [];
  persistent_keepalive = pos 25;
  alert_on_connect = false;
  alert_on_disconnect = false;
  alert_emails = [];
  enabled = true;
  expires_at = none;
  last_handshake = none;
  transfer_rx = pos 0;
  transfer_tx = pos 0;
  created_at = 2;
  updated_at = 2;
}

abbrev pub phone_row : Peer
phone_row = record laptop_row {
  id = codes "p2";
  name = codes "phone";
  public_key = codes "pub2=";
  address = codes "10.0.0.3/32";
  enabled = false;
  created_at = 3;
}

abbrev pub one_interface : Db
one_interface = record empty_db { interfaces = wg0 ∷ []; peers = laptop_row ∷ [] }

abbrev pub world_of : Db → World
world_of db = record {
  db = db;
  tick = 10;
  calls = [];
  oidc = record { providers = []; ready = false };
}

abbrev pub root_user : User
root_user = record {
  id = [];
  username = codes "root";
  password_hash = codes "hash";
  display_name = codes "root";
  role = codes "admin";
  is_initial = true;
  oidc_provider = [];
  oidc_subject = [];
  oidc_issuer = [];
  created_at = 0;
  updated_at = 0;
}
