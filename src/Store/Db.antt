-- ===== src/Store/Db.antt =====
-- The tables of internal/store/migrations, as lists of rows in the order of insertion, and what
-- the statements do to a table.
pub mod Order
use wgrift.Base.{
  ℕ, Bool, not, ◌||◌, List, [], ◌∷◌, Text, codes, text_eq, select, any, if◌then◌else◌,
}
use wgrift.Models.{
  Interface, Peer, User, OidcProvider, OidcState, Session, ConnectionLog, site_to_site,
  client_access, client, site,
}

pub record Db : Type 0 where
  pub interfaces : List Interface
  pub peers : List Peer
  pub users : List User
  pub sessions : List Session
  pub settings : List (Text × Text)
  pub oidc_providers : List OidcProvider
  pub oidc_states : List OidcState
  pub connection_logs : List ConnectionLog
  -- the AUTOINCREMENT counter of connection_logs
  pub last_log_id : ℕ

abbrev pub empty_db : Db
empty_db = record {
  interfaces = [];
  peers = [];
  users = [];
  sessions = [];
  settings = [];
  oidc_providers = [];
  oidc_states = [];
  connection_logs = [];
  last_log_id = 0;
}

pub data Constraint : Type 0 where
  check_failed not_unique foreign_key_failed : Constraint

module _ {ℓ} {A : Type ℓ} where
  -- `UPDATE … WHERE`.
  unfoldable pub update_where : (A → Bool) → (A → A) → List A → List A
  update_where p f [] = []
  update_where p f (x ∷ xs) = (if p x then f x else x) ∷ update_where p f xs

  -- `DELETE … WHERE`.
  unfoldable pub delete_where : (A → Bool) → List A → List A
  delete_where p xs = select (λ x. not (p x)) xs

  insert_by : (A → A → Bool) → A → List A → List A
  insert_by before x [] = x ∷ []
  insert_by before x (y ∷ ys) =
      let rest = insert_by before x ys in if before x y then x ∷ y ∷ ys else y ∷ rest

  -- `ORDER BY`: rows that compare equal keep the order of insertion.
  unfoldable pub order_by : (A → A → Bool) → List A → List A
  unfolding insert_by
  order_by before [] = []
  order_by before (x ∷ xs) = insert_by before x (order_by before xs)

-- `CHECK(type IN ('site-to-site', 'client-access'))`.
unfoldable pub interface_type_allowed : Text → Bool
interface_type_allowed t = text_eq t site_to_site || text_eq t client_access

-- `CHECK(type IN ('client', 'site'))`.
unfoldable pub peer_type_allowed : Text → Bool
peer_type_allowed t = text_eq t client || text_eq t site

-- `CHECK(role IN ('admin', 'viewer'))`.
unfoldable pub role_allowed : Text → Bool
role_allowed r = text_eq r (codes "admin") || text_eq r (codes "viewer")

-- `CHECK(event IN ('connected', 'disconnected'))`.
unfoldable pub event_allowed : Text → Bool
event_allowed e = text_eq e (codes "connected") || text_eq e (codes "disconnected")

abbrev pub interface_exists : Text → Db → Bool
interface_exists id db = any (λ i. text_eq i.id id) db.interfaces

abbrev pub peer_exists : Text → Db → Bool
peer_exists id db = any (λ p. text_eq p.id id) db.peers

abbrev pub user_exists : Text → Db → Bool
user_exists id db = any (λ u. text_eq u.id id) db.users
