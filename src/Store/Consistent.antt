-- ===== src/Store/Consistent.antt =====
-- The consistency of the tables that internal/store/migrations declare: the keys are distinct, the
-- checked columns have allowed values, and every reference leads to a row.
pub mod Peers
pub mod Interfaces
pub mod Logs
pub mod Users
pub mod Sessions
pub mod Settings
pub mod Methods
use wgrift.Base.{◌≡◌, Bool, true, not, List, Text, text_eq, is_nil, every, ◌&&◌}
use wgrift.Models.{User, OidcProvider, OidcState}
use wgrift.Store.Db.{
  Db, peer_type_allowed, interface_type_allowed, role_allowed, event_allowed, interface_exists,
  peer_exists, user_exists,
}
use wgrift.Store.Keys.{IsDistinct}
use wgrift.Store.Apart.{IsApart, IsNumbered}

-- Two users of one provider with one subject.
abbrev pub same_oidc : User → User → Bool
same_oidc a b =
    not (is_nil a.oidc_provider)
    && (text_eq a.oidc_provider b.oidc_provider && text_eq a.oidc_subject b.oidc_subject)

-- The keys of the tables that no other table refers to.
pub record IsKeyed (settings : List (Text × Text)) (providers : List OidcProvider)
    (states : List OidcState) : Type 0 where
  pub setting_keys : IsDistinct (λ kv. kv.0) settings
  pub provider_ids : IsDistinct (λ p. p.id) providers
  pub provider_names : IsDistinct (λ p. p.name) providers
  pub state_keys : IsDistinct (λ s. s.state) states

pub record IsConsistent (db : Db) : Type 0 where
  pub interface_ids : IsDistinct (λ i. i.id) db.interfaces
  pub interface_types : every (λ i. interface_type_allowed i.interface_type) db.interfaces ≡ true
  pub peer_ids : IsDistinct (λ p. p.id) db.peers
  pub public_keys : IsDistinct (λ p. p.public_key) db.peers
  pub peer_types : every (λ p. peer_type_allowed p.peer_type) db.peers ≡ true
  pub peers_belong : every (λ p. interface_exists p.interface_id db) db.peers ≡ true
  pub logs_belong : every (λ l. peer_exists l.peer_id db) db.connection_logs ≡ true
  pub user_ids : IsDistinct (λ u. u.id) db.users
  pub usernames : IsDistinct (λ u. u.username) db.users
  pub roles : every (λ u. role_allowed u.role) db.users ≡ true
  pub sessions_belong : every (λ s. user_exists s.user_id db) db.sessions ≡ true
  pub session_ids : IsDistinct (λ s. s.id) db.sessions
  pub log_ids : IsNumbered (λ l. l.id) db.last_log_id db.connection_logs
  pub log_events : every (λ l. event_allowed l.event) db.connection_logs ≡ true
  pub identities : IsApart same_oidc db.users
  pub keyed : IsKeyed db.settings db.oidc_providers db.oidc_states
