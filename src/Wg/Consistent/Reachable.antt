-- ===== src/Wg/Consistent/Reachable.antt =====
-- The states that the program reaches from an empty store: the operations of internal/wg/manager.go
-- and the methods of internal/store that the server calls beside them, in any order.
use wgrift.Base.{ℕ, ◌≡◌, refl, Bool, true, Text, every}
use wgrift.Models.{Interface, Peer, User, Session, ConnectionLog, Time}
use wgrift.Store.Db.{empty_db}
use wgrift.App.{App, Env, World}
use wgrift.App.Keeps.{Keeps}
use wgrift.Store.Interfaces.{update_interface}
use wgrift.Store.Peers.{update_peer}
use wgrift.Store.Users.{create_user, update_user, delete_user}
use wgrift.Store.Sessions.{
  create_session, touch_session, delete_session, delete_expired_sessions, delete_user_sessions,
}
use wgrift.Store.Logs.{create_connection_log, delete_old_connection_logs}
use wgrift.Store.Consistent.{IsConsistent}
use wgrift.Store.Consistent.Methods
use wgrift.Confgen.Parse.{ParsedConfig}
use wgrift.Wg.Sync.{sync_interface}
use wgrift.Wg.Manager.{
  manager_create_interface, manager_delete_interface, add_peer, manager_remove_peer,
  set_peer_enabled, start_interface, stop_interface, restart_interface,
}
use wgrift.Wg.Import.{import_interface}
use wgrift.Wg.Consistent

-- The operations, each with the type of what it returns.
pub data IsOperation : (A : Type 0) → App A → Type 1 where
  creates_interface : (i : Interface) → IsOperation Interface (manager_create_interface i)
  deletes_interface :
      (id : Text) (force : Bool) → IsOperation (Unit {0}) (manager_delete_interface id force)
  updates_interface : (i : Interface) → IsOperation Interface (update_interface i)
  syncs_interface : (id : Text) → IsOperation (Unit {0}) (sync_interface id)
  starts_interface : (id : Text) → IsOperation (Unit {0}) (start_interface id)
  stops_interface : (id : Text) → IsOperation (Unit {0}) (stop_interface id)
  restarts_interface : (id : Text) → IsOperation (Unit {0}) (restart_interface id)
  imports_interface :
      (c : ParsedConfig) (id t : Text) → IsOperation Interface (import_interface c id t)
  adds_peer : (p : Peer) (psk : Bool) → IsOperation Peer (add_peer p psk)
  removes_peer : (id : Text) → IsOperation (Unit {0}) (manager_remove_peer id)
  sets_peer_enabled : (id : Text) (on : Bool) → IsOperation (Unit {0}) (set_peer_enabled id on)
  updates_peer : (p : Peer) → IsOperation Peer (update_peer p)
  creates_user : (u : User) → IsOperation User (create_user u)
  updates_user : (u : User) → IsOperation User (update_user u)
  deletes_user : (id : Text) → IsOperation (Unit {0}) (delete_user id)
  creates_session : (s : Session) → IsOperation Session (create_session s)
  touches_session : (id : Text) → IsOperation (Unit {0}) (touch_session id)
  deletes_session : (id : Text) → IsOperation (Unit {0}) (delete_session id)
  expires_sessions : IsOperation (Unit {0}) delete_expired_sessions
  deletes_user_sessions : (id : Text) → IsOperation (Unit {0}) (delete_user_sessions id)
  logs_connection : (l : ConnectionLog) → IsOperation (Unit {0}) (create_connection_log l)
  forgets_logs : (before : Time) → IsOperation (Unit {0}) (delete_old_connection_logs before)

-- The worlds behind any number of operations, whether these returned or failed.
pub data Reachable (env : Env) : World → Type 1 where
  started : (w : World) → w.db ≡ empty_db → Reachable env w
  stepped :
      {A : Type 0} (m : App A) (w : World)
      → IsOperation A m
      → Reachable env w
      → Reachable env (m env w).1

operation-Keeps :
    {env : Env} {A : Type 0} (m : App A)
    → ((t : ℕ) → env.foreign_keys t ≡ true)
    → IsOperation A m
    → Keeps env IsConsistent m
operation-Keeps _ e (creates_interface i) = Consistent.manager_create_interface-Keeps e i
operation-Keeps _ e (deletes_interface id force) =
    Consistent.manager_delete_interface-Keeps e id force
operation-Keeps _ e (updates_interface i) = Methods.update_interface-Keeps e i
operation-Keeps _ e (syncs_interface id) = Consistent.sync_interface-Keeps id
operation-Keeps _ e (starts_interface id) = Consistent.start_interface-Keeps e id
operation-Keeps _ e (stops_interface id) = Consistent.stop_interface-Keeps e id
operation-Keeps _ e (restarts_interface id) = Consistent.restart_interface-Keeps e id
operation-Keeps _ e (imports_interface c id t) = Consistent.import_interface-Keeps e c id t
operation-Keeps _ e (adds_peer p psk) = Consistent.add_peer-Keeps e p psk
operation-Keeps _ e (removes_peer id) = Consistent.manager_remove_peer-Keeps e id
operation-Keeps _ e (sets_peer_enabled id on) = Consistent.set_peer_enabled-Keeps e id on
operation-Keeps _ e (updates_peer p) = Methods.update_peer-Keeps e p
operation-Keeps _ e (creates_user u) = Methods.create_user-Keeps e u
operation-Keeps _ e (updates_user u) = Methods.update_user-Keeps e u
operation-Keeps _ e (deletes_user id) = Methods.delete_user-Keeps e id
operation-Keeps _ e (creates_session s) = Methods.create_session-Keeps e s
operation-Keeps _ e (touches_session id) = Methods.touch_session-Keeps e id
operation-Keeps _ e (deletes_session id) = Methods.delete_session-Keeps e id
operation-Keeps _ e expires_sessions = Methods.delete_expired_sessions-Keeps e
operation-Keeps _ e (deletes_user_sessions id) = Methods.delete_user_sessions-Keeps e id
operation-Keeps _ e (logs_connection l) = Methods.create_connection_log-Keeps e l
operation-Keeps _ e (forgets_logs before) = Methods.delete_old_connection_logs-Keeps e before

pub empty_db-IsConsistent : IsConsistent empty_db
unfolding every
empty_db-IsConsistent = record {
  interface_ids = tt;
  interface_types = refl;
  peer_ids = tt;
  public_keys = tt;
  peer_types = refl;
  peers_belong = refl;
  logs_belong = refl;
  user_ids = tt;
  usernames = tt;
  roles = refl;
  sessions_belong = refl;
  session_ids = tt;
  log_ids = tt;
  log_events = refl;
  identities = tt;
  keyed = record { setting_keys = tt; provider_ids = tt; provider_names = tt; state_keys = tt };
}

-- Where every connection enforces foreign keys, each state that the operations reach from an empty
-- store is consistent: the keys of interfaces, peers, users, sessions, settings, OIDC providers and
-- OIDC states, public keys, usernames, provider names and the identities of OIDC users are distinct,
-- log numbers ascend, types, roles and events are allowed, and every peer, log and session belongs
-- to a row that is there. That holds whatever the order of the operations, and whatever fails in the
-- middle of one.
pub Reachable-IsConsistent :
    (env : Env) (w : World)
    → ((t : ℕ) → env.foreign_keys t ≡ true)
    → Reachable env w
    → IsConsistent w.db
Reachable-IsConsistent env w e (started _ empty) = rw empty empty_db-IsConsistent
Reachable-IsConsistent env _ e (stepped m w op r) =
    (operation-Keeps m e op).at w (Reachable-IsConsistent env w e r)
