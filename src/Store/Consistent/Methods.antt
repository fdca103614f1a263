-- ===== src/Store/Consistent/Methods.antt =====
-- The methods of internal/store and the consistency of the tables, where every connection enforces
-- foreign keys.
use wgrift.Base.{ℕ, ◌≡◌, Bool, true, Text}
use wgrift.Base.Result.{Result}
use wgrift.Store.Db.{Db, Constraint}
use wgrift.Models.{Interface, Peer, User, Session, ConnectionLog, Time}
use wgrift.App.{Env, execute}
use wgrift.App.Keeps.{Keeps, Keeps-wrapping, Keeps-execute_enforced, keeps_rules, After}
use wgrift.Store.Interfaces.{
  insert_interface, set_interface, remove_interface, create_interface, get_interface,
  list_interfaces, update_interface, delete_interface,
}
use wgrift.Store.Peers.{
  insert_peer, set_peer, remove_peer, ensure_peer_id, create_peer, get_peer, list_peers,
  update_peer, delete_peer,
}
use wgrift.Store.Users.{
  insert_user, set_user, remove_user, ensure_user_id, create_user, get_user, get_user_by_username,
  update_user, delete_user, count_users,
}
use wgrift.Store.Sessions.{
  insert_session, set_last_seen, remove_session, remove_expired_sessions, remove_user_sessions,
  create_session, get_session, touch_session, delete_session, delete_expired_sessions,
  delete_user_sessions,
}
use wgrift.Store.Logs.{
  insert_log, create_connection_log, delete_old_connection_logs, ensure_recorded_at,
}
use wgrift.Store.Consistent.{IsConsistent}
use wgrift.Store.Consistent.Peers.{
  insert_peer-IsConsistent, set_peer-IsConsistent, remove_peer-IsConsistent,
}
use wgrift.Store.Consistent.Interfaces.{
  insert_interface-IsConsistent, set_interface-IsConsistent, remove_interface-IsConsistent,
}
use wgrift.Store.Consistent.Users.{
  insert_user-IsConsistent, set_user-IsConsistent, remove_user-IsConsistent,
}
use wgrift.Store.Consistent.Sessions.{
  insert_session-IsConsistent, set_last_seen-IsConsistent, remove_session-IsConsistent,
  remove_expired_sessions-IsConsistent, remove_user_sessions-IsConsistent,
}
use wgrift.Store.Consistent.Logs.{insert_log-IsConsistent, old_logs-IsConsistent}

module _ {env : Env} (enforced : (t : ℕ) → env.foreign_keys t ≡ true) where
  -- A statement that keeps the tables consistent where foreign keys are enforced.
  statement :
      (f : Bool → Db → Result Constraint Db)
      → ((db : Db) → IsConsistent db → After IsConsistent (f true db))
      → Keeps env IsConsistent (execute f)
  statement f h = Keeps-execute_enforced f enforced h

  insert_interface-Keeps : (i : Interface) → Keeps env IsConsistent (execute (insert_interface i))
  insert_interface-Keeps i = statement (insert_interface i) (insert_interface-IsConsistent i)

  pub create_interface-Keeps : (i : Interface) → Keeps env IsConsistent (create_interface i)
  unfolding create_interface
  create_interface-Keeps i = search (keeps_rules, insert_interface-Keeps) depth 14

  set_interface-Keeps : (i : Interface) → Keeps env IsConsistent (execute (set_interface i))
  set_interface-Keeps i = statement (set_interface i) (set_interface-IsConsistent i)

  pub update_interface-Keeps : (i : Interface) → Keeps env IsConsistent (update_interface i)
  unfolding update_interface
  update_interface-Keeps i = search (keeps_rules, set_interface-Keeps) depth 14

  remove_interface-Keeps : (id : Text) → Keeps env IsConsistent (execute (remove_interface id))
  remove_interface-Keeps id = statement (remove_interface id) (remove_interface-IsConsistent id)

  pub delete_interface-Keeps : (id : Text) → Keeps env IsConsistent (delete_interface id)
  unfolding delete_interface
  delete_interface-Keeps id = search (keeps_rules, remove_interface-Keeps) depth 14

  insert_peer-Keeps : (p : Peer) → Keeps env IsConsistent (execute (insert_peer p))
  insert_peer-Keeps p = statement (insert_peer p) (insert_peer-IsConsistent p)

  pub create_peer-Keeps : (p : Peer) → Keeps env IsConsistent (create_peer p)
  unfolding create_peer ensure_peer_id
  create_peer-Keeps p = search (keeps_rules, insert_peer-Keeps) depth 14

  set_peer-Keeps : (p : Peer) → Keeps env IsConsistent (execute (set_peer p))
  set_peer-Keeps p = statement (set_peer p) (set_peer-IsConsistent p)

  pub update_peer-Keeps : (p : Peer) → Keeps env IsConsistent (update_peer p)
  unfolding update_peer
  update_peer-Keeps p = search (keeps_rules, set_peer-Keeps) depth 14

  remove_peer-Keeps : (id : Text) → Keeps env IsConsistent (execute (remove_peer id))
  remove_peer-Keeps id = statement (remove_peer id) (remove_peer-IsConsistent id)

  pub delete_peer-Keeps : (id : Text) → Keeps env IsConsistent (delete_peer id)
  unfolding delete_peer
  delete_peer-Keeps id = search (keeps_rules, remove_peer-Keeps) depth 14

  insert_user-Keeps : (u : User) → Keeps env IsConsistent (execute (insert_user u))
  insert_user-Keeps u = statement (insert_user u) (insert_user-IsConsistent u true)

  pub create_user-Keeps : (u : User) → Keeps env IsConsistent (create_user u)
  unfolding create_user ensure_user_id
  create_user-Keeps u = search (keeps_rules, insert_user-Keeps) depth 14

  set_user-Keeps : (u : User) → Keeps env IsConsistent (execute (set_user u))
  set_user-Keeps u = statement (set_user u) (set_user-IsConsistent u true)

  pub update_user-Keeps : (u : User) → Keeps env IsConsistent (update_user u)
  unfolding update_user
  update_user-Keeps u = search (keeps_rules, set_user-Keeps) depth 14

  remove_user-Keeps : (id : Text) → Keeps env IsConsistent (execute (remove_user id))
  remove_user-Keeps id = statement (remove_user id) (remove_user-IsConsistent id)

  pub delete_user-Keeps : (id : Text) → Keeps env IsConsistent (delete_user id)
  unfolding delete_user
  delete_user-Keeps id = search (keeps_rules, remove_user-Keeps) depth 14

  insert_session-Keeps : (s : Session) → Keeps env IsConsistent (execute (insert_session s))
  insert_session-Keeps s = statement (insert_session s) (insert_session-IsConsistent s)

  pub create_session-Keeps : (s : Session) → Keeps env IsConsistent (create_session s)
  unfolding create_session
  create_session-Keeps s = search (keeps_rules, insert_session-Keeps) depth 14

  set_last_seen-Keeps :
      (now : Time) (id : Text) → Keeps env IsConsistent (execute (set_last_seen now id))
  set_last_seen-Keeps now id =
      statement (set_last_seen now id) (set_last_seen-IsConsistent now id true)

  pub touch_session-Keeps : (id : Text) → Keeps env IsConsistent (touch_session id)
  unfolding touch_session
  touch_session-Keeps id = search (keeps_rules, set_last_seen-Keeps) depth 14

  remove_session-Keeps : (id : Text) → Keeps env IsConsistent (execute (remove_session id))
  remove_session-Keeps id = statement (remove_session id) (remove_session-IsConsistent id true)

  pub delete_session-Keeps : (id : Text) → Keeps env IsConsistent (delete_session id)
  unfolding delete_session
  delete_session-Keeps id = search (keeps_rules, remove_session-Keeps) depth 14

  remove_expired_sessions-Keeps :
      (now : Time) → Keeps env IsConsistent (execute (remove_expired_sessions now))
  remove_expired_sessions-Keeps now =
      statement (remove_expired_sessions now) (remove_expired_sessions-IsConsistent now true)

  pub delete_expired_sessions-Keeps : Keeps env IsConsistent delete_expired_sessions
  unfolding delete_expired_sessions
  delete_expired_sessions-Keeps = search (keeps_rules, remove_expired_sessions-Keeps) depth 14

  remove_user_sessions-Keeps :
      (id : Text) → Keeps env IsConsistent (execute (remove_user_sessions id))
  remove_user_sessions-Keeps id =
      statement (remove_user_sessions id) (remove_user_sessions-IsConsistent id true)

  pub delete_user_sessions-Keeps : (id : Text) → Keeps env IsConsistent (delete_user_sessions id)
  unfolding delete_user_sessions
  delete_user_sessions-Keeps id = search (keeps_rules, remove_user_sessions-Keeps) depth 14

  insert_log-Keeps : (l : ConnectionLog) → Keeps env IsConsistent (execute (insert_log l))
  insert_log-Keeps l = statement (insert_log l) (insert_log-IsConsistent l)

  pub create_connection_log-Keeps :
      (l : ConnectionLog) → Keeps env IsConsistent (create_connection_log l)
  unfolding create_connection_log ensure_recorded_at
  create_connection_log-Keeps l = search (keeps_rules, insert_log-Keeps) depth 14

  pub delete_old_connection_logs-Keeps :
      (before : Time) → Keeps env IsConsistent (delete_old_connection_logs before)
  unfolding delete_old_connection_logs
  delete_old_connection_logs-Keeps before =
      Keeps-wrapping _ _ (statement _ (λ db c. old_logs-IsConsistent before db c))

-- The methods that only read keep any property of the tables.
module _ {env : Env} {P : Db → Type 0} where
  pub get_interface-Keeps : (id : Text) → Keeps env P (get_interface id)
  unfolding get_interface
  get_interface-Keeps id = search keeps_rules

  pub list_interfaces-Keeps : Keeps env P list_interfaces
  unfolding list_interfaces
  list_interfaces-Keeps = search keeps_rules

  pub get_peer-Keeps : (id : Text) → Keeps env P (get_peer id)
  unfolding get_peer
  get_peer-Keeps id = search keeps_rules

  pub list_peers-Keeps : (id : Text) → Keeps env P (list_peers id)
  unfolding list_peers
  list_peers-Keeps id = search keeps_rules

  pub get_user-Keeps : (id : Text) → Keeps env P (get_user id)
  unfolding get_user
  get_user-Keeps id = search keeps_rules

  pub get_user_by_username-Keeps : (id : Text) → Keeps env P (get_user_by_username id)
  unfolding get_user_by_username
  get_user_by_username-Keeps id = search keeps_rules

  pub get_session-Keeps : (id : Text) → Keeps env P (get_session id)
  unfolding get_session
  get_session-Keeps id = search keeps_rules

  pub count_users-Keeps : Keeps env P count_users
  unfolding count_users
  count_users-Keeps = search keeps_rules
