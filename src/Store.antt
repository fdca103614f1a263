-- ===== src/Store.antt =====
-- internal/store: the SQLite store. `Db` has the tables and their constraints, as the migrations
-- declare them; the modules beside it have the statements, one for each method of the store.
pub mod Db
pub mod Keys
pub mod Apart
pub mod Renewal
pub mod Consistent
pub mod Interfaces
pub mod Peers
pub mod Users
pub mod Sessions
pub mod Settings
pub mod Logs
pub mod TunnelIps
