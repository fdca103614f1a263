-- ===== src/Server/Consistent.antt =====
-- The handlers of internal/server and the consistency of the tables.
pub mod Rows
pub mod Logins
pub mod Requested
