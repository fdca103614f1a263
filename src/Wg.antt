-- ===== src/Wg.antt =====
-- internal/wg: the manager of WireGuard interfaces and peers.
pub mod AllowedIps
pub mod Merge
pub mod Sync
pub mod Manager
pub mod Status
pub mod ClientConf
pub mod Import
pub mod Consistent
