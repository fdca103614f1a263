-- ===== src/Web.antt =====
-- What the web front end computes of its own: the addresses, names and ports that its forms suggest
-- and the texts that it shows.
pub mod Addresses
pub mod Free
pub mod Subnet
pub mod Defaults
pub mod Texts
pub mod Kept
pub mod Broadcast
