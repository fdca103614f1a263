-- ===== src/Confgen.antt =====
-- internal/confgen: WireGuard configuration files, written by `Generate` (confgen.go) and read by
-- `Parse` (parse.go). The modules below `RoundTrip` relate the two.
pub mod Generate
pub mod Parse
pub mod Lines
pub mod Peers
mod Hooks
pub mod RoundTrip
pub mod Client
pub mod Safety
pub mod Comments
