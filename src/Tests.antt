-- ===== src/Tests.antt =====
-- The code run on concrete inputs.
pub mod Fixtures
pub mod ConfgenTests
pub mod NetTests
pub mod ConfgenWitnesses
pub mod StoreWitnesses
pub mod WgWitnesses
pub mod AuthWitnesses
pub mod PollerWitnesses
pub mod ServerFixtures
pub mod ServerTests
pub mod WebTests
pub mod ConfigTests
pub mod ServerWitnesses
