-- ===== src/Repair.antt =====
-- The trust boundary of safe repair: paths, provider patches and sessions.
pub mod Unicode
pub mod Paths
pub mod Patch
pub mod Codes
pub mod Records
pub mod Session
mod Tests
