-- ===== src/Migrate.antt =====
-- Schema migrations (volmigrate).
mod Defs
pub mod Registered
pub mod Updates
pub mod Pending
mod Tests
unfoldable pub use Defs.*
