-- ===== src/Lock.antt =====
-- Package lock (lock/lock.go): locks taken, waited for, refreshed and released.
mod Defs
pub mod Wait
pub mod Acquire
pub mod Multi
pub mod Cluster
mod Tests
unfoldable pub use Defs.*
