-- ===== src/Supervisor.antt =====
-- Package volsupervisor: the loop that takes snapshots and prunes them.
mod Defs
pub mod Prune
pub mod Due
mod Tests
unfoldable pub use Defs.*
