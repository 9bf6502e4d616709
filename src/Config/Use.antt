-- ===== src/Config/Use.antt =====
-- config/use.go: the use locks, and the operations on them.
mod Defs
pub mod Keys
pub mod Publish
pub mod Refresh
pub mod Remove
pub mod InUse
mod Tests
unfoldable pub use Defs.*
