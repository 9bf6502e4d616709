-- ===== src/Config/Global.antt =====
-- config/global.go: the global configuration, its published and its internal form.
mod Defs
pub mod Forms
mod Tests
unfoldable pub use Defs.*
