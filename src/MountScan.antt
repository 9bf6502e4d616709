-- ===== src/MountScan.antt =====
-- Package mountscan: the mounts of a driver, read from the kernel's tables.
mod Defs
pub mod Fields
pub mod Scan
mod Tests
unfoldable pub use Defs.*
