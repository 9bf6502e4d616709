-- ===== src/Api.antt =====
-- Package api: the handlers of the volume plugin.
pub mod Mounts
pub mod State
pub mod Handlers
pub mod Create
pub mod Samples
mod Tests
