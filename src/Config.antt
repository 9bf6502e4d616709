-- ===== src/Config.antt =====
-- Package config: the intent store.
pub mod Types
pub mod Policy
pub mod Created
pub mod Use
pub mod Volume
pub mod Global
