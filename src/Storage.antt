-- ===== src/Storage.antt =====
-- Package storage: names of volumes, and the drivers.
pub mod Name
pub mod Driver
pub mod Control
pub mod Ceph
pub mod Nfs
mod Tests
