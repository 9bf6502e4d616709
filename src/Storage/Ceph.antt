-- ===== src/Storage/Ceph.antt =====
-- storage/backend/ceph: the names of images, and the command that formats one.
pub mod Names
pub mod Template
pub mod Machine
pub mod Images
pub mod Mapping
pub mod Paths
pub mod Mounts
pub mod Snapshots
pub mod Pool
pub mod Listed
pub mod Refine
pub mod Mapped
pub mod Unmapped
pub mod Copied
pub mod Table
pub mod Unmounted
pub mod Mounted
pub mod Joined
pub mod Memory
mod Tests
mod HostTests
