-- ===== src/Server.antt =====
-- apiserver/daemon.go: the handlers of the API server. A handler's reply is the list of what it writes.
pub mod Defs
pub mod Remove
pub mod Removed
pub mod RemoveLocks
pub mod Copy
pub mod Policies
pub mod Reads
pub mod Create
pub mod Copied
mod Tests
mod CopyTests
