-- ===== src/Etcd.antt =====
-- The part of the etcd v2 keys API that the program relies on (`client.KeysAPI`): reads, and writes
-- and deletes under the preconditions PrevExist and PrevValue. The service itself is not part of
-- the repository: it is a parameter, a record with the documented behaviour as its laws.
mod Defs
mod Memory
unfoldable pub use Defs.*
unfoldable pub use Memory.{memory}
