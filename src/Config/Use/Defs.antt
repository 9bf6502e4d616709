-- ===== src/Config/Use/Defs.antt =====
-- The lock types, their keys, and `PublishUse`, `PublishUseWithTTL`, `RemoveUse` and `GetUse`.
-- A stored value is the lock that was marshalled: the JSON of two locks is the same text exactly
-- when the locks are equal, and `GetUse` reads it back.
use volplugin.Base.{
  ℕ, Option, none, some, Bool, true, false, [], ◌∷◌, ◌++◌, Text, codes, ◌==◌, if◌then◌else◌,
  ℕ_discrete, ℤ, pos, negsuc,
}
use volplugin.Errors.{
  Error, Result, ok, err, etcd_to_errored, combine, plain, sentinel, etcd, key_not_found,
  node_exist, exists, contains, is_not_exists, publish_mount, message,
}
use volplugin.Etcd.{Etcd, SetOptions, prev_exist, prev_no_exist, prev_ignore}

-- UseMount, UseSnapshot and UseVolsupervisor behind the interface UseLocker.
pub data UseLocker : Type 0 where
  use_mount : (volume hostname reason : Text) → UseLocker
  use_snapshot : (volume reason : Text) → UseLocker
  use_volsupervisor : (hostname : Text) → UseLocker

unfoldable pub UseLocker-discrete : Discrete UseLocker
UseLocker-discrete = hlevel ℕ_discrete

unfoldable pub get_volume : UseLocker → Text
get_volume (use_mount v h r) = v
get_volume (use_snapshot v r) = v
get_volume (use_volsupervisor h) = codes "volsupervisor"

unfoldable pub get_reason : UseLocker → Text
get_reason (use_mount v h r) = r
get_reason (use_snapshot v r) = r
get_reason (use_volsupervisor h) = []

unfoldable pub use_type : UseLocker → Text
use_type (use_mount v h r) = codes "mount"
use_type (use_snapshot v r) = codes "snapshot"
use_type (use_volsupervisor h) = codes "volsupervisor"

unfoldable pub may_exist : UseLocker → Bool
may_exist (use_mount v h r) = true
may_exist (use_snapshot v r) = false
may_exist (use_volsupervisor h) = false

-- `c.use(typ, vc)` for a prefix and a volume name that `path.Join` leaves as they are.
unfoldable pub use_key : Text → Text → Text → Text
use_key prefix typ vc = prefix ++ (codes "/users/" ++ (typ ++ 0x2f ∷ vc))

abbrev pub lock_key : Text → UseLocker → Text
lock_key prefix ut = use_key prefix (use_type ut) (get_volume ut)

abbrev pub client_error : Option ℕ → Option Error
client_error none = none
client_error (some c) = some (etcd_to_errored (plain (etcd c)))

-- `er.Contains(errors.NotExists)` on an answer of the service.
abbrev pub says_not_exists : ℕ → Bool
says_not_exists c = contains is_not_exists (etcd_to_errored (plain (etcd c)))

module _ (prefix : Text) (kv : Etcd UseLocker) where
  open kv use {Store, read, set, delete}

  abbrev pub create_options : SetOptions UseLocker
  create_options = record { prev_exist = prev_no_exist; prev_value = none; ttl = 0 }

  abbrev pub same_options : UseLocker → SetOptions UseLocker
  same_options ut = record { prev_exist = prev_exist; prev_value = some ut; ttl = 0 }

  -- After the first Set: a node that exists may be ours.
  publish_existing : UseLocker → Option ℕ × Store → Option Error × Store
  publish_existing ut (none, s) = (none, s)
  publish_existing ut (some c, s) =
      if c == node_exist
      then (if may_exist ut
          then (let (again, s') = set s (lock_key prefix ut) ut (same_options ut) in
              (client_error again, s'))
          else (some (combine (exists ∷ []) (plain (etcd c))), s))
      else (client_error (some c), s)

  unfoldable pub publish_use : Store → UseLocker → Option Error × Store
  unfolding publish_existing
  publish_use s ut = publish_existing ut (set s (lock_key prefix ut) ut create_options)

  abbrev pub refresh_options : UseLocker → ℕ → SetOptions UseLocker
  refresh_options ut ttl = record { prev_exist = prev_ignore; prev_value = some ut; ttl = ttl }

  abbrev pub expiring_options : ℕ → SetOptions UseLocker
  expiring_options ttl = record { prev_exist = prev_no_exist; prev_value = none; ttl = ttl }

  abbrev pub publish_mount_error : Option ℕ × Store → Option Error × Store
  publish_mount_error (none, s) = (none, s)
  publish_mount_error (some c, s) = (some (combine (publish_mount ∷ []) (plain (etcd c))), s)

  -- After the compare and swap: a lock that is not there is made.
  publish_missing : UseLocker → ℕ → Option ℕ × Store → Option Error × Store
  publish_missing ut ttl (none, s) = (none, s)
  publish_missing ut ttl (some c, s) =
      if says_not_exists c
      then publish_mount_error (set s (lock_key prefix ut) ut (expiring_options ttl))
      else publish_mount_error (some c, s)

  unfoldable pub publish_use_with_ttl : Store → UseLocker → ℤ → Option Error × Store
  unfolding publish_missing
  publish_use_with_ttl s ut (negsuc n) = (some (sentinel message), s)
  publish_use_with_ttl s ut (pos ttl) =
      publish_missing ut ttl (set s (lock_key prefix ut) ut (refresh_options ut ttl))

  unfoldable pub remove_use : Store → UseLocker → Bool → Option Error × Store
  remove_use s ut force =
      let (answer, s') = delete s (lock_key prefix ut) (if force then none else some ut) in
      (client_error answer, s')

  unfoldable pub get_use : Store → Text → Text → Result UseLocker
  get_use s typ vc = elim (read s (use_key prefix typ vc)) [
    | none ↦ err (etcd_to_errored (plain (etcd key_not_found)))
    | some n ↦ ok n.value
  ]
