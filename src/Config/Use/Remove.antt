-- ===== src/Config/Use/Remove.antt =====
-- `RemoveUse`: without force, only a lock with these very contents goes.
use volplugin.Base.{
  ◌≡◌, ◌≢◌, none, some, Bool, true, false, Text, arith, Option-cases, if◌then◌else◌, inl, inr,
}
use volplugin.Errors.{sentinel, lock_failed, not_exists, etcd_to_errored}
use volplugin.Etcd.{Etcd, Node}
use volplugin.Config.Use.Defs.{UseLocker, UseLocker-discrete, lock_key, remove_use}
use volplugin.Config.Use.Publish.{held_at}

module _ (prefix : Text) (kv : Etcd UseLocker) where
  open kv use {Store, read, delete, delete-answer, read-delete_self, read-delete_ne}

  module _ (s : Store) (ut : UseLocker) where
    -- The compare and delete of `RemoveUse(ut, false)`.
    pub remove_use_own :
        (n : Node UseLocker)
        → held_at prefix kv s ut ≡ some n
        → n.value ≡ ut
        → let (e, s') = remove_use prefix kv s ut false in
          (e ≡ none) × (held_at prefix kv s' ut ≡ none)
    unfolding remove_use
    remove_use_own n h same = ground (
      arith,
      delete-answer s (lock_key prefix ut) (some ut),
      read-delete_self s (lock_key prefix ut) (some ut),
    )

    pub remove_use_other :
        (n : Node UseLocker)
        → held_at prefix kv s ut ≡ some n
        → n.value ≢ ut
        → let (e, s') = remove_use prefix kv s ut false in
          (e ≡ some (sentinel lock_failed)) × (held_at prefix kv s' ut ≡ some n)
    unfolding remove_use etcd_to_errored
    remove_use_other n h differs = ground (
      arith,
      delete-answer s (lock_key prefix ut) (some ut),
      read-delete_self s (lock_key prefix ut) (some ut),
    )

    remove_use_free :
        (force : Bool)
        → held_at prefix kv s ut ≡ none
        → let (e, s') = remove_use prefix kv s ut force in
          (e ≡ some (sentinel not_exists)) × (held_at prefix kv s' ut ≡ none)
    unfolding remove_use etcd_to_errored
    remove_use_free force h = ground (
      arith,
      delete-answer s (lock_key prefix ut) (if force then none else some ut),
      read-delete_self s (lock_key prefix ut) (if force then none else some ut),
    )

    remove_use_forced :
        (n : Node UseLocker)
        → held_at prefix kv s ut ≡ some n
        → let (e, s') = remove_use prefix kv s ut true in
          (e ≡ none) × (held_at prefix kv s' ut ≡ none)
    unfolding remove_use
    remove_use_forced n h = ground (
      arith,
      delete-answer s (lock_key prefix ut) none,
      read-delete_self s (lock_key prefix ut) none,
    )

    pub remove_use_elsewhere :
        (force : Bool) (k : Text)
        → (lock_key prefix ut ≡ k → ⊥)
        → read (remove_use prefix kv s ut force).1 k ≡ read s k
    unfolding remove_use
    remove_use_elsewhere force k ne =
        ground (arith, read-delete_ne s (lock_key prefix ut) k (if force then none else some ut) ne)

    -- A removal without force that succeeds has freed the key, and it was this lock that stood there.
    pub remove_use_done :
        (remove_use prefix kv s ut false).0 ≡ none
        → ((n : Node UseLocker) × (held_at prefix kv s ut ≡ some n) × (n.value ≡ ut))
          × (held_at prefix kv (remove_use prefix kv s ut false).1 ut ≡ none)
    remove_use_done done = elim (Option-cases (held_at prefix kv s ut)) [
      | inl free ↦ cc (done, (remove_use_free false free).0)
      | inr (n, h) ↦ elim (UseLocker-discrete n.value ut) [
        | yes same ↦ ((n, h, same), (remove_use_own n h same).1)
        | no differs ↦ cc (done, (remove_use_other n h differs).0)
      ]
    ]
