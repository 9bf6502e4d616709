-- ===== src/Config/Use/InUse.antt =====
-- config/volume.go, `IsVolumeInUse`: whether a volume is mounted, asked by taking its lock.
use volplugin.Base.{◌≡◌, ◌≢◌, refl, Option, none, some, Bool, true, false, Text, [], if◌then◌else◌}
use volplugin.Errors.{Error, contains, is_exists, sentinel, lock_failed}
use volplugin.Etcd.{Etcd, Node}
use volplugin.Config.Use.Defs.{UseLocker, use_mount, may_exist, publish_use, remove_use}
use volplugin.Config.Use.Publish.{held_at, publish_use_free, publish_use_other}
use volplugin.Config.Use.Remove.{remove_use_own, remove_use_other}

-- The probe: "fields are deliberately cleared".
abbrev pub probe : Text → UseLocker
probe volume = use_mount volume [] []

module _ (prefix : Text) (kv : Etcd UseLocker) where
  open kv use {Store}

  abbrev in_use_answer : Option Error → Bool
  in_use_answer none = false
  in_use_answer (some e) = contains is_exists e

  unfoldable pub is_volume_in_use : Store → Text → Bool → Bool × Option Error × Store
  is_volume_in_use s volume unlocked =
      if unlocked
      then (true, none, s)
      else (let (e, s') = publish_use prefix kv s (probe volume) in
          let (e', s'') = remove_use prefix kv s' (probe volume) false in
          (in_use_answer e, e', s''))

  -- Asked about a locked volume whose lock another holder has, the answer is that it is not in use,
  -- with the error of the failed removal, and the lock stays with its holder.
  pub is_volume_in_use_held :
      (s : Store) (volume : Text) (n : Node UseLocker)
      → held_at prefix kv s (probe volume) ≡ some n
      → n.value ≢ probe volume
      → let (used, e, s') = is_volume_in_use s volume false in
        (used ≡ false)
        × (e ≡ some (sentinel lock_failed))
        × (held_at prefix kv s' (probe volume) ≡ some n)
  unfolding is_volume_in_use may_exist
  is_volume_in_use_held s volume n h differs =
      let other = publish_use_other prefix kv s (probe volume) n h differs refl in
      let kept =
        remove_use_other prefix kv (publish_use prefix kv s (probe volume)).1 (probe volume) n
          other.1 differs in
      (rw other.0 refl, kept.0, kept.1)

  -- Asked about a locked volume whose lock is free, the answer is that it is not in use, and the lock
  -- is free again.
  is_volume_in_use_free :
      (s : Store) (volume : Text)
      → held_at prefix kv s (probe volume) ≡ none
      → let (used, e, s') = is_volume_in_use s volume false in
        (used ≡ false) × (e ≡ none) × (held_at prefix kv s' (probe volume) ≡ none)
  unfolding is_volume_in_use
  is_volume_in_use_free s volume h =
      let taken = publish_use_free prefix kv s (probe volume) h in
      let gone =
        remove_use_own prefix kv (publish_use prefix kv s (probe volume)).1 (probe volume) _ taken.1
          refl in
      (rw taken.0 refl, gone.0, gone.1)
