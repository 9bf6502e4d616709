-- ===== src/Config/Use/Tests.antt =====
-- Runs of the use locks, over a store in memory.
use volplugin.Base.{
  ◌≡◌, ◌≢◌, ◌↔◌, refl, none, some, false, [], ◌∷◌, Text, codes, pos, arith, ℕ_discrete,
}
use volplugin.Errors.{sentinel, lock_failed, etcd_to_errored}
use volplugin.Etcd.{Etcd, memory}
use volplugin.Config.Use.Defs.{
  UseLocker, UseLocker-discrete, use_mount, use_type, get_volume, may_exist, lock_key, use_key,
  publish_use, publish_use_with_ttl, remove_use,
}
use volplugin.Config.Use.Publish.{held_at, Grantable, publish_use_grants}
use volplugin.Config.Use.Refresh.{Refreshable, publish_use_with_ttl_refreshes}
use volplugin.Config.Use.InUse.{probe, is_volume_in_use, is_volume_in_use_held}

abbrev kv : Etcd UseLocker
kv = memory UseLocker-discrete

abbrev prefix : Text
prefix = codes "/volplugin"

abbrev volume : Text
volume = codes "policy1/web"

-- The locks of two hosts on one volume.
abbrev ours : UseLocker
ours = use_mount volume (codes "mon0") (codes "Mount")

abbrev theirs : UseLocker
theirs = use_mount volume (codes "mon1") (codes "Mount")

abbrev held_by : UseLocker → kv.Store
held_by u = (lock_key prefix u, some (record { value = u; ttl = 0 })) ∷ []

-- A free lock is granted, also to `publish_use_with_ttl`; the lock of another host is refused.
taken_free : (publish_use prefix kv [] ours).0 ≡ none
unfolding publish_use may_exist use_key use_type get_volume
taken_free = refl

taken_theirs : (publish_use prefix kv (held_by theirs) ours).0 ≡ some (sentinel lock_failed)
unfolding publish_use may_exist use_key use_type get_volume UseLocker-discrete etcd_to_errored
    ℕ_discrete
taken_theirs = refl

found_ours : held_at prefix kv (held_by ours) ours ≡ some (record { value = ours; ttl = 0 })
unfolding use_key use_type get_volume
found_ours = refl

found_theirs :
    held_at prefix kv (held_by theirs) (probe volume) ≡ some (record { value = theirs; ttl = 0 })
unfolding use_key use_type get_volume
found_theirs = refl

removed_ours : (remove_use prefix kv (held_by ours) ours false).0 ≡ none
unfolding remove_use use_key use_type get_volume UseLocker-discrete ℕ_discrete
removed_ours = refl

publish_use_grants_example :
    let (e, s) = publish_use prefix kv (held_by theirs) ours in
    ((e ≡ none) ↔ Grantable prefix kv (held_by theirs) ours)
    × (e ≡ none → held_at prefix kv s ours ≡ some (record { value = ours; ttl = 0 }))
    × (e ≢ none → held_at prefix kv s ours ≡ held_at prefix kv (held_by theirs) ours)
    × ((k : Text) → (lock_key prefix ours ≡ k → ⊥) → kv.read s k ≡ kv.read (held_by theirs) k)
publish_use_grants_example = publish_use_grants prefix kv (held_by theirs) ours

publish_use_with_ttl_refreshes_example :
    let (e, s) = publish_use_with_ttl prefix kv (held_by ours) ours (pos 30) in
    ((e ≡ none) ↔ Refreshable prefix kv (held_by ours) ours 30)
    × (e ≡ none → held_at prefix kv s ours ≡ some (record { value = ours; ttl = 30 }))
    × (e ≢ none → held_at prefix kv s ours ≡ held_at prefix kv (held_by ours) ours)
    × ((k : Text) → (lock_key prefix ours ≡ k → ⊥) → kv.read s k ≡ kv.read (held_by ours) k)
publish_use_with_ttl_refreshes_example =
    publish_use_with_ttl_refreshes prefix kv (held_by ours) ours 30

same_key : lock_key prefix ours ≡ lock_key prefix theirs
unfolding use_type get_volume
same_key = refl

theirs_not_probe : theirs ≢ probe volume
theirs_not_probe = ground arith

is_volume_in_use_held_example :
    let (used, e, s) = is_volume_in_use prefix kv (held_by theirs) volume false in
    (used ≡ false)
    × (e ≡ some (sentinel lock_failed))
    × (held_at prefix kv s (probe volume) ≡ some (record { value = theirs; ttl = 0 }))
is_volume_in_use_held_example =
    is_volume_in_use_held prefix kv (held_by theirs) volume (record { value = theirs; ttl = 0 })
      found_theirs theirs_not_probe
