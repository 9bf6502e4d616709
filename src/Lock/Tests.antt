-- ===== src/Lock/Tests.antt =====
-- Runs of the locks with retries, over a store in memory.
use volplugin.Base.{
  ◌≡◌, ◌≢◌, ◌⊎◌, refl, Option, none, some, [], ◌∷◌, ◌++◌, Text, codes, pos, All, arith, ℕ_discrete,
}
use volplugin.Errors.{Error, sentinel, lock_failed, etcd_to_errored}
use volplugin.Etcd.{Etcd, memory}
use volplugin.Config.Use.{
  UseLocker, UseLocker-discrete, use_mount, use_snapshot, use_type, get_volume, may_exist, lock_key,
  use_key, publish_use, remove_use,
}
use volplugin.Config.Use.Publish.{held_at}
use volplugin.Lock.Defs.{
  Round, returned, waiting, retry, acquire, clear, acquire_all, lock_wait,
  execute_with_multi_use_lock, Schedule, lockers,
}
use volplugin.Lock.Acquire.{acquire_returns, acquire_ends}
use volplugin.Lock.Multi.{
  IsFree, Owns, Differs, execute_with_multi_use_lock_releases, execute_with_multi_use_lock_leaks,
}

abbrev kv : Etcd UseLocker
kv = memory UseLocker-discrete

abbrev prefix : Text
prefix = codes "/volplugin"

abbrev volume : Text
volume = codes "policy1/web"

abbrev mounting : UseLocker
mounting = use_mount volume (codes "mon0") (codes "Create")

abbrev snapshotting : UseLocker
snapshotting = use_snapshot volume (codes "Create")

abbrev theirs : UseLocker
theirs = use_snapshot volume (codes "SnapshotPrune")

abbrev held_by : UseLocker → kv.Store
held_by u = (lock_key prefix u, some (record { value = u; ttl = 0 })) ∷ []

abbrev success : Option Error
success = none

-- One attempt at the time 0, that other clients do not disturb; one attempt at the time 5; one before
-- which the other holder of the lock is gone.
abbrev calm : Round (kv.Store)
calm = record { others = λ s. s; since = 0; since' = 0 }

abbrev late : Round (kv.Store)
late = record { others = λ s. s; since = 5; since' = 5 }

abbrev freed : Round (kv.Store)
freed = record { others = λ s. []; since = 1; since' = 1 }

-- The second attempt gets the lock.
abbrev mounted : kv.Store
mounted = held_by mounting

acquired :
    acquire prefix kv snapshotting (pos 0) (pos 3) (calm ∷ freed ∷ []) (held_by theirs)
    ≡ returned none (held_by snapshotting)
unfolding acquire retry lock_wait publish_use may_exist use_key use_type get_volume
    UseLocker-discrete etcd_to_errored
acquired = refl

acquire_returns_example :
    ((success ≡ none)
      × (held_at prefix kv (held_by snapshotting) snapshotting
          ≡ some (record { value = snapshotting; ttl = 0 })))
    ⊎ (success ≡ some (sentinel lock_failed))
acquire_returns_example =
    acquire_returns prefix kv snapshotting 0 (pos 3) (calm ∷ freed ∷ []) (held_by theirs)
      (omega arith, (omega arith, tt)) acquired

acquire_ends_example :
    acquire prefix kv snapshotting (pos 0) (pos 3) ((calm ∷ []) ++ late ∷ []) (held_by theirs)
    ≢ waiting (held_by theirs)
acquire_ends_example =
    acquire_ends prefix kv snapshotting (pos 0) 3 (calm ∷ []) late (held_by theirs) (held_by theirs)
      (omega arith) (omega arith)

abbrev cleared_store : kv.Store
cleared_store = (lock_key prefix mounting, none) ∷ mounted

cleared : clear prefix kv mounting (pos 3) (calm ∷ []) mounted ≡ returned none cleared_store
unfolding clear retry remove_use use_key use_type get_volume UseLocker-discrete ℕ_discrete
cleared = refl

-- The two locks of `apiserver` around the creation of a volume.
abbrev both : Schedule prefix kv
both = (mounting, calm ∷ []) ∷ (snapshotting, calm ∷ []) ∷ []

abbrev both_held : kv.Store
both_held =
    (lock_key prefix snapshotting, some (record { value = snapshotting; ttl = 0 })) ∷ mounted

abbrev work : kv.Store → Option Error × kv.Store
work s = (none, s)

both_acquired : acquire_all prefix kv both (pos 3) [] ≡ returned none both_held
unfolding acquire_all acquire retry publish_use use_key use_type get_volume
both_acquired = refl

keys_differ : Differs prefix kv mounting snapshotting
unfolding use_key use_type get_volume
keys_differ = λ e. ground arith

keys_differ' : Differs prefix kv snapshotting mounting
unfolding use_key use_type get_volume
keys_differ' = λ e. ground arith

mounting_owned : Owns prefix kv both_held mounting
unfolding use_key use_type get_volume
mounting_owned = (record { value = mounting; ttl = 0 }, refl, refl)

snapshotting_owned : Owns prefix kv both_held snapshotting
unfolding use_key use_type get_volume
snapshotting_owned = (record { value = snapshotting; ttl = 0 }, refl, refl)

execute_with_multi_use_lock_releases_example :
    (t : kv.Store) × (execute_with_multi_use_lock prefix kv both (pos 3) work [] ≡ returned none t)
    × All (IsFree prefix kv t) (lockers prefix kv both)
execute_with_multi_use_lock_releases_example =
    execute_with_multi_use_lock_releases prefix kv both (pos 3) work [] both_held both_acquired
      ((keys_differ, tt), (tt, tt)) (mounting_owned, (snapshotting_owned, tt))

abbrev pruned : kv.Store
pruned = (lock_key prefix mounting, some (record { value = mounting; ttl = 0 })) ∷ held_by theirs

mounting_acquired :
    acquire prefix kv mounting (pos 0) (pos 3) (calm ∷ []) (held_by theirs) ≡ returned none pruned
unfolding acquire retry publish_use use_key use_type get_volume
mounting_acquired = refl

mounting_kept : Owns prefix kv pruned mounting
unfolding use_key use_type get_volume
mounting_kept = (record { value = mounting; ttl = 0 }, refl, refl)

snapshotting_refused :
    acquire prefix kv snapshotting (pos 0) (pos 3) (late ∷ []) pruned
    ≡ returned (some (sentinel lock_failed)) pruned
unfolding acquire retry lock_wait publish_use may_exist use_key use_type get_volume
    UseLocker-discrete etcd_to_errored
snapshotting_refused = refl

execute_with_multi_use_lock_leaks_example :
    (execute_with_multi_use_lock prefix kv
        ((mounting, calm ∷ []) ∷ (snapshotting, late ∷ []) ∷ [])
        (pos 3)
        work
        (held_by theirs)
      ≡ returned (some (sentinel lock_failed)) pruned)
    × Owns prefix kv pruned mounting
execute_with_multi_use_lock_leaks_example =
    execute_with_multi_use_lock_leaks prefix kv mounting snapshotting (calm ∷ []) (late ∷ [])
      (pos 3) work (held_by theirs) pruned pruned (sentinel lock_failed) keys_differ'
      mounting_acquired mounting_kept ((λ x o. o), tt) snapshotting_refused
