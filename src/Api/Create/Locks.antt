-- ===== src/Api/Create/Locks.antt =====
-- The guards of `Create`, and its two locks.
use volplugin.Base.{◌≡◌, ◌≢◌, ℕ, refl, none, some, [], ◌∷◌, Text, All, arith, ap}
use volplugin.Errors.{
  Result, ok, err, panic, combine, sentinel, exists, create_volume, lock_failed, errored,
}
use volplugin.Etcd.{Etcd}
use volplugin.Config.Types.{Volume, Policy}
use volplugin.Config.Volume.{full_name}
use volplugin.Config.Use.{UseLocker, use_type}
use volplugin.Config.Use.Keys.{lock_key_injective}
use volplugin.Lock.{Schedule, returned, acquire_all, lockers, execute_with_multi_use_lock}
use volplugin.Lock.Multi.{IsFree, Owns, Differs, execute_with_multi_use_lock_releases}
use volplugin.Api.State.{VolumeName}
use volplugin.Api.Create.{
  World, CreateRequest, http_error, create, create_body, schedule, create_locked, world_after,
  reply, locked, mount_lock, snapshot_lock,
}

-- The two locks of a creation are at different keys.
locks_differ :
    (prefix : Text) (kv : Etcd UseLocker) (volume hostname : Text)
    → Differs prefix kv (mount_lock volume hostname) (snapshot_lock volume)
unfolding use_type
locks_differ prefix kv volume hostname e = ground (arith, lock_key_injective prefix _ _ e)

module _ (prefix : Text) (kv : Etcd UseLocker) (from_human_size : Text → Result ℕ)
    (q : CreateRequest (kv.Store)) (uc : VolumeName) (named : q.body ≡ ok uc) where
  open kv use {Store}

  abbrev name : Text
  name = full_name uc.policy uc.name

  -- A volume that is published already is not created again: no lock is taken, no driver is called,
  -- and the reply is that it exists.
  pub create_refused :
      (s : Store) (w : World) (old : Volume)
      → w.volumes name ≡ some old
      → create prefix kv from_human_size q s w ≡ (some (http_error (sentinel exists)), s, w)
  unfolding create
  create_refused s w old there = ground (arith, named, there)

  module _ (hostname : Text) where
    abbrev l : Schedule prefix kv
    l = schedule prefix kv from_human_size q name hostname

    locked_frees :
        (s s' : Store) (r : Result Volume)
        → acquire_all prefix kv l q.timeout s ≡ returned none s'
        → All (Owns prefix kv s') (lockers prefix kv l)
        → r ≢ panic
        → All
            (IsFree prefix kv
              (reply prefix kv from_human_size r (locked prefix kv from_human_size q l r s)).1)
            (lockers prefix kv l)
    locked_frees s s' (ok v) got owns calm =
        let (t, back, free) =
          execute_with_multi_use_lock_releases prefix kv l q.timeout (λ t. (none, t)) s s' got
            ((locks_differ prefix kv name hostname, tt), (tt, tt)) owns in
        rw back free
    locked_frees s s' (err e) got owns calm =
        let (t, back, free) =
          execute_with_multi_use_lock_releases prefix kv l q.timeout (λ t. (some e, t)) s s' got
            ((locks_differ prefix kv name hostname, tt), (tt, tt)) owns in
        rw back free
    locked_frees s s' panic got owns calm = absurd (calm refl)

    module _ (policy : Policy) (hosted : q.hostname ≡ ok hostname) (known : q.policy ≡ ok policy)
        (s : Store) (w : World) (absent : w.volumes name ≡ none) where
      create_lem :
          create prefix kv from_human_size q s w
          ≡ create_locked prefix kv from_human_size q l policy.file_systems s w
      unfolding create
      create_lem = ground (arith, named, hosted, known, absent)

      -- When one of the locks cannot be acquired nothing is created: the driver is not called and the
      -- intent store is left as it was.
      create_excluded :
          (s' : Store)
          → acquire_all prefix kv (schedule prefix kv from_human_size q name hostname) q.timeout s
            ≡ returned (some (sentinel lock_failed)) s'
          → create prefix kv from_human_size q s w
            ≡ (some (http_error (errored (create_volume ∷ lock_failed ∷ []))), s', w)
      unfolding create execute_with_multi_use_lock combine
      create_excluded s' refused = ground (arith, named, hosted, known, absent, refused)

      -- When both locks were acquired and stand, and the body comes to an end, the world is what the body
      -- makes of it and both locks are free again, whether the body failed or not.
      pub create_releases :
          (s' : Store)
          → acquire_all prefix kv (schedule prefix kv from_human_size q name hostname) q.timeout s
            ≡ returned none s'
          → All (Owns prefix kv s') (mount_lock name hostname ∷ snapshot_lock name ∷ [])
          → (create_body from_human_size q policy.file_systems w).0 ≢ panic
          → let (r, t, w') = create prefix kv from_human_size q s w in
            (w' ≡ (create_body from_human_size q policy.file_systems w).1)
            × All (IsFree prefix kv t) (mount_lock name hostname ∷ snapshot_lock name ∷ [])
      create_releases s' got owns calm = rw create_lem (
        ap
            (λ p.
              world_after prefix kv from_human_size p w
                (create_body from_human_size q policy.file_systems w).1)
            got,
        locked_frees s s' (create_body from_human_size q policy.file_systems w).0 got owns calm,
      )
