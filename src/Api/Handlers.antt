-- ===== src/Api/Handlers.antt =====
-- `Mount` and `Unmount` of api/handlers.go, with `clearMount`, `startTTLRefresh` and, of package lock,
-- the part of `AcquireWithTTLRefresh` that runs before it returns. Log lines, and the rate limit, whose
-- error is only logged, leave no trace in the state.
pub mod Locking
pub mod Keyed
pub mod KeyedUnmount
pub mod Confined
use volplugin.Base.{
  ℕ, Bool, true, false, not, Option, none, some, List, [], ◌∷◌, ◌++◌, Text, codes, ℤ, pos, ltb_ℤ,
  if◌then◌else◌,
}
use volplugin.Errors.{
  Result, ok, err, panic, Error, combine, faults, configuring_volume, lock_failed, message,
  marshal_response, mount_failed, unmount_failed, refresh_mount, unmarshal_request, get_driver,
}
use volplugin.Etcd.{Etcd}
use volplugin.Config.Types.{Volume}
use volplugin.Config.Volume.{full_name}
use volplugin.Config.Use.{UseLocker, use_mount, publish_use}
use volplugin.Lock.{Progress, returned, waiting, clear}
use volplugin.Storage.Driver.{Mount, MountDriver, DriverOptions}
use volplugin.Api.Mounts.{add, sub, add_mount, remove_mount}
use volplugin.Api.State.{
  Host, Request, Reply, http_error, mountpoint, panicked, DriverCall, VolumeName,
  get_storage_parameters, add_stop_chan, remove_stop_chan,
}

-- `lock.ReasonMount`.
abbrev pub mount_lock : Text → Text → UseLocker
mount_lock vol_name hostname = use_mount vol_name hostname (codes "Mount")

abbrev pub vol_name_of : Volume → Text
vol_name_of cfg = full_name cfg.policy_name cfg.volume_name

module _ (prefix : Text) (kv : Etcd UseLocker) (from_human_size : Text → Result ℕ) where
  open kv use {Store}

  abbrev pub Outcome : Type 0
  Outcome = Reply × Host Store

  abbrev called : DriverCall → Host Store → Host Store
  called c a = record a { calls = c ∷ a.calls }

  -- `ClearLock` has returned when `clear_rounds` covers its attempts; while it waits nothing is replied.
  abbrev clear_reply : Error → Host Store → Progress Store → Option Reply × Host Store
  clear_reply e a (returned none s) =
      (some (http_error (combine (mount_failed ∷ []) e)), record a { store = s })
  clear_reply e a (returned (some e') s) =
      (some (http_error (combine (refresh_mount ∷ message ∷ faults e') e)), record a { store = s })
  clear_reply e a (waiting s) = (none, record a { store = s })

  unfoldable pub clear_mount : Request Store → Text → Error → Host Store → Option Reply × Host Store
  clear_mount q vol e a =
      clear_reply e (called (DriverCall.unmount vol) a)
        (clear prefix kv (mount_lock vol q.hostname) q.timeout q.clear_rounds a.store)

  -- The lock of a volume that is not in unlocked mode.
  abbrev take_lock : Bool → UseLocker → Host Store → Option Error × Host Store
  take_lock true ut a = (none, a)
  take_lock false ut a =
      let (e, s) = publish_use prefix kv a.store ut in (e, record a { store = s })

  -- `startTTLRefresh`: the lock is published once more, and its goroutine is started.
  abbrev pub start_refreshing :
      Text → UseLocker → Option Error × Store → Host Store → Option Error × Host Store
  start_refreshing vol ut (none, s) a = (none, add_stop_chan vol ut (record a { store = s }))
  start_refreshing vol ut (some e, s) a = (some e, record a { store = s })

  unfoldable pub start_ttl_refresh : Text → UseLocker → Host Store → Option Error × Host Store
  start_ttl_refresh vol ut a = start_refreshing vol ut (publish_use prefix kv a.store ut) a

  abbrev path_reply : Result Text → Reply
  path_reply (ok path) = mountpoint path
  path_reply (err e) = http_error (combine (marshal_response ∷ []) e)
  path_reply panic = panicked

  -- The mount path, once the volume is mounted and its lock is refreshed.
  abbrev reply_mounted : Request Store → Text → Result Text → Host Store → Option Reply × Host Store
  reply_mounted q vol (ok path) a = (some (mountpoint path), a)
  reply_mounted q vol (err e) a = clear_mount q vol e (remove_stop_chan vol a)
  reply_mounted q vol panic a = (some panicked, a)

  abbrev refreshed : Request Store → Text → Option Error × Host Store → Option Reply × Host Store
  refreshed q vol (none, a) = reply_mounted q vol q.path_answer a
  refreshed q vol (some e, a) = clear_mount q vol e (remove_stop_chan vol a)

  abbrev refresh_locked : Request Store → Text → Bool → Host Store → Option Reply × Host Store
  refresh_locked q vol true a = reply_mounted q vol q.path_answer a
  refresh_locked q vol false a =
      refreshed q vol (start_ttl_refresh vol (mount_lock vol q.hostname) a)

  abbrev collect :
      Request Store
      → Text
      → Bool
      → Result (Text → Option Mount)
      → Host Store
      → Option Reply × Host Store
  collect q vol unlocked (ok c) a = refresh_locked q vol unlocked (record a { collection = c })
  collect q vol unlocked (err e) a = (some panicked, a)
  collect q vol unlocked panic a = (some panicked, a)

  abbrev driver_mounted :
      Request Store → Text → Bool → Result Mount → Host Store → Option Reply × Host Store
  driver_mounted q vol unlocked (ok mc) a = collect q vol unlocked (add_mount a.collection mc) a
  driver_mounted q vol unlocked (err e) a = clear_mount q vol e a
  driver_mounted q vol unlocked panic a = (some panicked, a)

  -- "Duplicate mount": the existing path in unlocked mode, else an error.
  abbrev duplicate : Request Store → Bool → Host Store → Option Reply × Host Store
  duplicate q true a = (some (path_reply q.path_answer), a)
  duplicate q false a =
      (some (http_error (combine (lock_failed ∷ []) (Error.errored (message ∷ [])))), a)

  -- After the counter was raised to `n`.
  abbrev counted :
      Request Store → Text → Bool → DriverOptions → ℤ → Host Store → Option Reply × Host Store
  counted q vol unlocked options n a =
      if ltb_ℤ (pos 1) n
      then duplicate q unlocked a
      else driver_mounted q vol unlocked (q.mount_answer options) (called (DriverCall.mount vol) a)

  abbrev count_mount :
      Request Store
      → Text
      → Bool
      → DriverOptions
      → Option Error × Host Store
      → Option Reply × Host Store
  count_mount q vol unlocked options (some e, a) =
      (some (http_error (combine (lock_failed ∷ []) e)), a)
  count_mount q vol unlocked options (none, a) =
      let (c, n) = add a.counter vol in counted q vol unlocked options n (record a { counter = c })

  abbrev mount_with :
      Request Store
      → Result (MountDriver × Volume × DriverOptions)
      → Host Store
      → Option Reply × Host Store
  mount_with q (err e) a = (some (http_error (combine (configuring_volume ∷ []) e)), a)
  mount_with q panic a = (some panicked, a)
  mount_with q (ok (driver, cfg, options)) a =
      let vol = vol_name_of cfg in
      count_mount q vol cfg.unlocked options (take_lock cfg.unlocked (mount_lock vol q.hostname) a)

  abbrev mount_named : Request Store → Result VolumeName → Host Store → Option Reply × Host Store
  mount_named q (err e) a = (some (http_error (combine (configuring_volume ∷ []) e)), a)
  mount_named q panic a = (some panicked, a)
  mount_named q (ok uc) a = mount_with q (get_storage_parameters from_human_size q uc) a

  -- `Mount`: the reply, if the handler has come to one, and the state that it leaves.
  unfoldable pub mount : Request Store → Host Store → Option Reply × Host Store
  mount q a = mount_named q q.body a

  abbrev stop_refreshing : Bool → Text → Host Store → Host Store
  stop_refreshing true vol a = a
  stop_refreshing false vol a = remove_stop_chan vol a

  abbrev driver_unmounted :
      Request Store → Text → Bool → Option Error → Host Store → Reply × Host Store
  driver_unmounted q vol unlocked (some e) a = (http_error (combine (unmount_failed ∷ []) e), a)
  driver_unmounted q vol unlocked none a = (
    path_reply q.path_answer,
    stop_refreshing unlocked vol (record a { collection = remove_mount a.collection vol }),
  )

  abbrev uncounted : Request Store → Text → Bool → Result ℤ → Host Store → Reply × Host Store
  uncounted q vol unlocked (ok n) a =
      if ltb_ℤ (pos 0) n
      then (path_reply q.path_answer, a)
      else driver_unmounted q vol unlocked q.unmount_answer (called (DriverCall.unmount vol) a)
  uncounted q vol unlocked (err e) a = (panicked, a)
  uncounted q vol unlocked panic a = (panicked, a)

  abbrev count_unmount :
      Request Store → Text → Bool → Option Error × Host Store → Reply × Host Store
  count_unmount q vol unlocked (some e, a) = (http_error (combine (lock_failed ∷ []) e), a)
  count_unmount q vol unlocked (none, a) =
      let (c, n) = sub a.counter vol in uncounted q vol unlocked n (record a { counter = c })

  abbrev unmount_with :
      Request Store
      → Result (MountDriver × Volume × DriverOptions)
      → Host Store
      → Reply × Host Store
  unmount_with q (err e) a = (http_error (combine (get_driver ∷ []) e), a)
  unmount_with q panic a = (panicked, a)
  unmount_with q (ok (driver, cfg, options)) a =
      let vol = vol_name_of cfg in
      count_unmount q vol cfg.unlocked (take_lock cfg.unlocked (mount_lock vol q.hostname) a)

  abbrev unmount_named : Request Store → Result VolumeName → Host Store → Reply × Host Store
  unmount_named q (err e) a = (http_error (combine (unmarshal_request ∷ []) e), a)
  unmount_named q panic a = (panicked, a)
  unmount_named q (ok uc) a = unmount_with q (get_storage_parameters from_human_size q uc) a

  -- `Unmount`.
  unfoldable pub unmount : Request Store → Host Store → Reply × Host Store
  unmount q a = unmount_named q q.body a
