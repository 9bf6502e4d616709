-- ===== src/Api/Handlers/Locking.antt =====
-- `Mount` and `Unmount` of a volume whose parameters could be read: what they do by the state of the
-- lock and of the counter.
use volplugin.Base.{
  ℕ, suc, ◌≡◌, ◌≢◌, ◌⊎◌, inl, inr, refl, true, false, none, some, [], ◌∷◌, Text, pos, arith, ◌+ℤ◌,
  ◌-ℤ◌, text_eq_refl,
}
use volplugin.Errors.{Result, ok, Error, combine, lock_failed, errored, message}
use volplugin.Etcd.{Etcd, Node}
use volplugin.Config.Types.{Volume}
use volplugin.Config.Use.{UseLocker, publish_use, may_exist}
use volplugin.Config.Use.Publish.{
  held_at, publish_use_other, Grantable, publish_use_grants, publish_use_again,
}
use volplugin.Storage.Driver.{Mount, MountDriver, DriverOptions}
use volplugin.Api.Mounts.{add, sub, add_mount, remove_mount}
use volplugin.Api.State.{
  Host, Request, http_error, mountpoint, panicked, DriverCall, VolumeName, get_storage_parameters,
  add_stop_chan, remove_stop_chan,
}
use volplugin.Api.Handlers.{
  mount_lock, vol_name_of, mount, unmount, count_mount, count_unmount, take_lock, start_ttl_refresh,
}

-- A request whose body names a volume that the intent store knows, with usable parameters.
module _ (prefix : Text) (kv : Etcd UseLocker) (from_human_size : Text → Result ℕ)
    (q : Request (kv.Store)) (uc : VolumeName) (driver : MountDriver) (cfg : Volume)
    (options : DriverOptions) (body : q.body ≡ ok uc)
    (params : get_storage_parameters from_human_size q uc ≡ ok (driver, cfg, options)) where
  abbrev vol : Text
  vol = vol_name_of cfg

  abbrev ut : UseLocker
  ut = mount_lock vol q.hostname

  mount_lem :
      (a : Host (kv.Store))
      → mount prefix kv from_human_size q a
        ≡ count_mount prefix kv from_human_size q vol cfg.unlocked options
            (take_lock prefix kv from_human_size cfg.unlocked ut a)
  unfolding mount
  mount_lem a = simp (body, params)

  unmount_lem :
      (a : Host (kv.Store))
      → unmount prefix kv from_human_size q a
        ≡ count_unmount prefix kv from_human_size q vol cfg.unlocked
            (take_lock prefix kv from_human_size cfg.unlocked ut a)
  unfolding unmount
  unmount_lem a = simp (body, params)

  -- While another holder has the lock of a volume that is not in unlocked mode, a mount of it, with
  -- parameters that could be read, is refused: the driver is not called, nothing is counted or collected, and the lock stays with its holder.
  pub mount_excluded :
      (a : Host (kv.Store)) (n : Node UseLocker)
      → cfg.unlocked ≡ false
      → held_at prefix kv a.store ut ≡ some n
      → n.value ≢ ut
      → let (r, b) = mount prefix kv from_human_size q a in
        (r ≡ some (http_error (errored (lock_failed ∷ lock_failed ∷ []))))
        × (b.calls ≡ a.calls)
        × (b.counter ≡ a.counter)
        × (b.collection ≡ a.collection)
        × (held_at prefix kv b.store ut ≡ some n)
  unfolding may_exist combine
  mount_excluded a n locked h differs =
      let refused = publish_use_other prefix kv a.store ut n h differs refl in
      rw (mount_lem a, locked, refused.0) (refl, refl, refl, refl, refused.1)

  -- A first mount of a volume that is not in unlocked mode, whose lock is free or its own, which is not
  -- collected, and which the driver mounts under its name: the lock stands with no expiry, the
  -- count is one, the mount is collected, a goroutine to refresh the lock has been started and can be
  -- stopped, the driver was called once, and the reply is the driver's path.
  pub mount_first :
      (a : Host (kv.Store)) (mc : Mount) (path : Text)
      → cfg.unlocked ≡ false
      → Grantable prefix kv a.store ut
      → a.counter vol ≡ pos 0
      → q.mount_answer options ≡ ok mc
      → mc.volume.name ≡ vol
      → a.collection vol ≡ none
      → q.path_answer ≡ ok path
      → let (r, b) = mount prefix kv from_human_size q a in
        (r ≡ some (mountpoint path))
        × (held_at prefix kv b.store ut ≡ some (record { value = ut; ttl = 0 }))
        × (b.counter vol ≡ pos 1)
        × (b.collection vol ≡ some mc)
        × (b.stop_chans vol ≡ some ut)
        × (b.started ≡ ut ∷ a.started)
        × (b.calls ≡ DriverCall.mount vol ∷ a.calls)
  unfolding may_exist add add_mount start_ttl_refresh add_stop_chan ◌+ℤ◌
  mount_first a mc path locked free zero_count answer named uncollected reply =
      let first = publish_use_grants prefix kv a.store ut in
      let s = (publish_use prefix kv a.store ut).1 in
      let got = first.0.1 free in
      let again =
        publish_use_again prefix kv s ut (record { value = ut; ttl = 0 }) (first.1 got) refl refl in
      ground (arith, mount_lem a, got, again, text_eq_refl vol)

  -- When the volume is counted as mounted already and its lock can be had, or it is in unlocked mode, a
  -- further mount never reaches the driver: it only counts one more, and is refused if the volume is not
  -- in unlocked mode.
  mount_again :
      (a : Host (kv.Store)) (k : ℕ)
      → ((cfg.unlocked ≡ true) ⊎ Grantable prefix kv a.store ut)
      → a.counter vol ≡ pos (suc k)
      → let (r, b) = mount prefix kv from_human_size q a in
        (b.counter vol ≡ pos (suc (suc k)))
        × (b.calls ≡ a.calls)
        × (b.collection ≡ a.collection)
        × (b.stop_chans ≡ a.stop_chans)
        × (cfg.unlocked ≡ false → r ≡ some (http_error (errored (lock_failed ∷ message ∷ []))))
  unfolding add ◌+ℤ◌ combine
  mount_again a k (inl unlocked) counted = ground (arith, mount_lem a, text_eq_refl vol)
  mount_again a k (inr free) counted =
      let got = (publish_use_grants prefix kv a.store ut).0.1 free in
      ground (arith, mount_lem a, got, text_eq_refl vol)

  -- When the volume is counted more than once and its lock can be had, or it is in unlocked mode, an
  -- unmount counts one less: the driver is not called, and the mount and its stop channel stay.
  unmount_shared :
      (a : Host (kv.Store)) (k : ℕ)
      → ((cfg.unlocked ≡ true) ⊎ Grantable prefix kv a.store ut)
      → a.counter vol ≡ pos (suc (suc k))
      → let (r, b) = unmount prefix kv from_human_size q a in
        (b.counter vol ≡ pos (suc k))
        × (b.calls ≡ a.calls)
        × (b.collection ≡ a.collection)
        × (b.stop_chans ≡ a.stop_chans)
  unfolding sub ◌-ℤ◌
  unmount_shared a k (inl unlocked) counted = ground (arith, unmount_lem a, text_eq_refl vol)
  unmount_shared a k (inr free) counted =
      let got = (publish_use_grants prefix kv a.store ut).0.1 free in
      ground (arith, unmount_lem a, got, text_eq_refl vol)

  -- The last unmount of a volume that is not in unlocked mode, whose lock is free or its own and which has
  -- a stop channel, when the driver unmounts it: the driver was called once, the mount leaves the collection, and
  -- the goroutine that refreshes its lock is told to stop and to remove the lock.
  pub unmount_last :
      (a : Host (kv.Store)) (u : UseLocker)
      → cfg.unlocked ≡ false
      → Grantable prefix kv a.store ut
      → a.counter vol ≡ pos 1
      → q.unmount_answer ≡ none
      → a.stop_chans vol ≡ some u
      → let (r, b) = unmount prefix kv from_human_size q a in
        (b.counter vol ≡ pos 0)
        × (b.collection vol ≡ none)
        × (b.stop_chans vol ≡ none)
        × (b.stopping ≡ u ∷ a.stopping)
        × (b.calls ≡ DriverCall.unmount vol ∷ a.calls)
  unfolding sub remove_mount remove_stop_chan ◌-ℤ◌
  unmount_last a u locked free counted done chan =
      let got = (publish_use_grants prefix kv a.store ut).0.1 free in
      ground (arith, unmount_lem a, got, text_eq_refl vol)

  -- The last unmount of a volume that is not in unlocked mode, whose lock is free or its own and which has
  -- no stop channel, as after a mount that failed, takes the lock and leaves it: no goroutine is told to remove it.
  unmount_keeps_lock :
      (a : Host (kv.Store))
      → cfg.unlocked ≡ false
      → Grantable prefix kv a.store ut
      → a.counter vol ≡ pos 1
      → a.stop_chans vol ≡ none
      → let (r, b) = unmount prefix kv from_human_size q a in
        (held_at prefix kv b.store ut ≡ some (record { value = ut; ttl = 0 }))
        × (b.stopping ≡ a.stopping)
        × (b.counter vol ≡ pos 0)
  unfolding sub remove_mount remove_stop_chan ◌-ℤ◌
  unmount_keeps_lock a locked free counted chan =
      let grants = publish_use_grants prefix kv a.store ut in
      let got = grants.0.1 free in
      let stands = grants.1 got in ground (arith, unmount_lem a, got, stands, text_eq_refl vol)

  -- After a last unmount, of a volume in unlocked mode, that failed in the driver, the mount is still collected though nothing is
  -- counted: the next mount that the driver grants ends in a panic.
  pub mount_panics :
      (a : Host (kv.Store)) (old mc : Mount) (e : Error)
      → cfg.unlocked ≡ true
      → a.counter vol ≡ pos 1
      → a.collection vol ≡ some old
      → q.unmount_answer ≡ some e
      → q.mount_answer options ≡ ok mc
      → mc.volume.name ≡ vol
      → let (r, b) = unmount prefix kv from_human_size q a in
        let (r', c) = mount prefix kv from_human_size q b in
        (b.collection vol ≡ some old) × (b.counter vol ≡ pos 0) × (r' ≡ some panicked)
  unfolding add sub ◌+ℤ◌ ◌-ℤ◌ add_mount
  mount_panics a old mc e unlocked counted collected failed answer named =
      ground (
        arith,
        unmount_lem a,
        mount_lem (unmount prefix kv from_human_size q a).1,
        text_eq_refl vol,
      )
