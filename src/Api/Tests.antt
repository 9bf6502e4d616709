-- ===== src/Api/Tests.antt =====
-- Runs of the mount handlers on one host, over a store in memory.
use volplugin.Base.{
  ◌≡◌, ◌≢◌, inl, inr, refl, Option, none, some, Bool, true, false, [], ◌∷◌, codes, ℤ, pos, arith,
  update,
}
use volplugin.Errors.{Result, ok, Error, sentinel, lock_failed, errored, message}
use volplugin.Config.Volume.{to_driver_options, actual_size, full_name}
use volplugin.Config.Use.{UseLocker, lock_key, use_key, use_type, get_volume, may_exist}
use volplugin.Config.Use.Publish.{held_at, Grantable}
use volplugin.Storage.Driver.{Mount, MountDriver, new_mount_driver}
use volplugin.Api.State.{
  Host, Request, http_error, mountpoint, panicked, DriverCall, VolumeName, get_storage_parameters,
}
use volplugin.Api.Handlers.{mount_lock, mount, unmount}
use volplugin.Api.Handlers.Locking.{mount_excluded, mount_first, unmount_last, mount_panics}
use volplugin.Api.Handlers.Keyed.{IsKeyed, mount-IsKeyed}
use volplugin.Api.Handlers.Confined.{IsConfined, unmount-IsConfined}
use volplugin.Api.Samples.{kv, prefix, from_human_size, volume, vol, options}

abbrev mounted : Mount
mounted = record {
  device = codes "/dev/rbd0";
  path = codes "/mnt/rbd/policy1.web";
  dev_major = 252;
  dev_minor = 0;
  volume = record { name = vol; size = 10; params = some ((codes "pool", codes "rbd") ∷ []) };
}

abbrev web : VolumeName
web = record { policy = codes "policy1"; name = codes "web" }

abbrev request : Bool → Result Mount → Option Error → Request (kv.Store)
request unlocked mount_answer unmount_answer = record {
  hostname = codes "mon0";
  mount_path = codes "/mnt";
  timeout = pos 3;
  driver_timeout = 5;
  body = ok web;
  volume = λ uc. ok (volume unlocked);
  mount_answer = λ o. mount_answer;
  unmount_answer = unmount_answer;
  path_answer = ok (codes "/mnt/rbd/policy1.web");
  clear_rounds = [];
}

parameters :
    (unlocked : Bool) (m : Result Mount) (u : Option Error)
    → get_storage_parameters from_human_size (request unlocked m u) web
      ≡ ok (MountDriver.ceph, volume unlocked, options)
unfolding get_storage_parameters to_driver_options actual_size new_mount_driver
parameters unlocked m u = refl

-- The requests: in locked mode, in unlocked mode, and with a driver that fails.
abbrev locked : Request (kv.Store)
locked = request false (ok mounted) none

abbrev ut : UseLocker
ut = mount_lock vol (codes "mon0")

abbrev theirs : UseLocker
theirs = mount_lock vol (codes "mon1")

abbrev host : (kv.Store) → ℤ → Option Mount → Option UseLocker → Host (kv.Store)
host s n m u = record {
  store = s;
  counter = update (λ v. pos 0) vol n;
  collection = update (λ v. none) vol m;
  stop_chans = update (λ v. none) vol u;
  started = [];
  stopping = [];
  calls = [];
}

abbrev held_by : UseLocker → kv.Store
held_by u = (lock_key prefix u, some (record { value = u; ttl = 0 })) ∷ []

abbrev idle : Host (kv.Store)
idle = host [] (pos 0) none none

abbrev busy : Host (kv.Store)
busy = host (held_by ut) (pos 1) (some mounted) (some ut)

abbrev shared : Host (kv.Store)
shared = host (held_by ut) (pos 2) (some mounted) (some ut)

abbrev failed : Host (kv.Store)
failed = host [] (pos 1) none none

held_theirs : held_at prefix kv (held_by theirs) ut ≡ some (record { value = theirs; ttl = 0 })
unfolding use_key full_name get_volume use_type
held_theirs = refl

held_ours : held_at prefix kv (held_by ut) ut ≡ some (record { value = ut; ttl = 0 })
unfolding use_key full_name get_volume use_type
held_ours = refl

ours_grantable : Grantable prefix kv (held_by ut) ut
unfolding may_exist
ours_grantable = inr (record { value = ut; ttl = 0 }, held_ours, refl, refl)

hosts_differ : theirs ≢ ut
hosts_differ = ground arith

mount_excluded_example :
    let (r, b) = mount prefix kv from_human_size locked (host (held_by theirs) (pos 0) none none) in
    (r ≡ some (http_error (errored (lock_failed ∷ lock_failed ∷ []))))
    × (b.calls ≡ [])
    × (b.counter ≡ idle.counter)
    × (b.collection ≡ idle.collection)
    × (held_at prefix kv b.store ut ≡ some (record { value = theirs; ttl = 0 }))
mount_excluded_example =
    mount_excluded prefix kv from_human_size locked web MountDriver.ceph (volume false) options refl
      (parameters false (ok mounted) none) (host (held_by theirs) (pos 0) none none)
      (record { value = theirs; ttl = 0 }) refl held_theirs hosts_differ

mount_first_example :
    let (r, b) = mount prefix kv from_human_size locked idle in
    (r ≡ some (mountpoint (codes "/mnt/rbd/policy1.web")))
    × (held_at prefix kv b.store ut ≡ some (record { value = ut; ttl = 0 }))
    × (b.counter vol ≡ pos 1)
    × (b.collection vol ≡ some mounted)
    × (b.stop_chans vol ≡ some ut)
    × (b.started ≡ ut ∷ [])
    × (b.calls ≡ DriverCall.mount vol ∷ [])
unfolding full_name
mount_first_example =
    mount_first prefix kv from_human_size locked web MountDriver.ceph (volume false) options refl
      (parameters false (ok mounted) none) idle mounted (codes "/mnt/rbd/policy1.web") refl
      (inl refl) refl refl refl refl refl

unmount_last_example :
    let (r, b) = unmount prefix kv from_human_size locked busy in
    (b.counter vol ≡ pos 0)
    × (b.collection vol ≡ none)
    × (b.stop_chans vol ≡ none)
    × (b.stopping ≡ ut ∷ [])
    × (b.calls ≡ DriverCall.unmount vol ∷ [])
unfolding full_name
unmount_last_example =
    unmount_last prefix kv from_human_size locked web MountDriver.ceph (volume false) options refl
      (parameters false (ok mounted) none) busy ut refl ours_grantable refl refl refl

abbrev fault : Error
fault = sentinel message

abbrev unmount_fails : Request (kv.Store)
unmount_fails = request true (ok mounted) (some fault)

mount_panics_example :
    let (r, b) = unmount prefix kv from_human_size unmount_fails busy in
    let (r', c) = mount prefix kv from_human_size unmount_fails b in
    (b.collection vol ≡ some mounted) × (b.counter vol ≡ pos 0) × (r' ≡ some panicked)
unfolding full_name
mount_panics_example =
    mount_panics prefix kv from_human_size unmount_fails web MountDriver.ceph (volume true) options
      refl (parameters true (ok mounted) (some fault)) busy mounted mounted fault refl refl refl
      refl refl refl

idle-IsKeyed : IsKeyed (codes "mon0") idle
idle-IsKeyed = record { mounts = λ v mc e. ground arith; chans = λ v u e. ground arith }

mount-IsKeyed_example : IsKeyed (codes "mon0") (mount prefix kv from_human_size locked idle).1
mount-IsKeyed_example = mount-IsKeyed prefix kv from_human_size locked idle idle-IsKeyed

unmount-IsConfined_example :
    IsConfined vol none (unmount prefix kv from_human_size locked busy).1 busy
unmount-IsConfined_example =
    unmount-IsConfined prefix kv from_human_size locked web MountDriver.ceph (volume false) options
      refl (parameters false (ok mounted) none) busy
