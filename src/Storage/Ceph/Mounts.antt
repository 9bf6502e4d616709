-- ===== src/Storage/Ceph/Mounts.antt =====
-- `Mount`, `Unmount` and `Mounted` of storage/backend/ceph/ceph.go.
use volplugin.Base.{
  ℕ, zero, suc, ◌/◌, ◌%◌, Bool, true, false, Option, none, some, List, [], ◌∷◌, ◌++◌, Text, codes,
  text_eq, ltb, if◌then◌else◌,
}
use volplugin.Errors.{Result, ok, err, panic, Fault, contains, dev_not_found}
use volplugin.MountScan.{GetMountsRequest, MountInfo, get_mounts}
use volplugin.Storage.Driver.{DriverOptions, Mount}
use volplugin.Storage.Ceph.Names.{internal_name}
use volplugin.Storage.Ceph.Machine.{
  Machine, Errno, enoent, einval, eexist, done, failed, crashed, running, outcome, fmt_error,
  Action, give, call, ◌>>=◌, ◌>>◌, pool_of,
}
use volplugin.Storage.Ceph.Paths.{mk_mount_path, path_text}
use volplugin.Storage.Ceph.Mapping.{map_image, unmap_image, get_mapped}

abbrev pub is_dev_not_found : Fault → Bool
is_dev_not_found dev_not_found = true
is_dev_not_found _ = false

-- The request of `Mounted`.
abbrev pub mounts_request : GetMountsRequest
mounts_request = record { driver_name = codes "ceph"; fs_type = []; kernel_driver = codes "rbd" }

-- The mount of a device, by the first of the mapped images that has the device.
abbrev pub mount_of : MountInfo → List Mount → List Mount
mount_of host [] = []
mount_of host (r ∷ rs) =
    if text_eq host.mount_source r.device
    then record {
      device = host.mount_source;
      path = host.mount_point;
      dev_major = host.device_number.major;
      dev_minor = host.device_number.minor;
      volume = r.volume;
    }
      ∷ []
    else mount_of host rs

unfoldable pub mounts_of : List MountInfo → List Mount → List Mount
mounts_of [] rs = []
mounts_of (host ∷ hosts) rs = mount_of host rs ++ mounts_of hosts rs

module _ (m : Machine) (mountpath : Text) where
  open m use {Host}

  -- `os.IsExist` passes, and any other error is returned.
  abbrev pub directory : Action Host (Unit {0}) → Option Errno → Action Host (Unit {0})
  directory k none = k
  directory k (some eexist) = k
  directory k (some e) = give fmt_error

  -- The device's numbers, for `os.Stat` of its node.
  abbrev pub mounted_as : DriverOptions → Text → Text → ℕ → Option Errno → Action Host Mount
  mounted_as d device path rdev (some e) = give fmt_error
  mounted_as d device path rdev none = give (
      done (record {
        device = device;
        path = path;
        dev_major = rdev / 256;
        dev_minor = rdev % 256;
        volume = d.volume;
      }))

  abbrev pub mount_device : DriverOptions → Text → Text → Action Host Mount
  mount_device d path device h = elim (m.stat device h) [
    | none ↦ (fmt_error, h)
    | some rdev ↦ call (m.mount device path d.fs_options.type) (mounted_as d device path rdev) h
  ]

  abbrev pub make_directory : Text → Action Host (Unit {0})
  make_directory path = call (m.mkdir_all path) (directory (give (done tt)))

  abbrev pub mount_mapped : ℕ → DriverOptions → Text → Action Host Mount
  mount_mapped fuel d path = do
    device ← map_image m fuel d
    make_directory mountpath >> make_directory path
    mount_device d path device

  -- `Mount`.
  unfoldable pub mount : ℕ → DriverOptions → Action Host Mount
  mount fuel d = do
    int_name ← give (outcome (internal_name d.volume.name))
    path ← give (outcome (mk_mount_path mountpath (pool_of d) int_name))
    mount_mapped fuel d (path_text path)

  -- The removal of the directory: `retry` leaves the number of retries as it is.
  abbrev pub removed : Action Host (Unit {0}) → Option Errno → Action Host (Unit {0})
  removed retry none = give (done tt)
  removed retry (some enoent) = give (done tt)
  removed retry (some e) = retry

  abbrev pub unmounted :
      (retry goes_on : Action Host (Unit {0})) → Option Errno → Action Host (Unit {0})
  unmounted retry goes_on none = goes_on
  unmounted retry goes_on (some enoent) = goes_on
  unmounted retry goes_on (some einval) = goes_on
  unmounted retry goes_on (some e) = retry

  -- The loop at the label `retry`, with fuel and the number of retries so far.
  unfoldable pub unmount_loop : ℕ → ℕ → Text → Action Host (Unit {0})
  unmount_loop zero retries path = give running
  unmount_loop (suc n) retries path =
      if ltb retries 3
      then call (m.unmount path) (
          unmounted (unmount_loop n (suc retries) path)
            (call (m.remove path) (removed (unmount_loop n retries path))))
      else give fmt_error

  -- `Unmount`: `unmapImage` does not return `os.ErrNotExist`.
  unfoldable pub unmount : ℕ → DriverOptions → Action Host (Unit {0})
  unmount fuel d = do
    int_name ← give (outcome (internal_name d.volume.name))
    path ← give (outcome (mk_mount_path mountpath (pool_of d) int_name))
    unmount_loop fuel 0 (path_text path)
    unmap_image m fuel d

  abbrev joined : ℕ → Result (List MountInfo) → Action Host (List Mount)
  joined fuel (ok hosts) = do rs ← get_mapped m fuel; give (done (mounts_of hosts rs))
  joined fuel (err e) = if contains is_dev_not_found e then give (done []) else give (failed e)
  joined fuel panic = give crashed

  -- `Mounted`.
  unfoldable pub mounted : ℕ → Action Host (List Mount)
  mounted fuel h = joined fuel (get_mounts (m.devices h) (m.mountinfo h) mounts_request) h
