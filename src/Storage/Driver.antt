-- ===== src/Storage/Driver.antt =====
-- storage/driver.go and storage/backend/backends.go: the data that drivers are given and return, the
-- checks of `Validate`, and the tables of drivers by name.
use volplugin.Base.{
  ℕ, Bool, true, false, ◌||◌, Option, none, some, List, [], ◌∷◌, Text, codes, text_eq, ◌==◌,
  if◌then◌else◌,
}
use volplugin.Errors.{Result, ok, err, Error, sentinel, message}
use volplugin.Storage.Name.{is_empty}

abbrev pub Params : Type 0
Params = Option (List (Text × Text))

pub record Volume : Type 0 where
  pub name : Text
  pub size : ℕ
  pub params : Params

pub record FsOptions : Type 0 where
  pub type : Text
  pub create_command : Text

-- Timeouts are positive durations, in nanoseconds.
pub record DriverOptions : Type 0 where
  pub source : Text
  pub volume : Volume
  pub fs_options : FsOptions
  pub timeout : ℕ

pub record Mount : Type 0 where
  pub device : Text
  pub path : Text
  pub dev_major : ℕ
  pub dev_minor : ℕ
  pub volume : Volume

-- `m[k]` on a map of strings: a missing key, or a nil map, reads as the empty string.
abbrev pub index_list : List (Text × Text) → Text → Text
index_list [] k = []
index_list ((j, v) ∷ m) k = if text_eq j k then v else index_list m k

abbrev pub index : Params → Text → Text
index none k = []
index (some m) k = index_list m k

abbrev pub is_nil : Params → Bool
is_nil none = true
is_nil (some m) = false

-- `Volume.Validate` and `DriverOptions.Validate`: `none` is a nil error.
unfoldable pub validate_volume : Volume → Option Error
validate_volume v = if is_empty v.name || is_nil v.params then some (sentinel message) else none

unfoldable pub validate_options : DriverOptions → Option Error
unfolding validate_volume
validate_options d = if d.timeout == 0 then some (sentinel message) else validate_volume d.volume

-- `Validate` of the ceph driver and of the nfs driver.
unfoldable pub validate_ceph : DriverOptions → Option Error
unfolding validate_options
validate_ceph d = elim (validate_options d) [
  | some e ↦ some e
  | none ↦ if is_empty (index d.volume.params (codes "pool")) then some (sentinel message) else none
]

unfoldable pub validate_nfs : DriverOptions → Option Error
validate_nfs d =
    if is_empty d.volume.name || is_empty d.source then some (sentinel message) else none

pub data MountDriver : Type 0 where
  ceph nfs : MountDriver

-- `NewMountDriver`: the table MountDrivers, and the guard on the mount path.
unfoldable pub new_mount_driver : Text → Text → Result MountDriver
new_mount_driver backend mountpath =
    if text_eq backend (codes "ceph")
    then (if is_empty mountpath then err (sentinel message) else ok MountDriver.ceph)
    else if text_eq backend (codes "nfs")
    then (if is_empty mountpath then err (sentinel message) else ok MountDriver.nfs)
    else err (sentinel message)

-- `NewCRUDDriver` and `NewSnapshotDriver`: both tables hold the ceph driver alone.
unfoldable pub new_ceph_driver : Text → Result MountDriver
new_ceph_driver backend =
    if text_eq backend (codes "ceph") then ok MountDriver.ceph else err (sentinel message)

abbrev pub validate_with : MountDriver → DriverOptions → Option Error
validate_with MountDriver.ceph d = validate_ceph d
validate_with MountDriver.nfs d = validate_nfs d
