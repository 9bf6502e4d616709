-- ===== src/Api/State.antt =====
-- The state of one volplugin process (`API` in api/api.go), the answers of its surroundings during one
-- request, and what a handler has written to its client.
use volplugin.Base.{ℕ, Option, none, some, List, ◌∷◌, Text, ℤ, update}
use volplugin.Errors.{Result, ok, panic, Error, ◌>>=◌, wrap, get_driver, unmarshal_request}
use volplugin.Config.Types.{Volume, BackendDrivers}
use volplugin.Config.Volume.{to_driver_options}
use volplugin.Config.Use.{UseLocker}
use volplugin.Lock.{Round}
use volplugin.Storage.Driver.{Mount, MountDriver, DriverOptions, new_mount_driver}
use volplugin.Api.Mounts.{Counter, Collection}

-- A volume as the plugins name it: `api.Volume` without the fields that the handlers do not read.
pub record VolumeName : Type 0 where
  pub policy : Text
  pub name : Text

pub data DriverCall : Type 0 where
  mount unmount : Text → DriverCall

pub data Reply : Type 0 where
  http_error : Error → Reply
  mountpoint : Text → Reply
  panicked : Reply

-- `store` is shared with the other hosts. `started` has a lock for each refresh goroutine that was
-- started, and `stopping` one for each that was sent its stop signal: it will remove the lock.
-- A stop channel is known by the lock that its goroutine refreshes.
pub record Host (S : Type 0) : Type 0 where
  pub store : S
  pub counter : Counter
  pub collection : Collection
  pub stop_chans : Text → Option UseLocker
  pub started : List UseLocker
  pub stopping : List UseLocker
  pub calls : List DriverCall

-- What a request meets: its decoded body, the volume's configuration (`GetVolume`), the answers of
-- the driver, the rounds of `ClearLock`, and the settings of the process.
pub record Request (S : Type 0) : Type 0 where
  pub hostname : Text
  pub mount_path : Text
  pub timeout : ℤ
  pub driver_timeout : ℕ
  pub body : Result VolumeName
  pub volume : VolumeName → Result Volume
  pub mount_answer : DriverOptions → Result Mount
  pub unmount_answer : Option Error
  pub path_answer : Result Text
  pub clear_rounds : List (Round S)

abbrev pub backend_of : Option BackendDrivers → Result Text
backend_of none = panic
backend_of (some b) = ok b.mount

-- `GetStorageParameters`.
unfoldable pub get_storage_parameters :
    (Text → Result ℕ)
    → {S : Type 0} → Request S
    → VolumeName
    → Result (MountDriver × Volume × DriverOptions)
unfolding to_driver_options new_mount_driver
get_storage_parameters from_human_size q uc = do
  cfg ← q.volume uc
  backend ← backend_of cfg.backends
  driver ← wrap get_driver (new_mount_driver backend q.mount_path)
  options ← wrap unmarshal_request (to_driver_options from_human_size cfg q.driver_timeout)
  ok (driver, cfg, options)

module _ {S : Type 0} where
  -- `AddStopChan`: a channel that was there is dropped, and its goroutine goes on.
  unfoldable pub add_stop_chan : Text → UseLocker → Host S → Host S
  add_stop_chan name u a = record a {
    stop_chans = update a.stop_chans name (some u);
    started = u ∷ a.started;
  }

  abbrev pub signal : Text → Option UseLocker → Host S → Host S
  signal name none a = a
  signal name (some u) a = record a {
    stop_chans = update a.stop_chans name none;
    stopping = u ∷ a.stopping;
  }

  -- `RemoveStopChan`.
  unfoldable pub remove_stop_chan : Text → Host S → Host S
  remove_stop_chan name a = signal name (a.stop_chans name) a
