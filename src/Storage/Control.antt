-- ===== src/Storage/Control.antt =====
-- storage/control/volume.go: a volume is made, formatted, looked for and removed by its CRUD driver.
-- The calls that reach the driver are listed, in order, beside the result.
use volplugin.Base.{ℕ, Bool, Option, none, some, List, [], ◌∷◌, Text, codes, text_eq, if◌then◌else◌}
use volplugin.Errors.{Result, ok, err, panic, Error, sentinel, no_action_taken, message}
use volplugin.Config.Types.{Volume, BackendDrivers, Options}
use volplugin.Config.Volume.{actual_size, full_name}
use volplugin.Storage.Name.{is_empty}
use volplugin.Storage.Driver.{DriverOptions, MountDriver, new_ceph_driver}

pub data CrudCall : Type 0 where
  create format destroy exists : DriverOptions → CrudCall

-- The answers of the CRUD driver.
pub record Crud : Type 0 where
  pub create : DriverOptions → Option Error
  pub format : DriverOptions → Option Error
  pub destroy : DriverOptions → Option Error
  pub exists : DriverOptions → Result Bool

abbrev pub default_fs_cmd : Text
default_fs_cmd = codes "mkfs.ext4 -m0 %"

-- `m[k]` with its presence.
abbrev pub lookup : Options → Text → Option Text
lookup [] k = none
lookup ((j, v) ∷ m) k = if text_eq j k then some v else lookup m k

abbrev pub filesystem_command : Option Options → Text → Result Text
filesystem_command none type = ok default_fs_cmd
filesystem_command (some m) type = elim (lookup m type) [
  | some c ↦ ok c
  | none ↦ err (sentinel message)
]

abbrev pub crud_of : Option BackendDrivers → Result Text
crud_of none = panic
crud_of (some b) = ok b.crud

abbrev answered : {A : Type 0} → A → Option Error → Result A
answered a none = ok a
answered a (some e) = err e

abbrev pub Run : Type 0 → Type 0
Run A = List CrudCall × Result A

module _ (from_human_size : Text → Result ℕ) (crud : Crud) where
  abbrev pub options_for : Volume → ℕ → Text → Text → ℕ → DriverOptions
  options_for cfg size type command timeout = record {
    source = [];
    volume = record {
      name = full_name cfg.policy_name cfg.volume_name;
      size = size;
      params = cfg.driver_options;
    };
    fs_options = record { type = type; create_command = command };
    timeout = timeout;
  }

  -- The options that `ExistsVolume` and `RemoveVolume` pass.
  abbrev pub plain_options : Volume → ℕ → DriverOptions
  plain_options cfg timeout = options_for cfg 0 [] [] timeout

  abbrev create_with : Volume → ℕ → Text → Result ℕ → Result MountDriver → Run DriverOptions
  create_with cfg timeout command (ok size) (ok d) =
      let o = options_for cfg size cfg.create_options.file_system command timeout in
      (CrudCall.create o ∷ [], answered o (crud.create o))
  create_with cfg timeout command (ok size) (err e) = ([], err e)
  create_with cfg timeout command (ok size) panic = ([], panic)
  create_with cfg timeout command (err e) d = ([], err e)
  create_with cfg timeout command panic d = ([], panic)

  abbrev create_on : Option Options → Volume → ℕ → Result Text → Run DriverOptions
  create_on file_systems cfg timeout (ok backend) =
      if is_empty backend
      then ([], err (sentinel no_action_taken))
      else elim (filesystem_command file_systems cfg.create_options.file_system) [
        | ok command ↦
            create_with cfg timeout command (actual_size from_human_size cfg.create_options)
              (new_ceph_driver backend)
        | err e ↦ ([], err e)
        | panic ↦ ([], panic)
      ]
  create_on file_systems cfg timeout (err e) = ([], err e)
  create_on file_systems cfg timeout panic = ([], panic)

  -- `CreateVolume`, of the policy only its filesystems.
  unfoldable pub create_volume : Option Options → Volume → ℕ → Run DriverOptions
  unfolding actual_size new_ceph_driver
  create_volume file_systems cfg timeout = create_on file_systems cfg timeout (crud_of cfg.backends)

  abbrev call_on :
      {A : Type 0} → DriverOptions → CrudCall → (DriverOptions → Result A) → Result Text → Run A
  call_on o c answer (ok backend) =
      if is_empty backend
      then ([], err (sentinel no_action_taken))
      else elim (new_ceph_driver backend) [
        | ok d ↦ (c ∷ [], answer o)
        | err e ↦ ([], err e)
        | panic ↦ ([], panic)
      ]
  call_on o c answer (err e) = ([], err e)
  call_on o c answer panic = ([], panic)

  -- `FormatVolume` asks for the size first, and does not use it.
  unfoldable pub format_volume : Volume → DriverOptions → Run (Unit {0})
  unfolding actual_size new_ceph_driver
  format_volume cfg o = elim (actual_size from_human_size cfg.create_options) [
    | ok size ↦
        call_on o (CrudCall.format o) (λ o. answered tt (crud.format o)) (crud_of cfg.backends)
    | err e ↦ ([], err e)
    | panic ↦ ([], panic)
  ]

  -- `ExistsVolume`: its Boolean counts only where the error is nil.
  unfoldable pub exists_volume : Volume → ℕ → Run Bool
  unfolding new_ceph_driver
  exists_volume cfg timeout =
      let o = plain_options cfg timeout in
      call_on o (CrudCall.exists o) crud.exists (crud_of cfg.backends)

  -- `RemoveVolume`.
  unfoldable pub remove_volume : Volume → ℕ → Run (Unit {0})
  unfolding new_ceph_driver
  remove_volume cfg timeout =
      let o = plain_options cfg timeout in
      call_on o (CrudCall.destroy o) (λ o. answered tt (crud.destroy o)) (crud_of cfg.backends)
