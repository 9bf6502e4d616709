-- ===== src/Config/Volume.antt =====
-- config/volume.go: sizes, driver options, and the validation of a volume by its backends.
-- `units.FromHumanSize` is not part of the repository: the functions that need it take it.
use volplugin.Base.{
  ℕ, ◌/◌, Bool, true, Option, none, some, [], ◌∷◌, ◌++◌, Text, codes, ◌==◌, ◌||◌, ◌&&◌,
  if◌then◌else◌,
}
use volplugin.Errors.{Result, ok, err, panic, Error, ◌>>=◌, ◌>>◌}
use volplugin.Config.Types.{Volume, CreateOptions, BackendDrivers}
use volplugin.Storage.Name.{is_empty}
use volplugin.Storage.Driver.{DriverOptions, new_mount_driver, new_ceph_driver, validate_with}

-- `strings.TrimSpace(s) == ""` for ASCII text.
abbrev pub is_space : ℕ → Bool
is_space c = c == 0x20 || c == 0x09 || c == 0x0a || c == 0x0b || c == 0x0c || c == 0x0d

abbrev pub is_blank : Text → Bool
is_blank [] = true
is_blank (c ∷ s) = is_space c && is_blank s

abbrev pub megabyte : ℕ
megabyte = 1000000

-- `cfg.String()`, for names that `path.Join` leaves as they are.
unfoldable pub full_name : Text → Text → Text
full_name policy name = policy ++ 0x2f ∷ name

module _ (from_human_size : Text → Result ℕ) where
  unfoldable pub actual_size : CreateOptions → Result ℕ
  actual_size co = do
    size ← from_human_size (if is_blank co.size then codes "0" else co.size)
    ok (size / megabyte)

  unfoldable pub to_driver_options : Volume → ℕ → Result DriverOptions
  unfolding actual_size
  to_driver_options cfg timeout = do
    size ← actual_size cfg.create_options
    ok (record {
      source = cfg.mount_source;
      volume = record {
        name = full_name cfg.policy_name cfg.volume_name;
        size = size;
        params = cfg.driver_options;
      };
      fs_options = record { type = cfg.create_options.file_system; create_command = [] };
      timeout = timeout;
    })

  abbrev check : Option Error → Result (Unit {0})
  check none = ok tt
  check (some e) = err e

  -- A CRUD or snapshot backend is checked only where one is named.
  abbrev check_optional : Text → DriverOptions → Result (Unit {0})
  check_optional backend d =
      if is_empty backend
      then ok tt
      else (do driver ← new_ceph_driver backend; check (validate_with driver d))

  abbrev check_backends : Option BackendDrivers → DriverOptions → Result (Unit {0})
  check_backends none d = panic
  check_backends (some b) d = do
    check_optional b.crud d
    mnt ← new_mount_driver b.mount (codes "/mnt")
    check (validate_with mnt d)
    check_optional b.snapshot d

  -- One second, in nanoseconds, is the dummy timeout.
  unfoldable pub validate_backends : Volume → Result (Unit {0})
  unfolding to_driver_options new_mount_driver new_ceph_driver
  validate_backends cfg = do d ← to_driver_options cfg 1000000000; check_backends cfg.backends d
