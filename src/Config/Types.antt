-- ===== src/Config/Types.antt =====
-- The structs of config/volume.go and config/policy.go. A map of options is the list of its entries;
-- a nil map and an empty one differ only where the code tests for nil, which is `none` here.
use volplugin.Base.{ℕ, Bool, Option, List, Text}

abbrev pub Options : Type 0
Options = List (Text × Text)

pub record CreateOptions : Type 0 where
  pub size : Text
  pub file_system : Text

pub record RateLimitConfig : Type 0 where
  pub write_bps : ℕ
  pub read_bps : ℕ

pub record SnapshotConfig : Type 0 where
  pub frequency : Text
  pub keep : ℕ

pub record RuntimeOptions : Type 0 where
  pub use_snapshots : Bool
  pub snapshot : SnapshotConfig
  pub rate_limit : RateLimitConfig

pub record BackendDrivers : Type 0 where
  pub crud : Text
  pub mount : Text
  pub snapshot : Text

pub record Volume : Type 0 where
  pub policy_name : Text
  pub volume_name : Text
  pub unlocked : Bool
  pub driver_options : Option Options
  pub mount_source : Text
  pub create_options : CreateOptions
  pub runtime_options : RuntimeOptions
  pub backends : Option BackendDrivers

pub record Policy : Type 0 where
  pub name : Text
  pub unlocked : Bool
  pub create_options : CreateOptions
  pub runtime_options : RuntimeOptions
  pub driver_options : Option Options
  pub file_systems : Option Options
  pub backends : Option BackendDrivers
  pub backend : Text
