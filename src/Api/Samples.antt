-- ===== src/Api/Samples.antt =====
-- The volume, the store and the settings that the runs of the handlers use.
use volplugin.Base.{ℕ, Bool, false, some, [], ◌∷◌, Text, codes}
use volplugin.Errors.{Result, ok}
use volplugin.Etcd.{Etcd, memory}
use volplugin.Config.Types.{Volume}
use volplugin.Config.Use.{UseLocker, UseLocker-discrete}
use volplugin.Storage.Driver.{DriverOptions}
use volplugin.Api.Handlers.{vol_name_of}

abbrev pub kv : Etcd UseLocker
kv = memory UseLocker-discrete

abbrev pub prefix : Text
prefix = codes "/volplugin"

-- Every size reads as ten megabytes.
abbrev pub from_human_size : Text → Result ℕ
from_human_size t = ok 10000000

abbrev pub volume : Bool → Volume
volume unlocked = record {
  policy_name = codes "policy1";
  volume_name = codes "web";
  unlocked = unlocked;
  driver_options = some ((codes "pool", codes "rbd") ∷ []);
  mount_source = [];
  create_options = record { size = codes "10MB"; file_system = codes "ext4" };
  runtime_options = record {
    use_snapshots = false;
    snapshot = record { frequency = []; keep = 0 };
    rate_limit = record { write_bps = 0; read_bps = 0 };
  };
  backends = some (record { crud = codes "ceph"; mount = codes "ceph"; snapshot = codes "ceph" });
}

abbrev pub vol : Text
vol = vol_name_of (volume false)

abbrev pub options : DriverOptions
options = record {
  source = [];
  volume = record { name = vol; size = 10; params = some ((codes "pool", codes "rbd") ∷ []) };
  fs_options = record { type = codes "ext4"; create_command = [] };
  timeout = 5;
}
