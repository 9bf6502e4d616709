-- ===== src/Config/Created/Tests.antt =====
-- A policy that is published and read back, and a volume that is made of it.
use volplugin.Base.{ℕ, ◌≡◌, refl, true, false, Option, none, some, [], ◌∷◌, Text, codes, arith}
use volplugin.Errors.{Result, ok, err, Error, sentinel, message}
use volplugin.Config.Types.{Volume, Policy, Options}
use volplugin.Config.Volume.{actual_size}
use volplugin.Config.Policy.{
  PolicyStore, PolicyRequest, validate_policy, publish_policy, get_policy_named,
  get_policy_revision, default_drivers, default_filesystems,
}
use volplugin.Config.Policy.Stored.{get_policy-publish_policy}
use volplugin.Config.Created.{
  config_create_volume, config_create_volume-IsSettled, IsSettled, AreBounded,
}
use volplugin.Merge.{opts, set_key, parse_bits, parse_bool}
use volplugin.Merge.Policies.{policy_fields}

abbrev from_human_size : Text → Result ℕ
from_human_size t = ok 10000000

abbrev no_schema : Policy → Option Error
no_schema p = none

-- A policy of the ceph backend that names no drivers and no filesystems.
abbrev bare : Policy
bare = record {
  name = codes "policy1";
  unlocked = false;
  create_options = record { size = codes "10MB"; file_system = [] };
  runtime_options = record {
    use_snapshots = false;
    snapshot = record { frequency = []; keep = 0 };
    rate_limit = record { write_bps = 0; read_bps = 0 };
  };
  driver_options = none;
  file_systems = none;
  backends = none;
  backend = codes "ceph";
}

abbrev full : Policy
full = record bare {
  file_systems = some default_filesystems;
  backends = some (record { crud = codes "ceph"; mount = codes "ceph"; snapshot = codes "ceph" });
}

abbrev fine : PolicyRequest
fine = record { set_revision = none; set_policy = none; delete_policy = none; now = 5 }

abbrev empty : PolicyStore
empty = record { policies = λ n. none; revisions = λ n t. none }

filled_in : validate_policy from_human_size no_schema bare ≡ ok full
unfolding validate_policy default_drivers actual_size
filled_in = refl

published :
    publish_policy from_human_size no_schema fine (codes "policy1") bare empty
    ≡ (ok tt, (publish_policy from_human_size no_schema fine (codes "policy1") bare empty).1)
unfolding publish_policy validate_policy default_drivers actual_size
published = refl

get_policy-publish_policy_example :
    let w = (publish_policy from_human_size no_schema fine (codes "policy1") bare empty).1 in
    (get_policy_named from_human_size no_schema fine (codes "policy1") w ≡ ok full)
    × (get_policy_revision from_human_size no_schema fine (codes "policy1") 5 w ≡ ok full)
get_policy-publish_policy_example =
    get_policy-publish_policy from_human_size no_schema fine (codes "policy1") bare full empty
      (publish_policy from_human_size no_schema fine (codes "policy1") bare empty).1 refl filled_in
      refl published

abbrev wanted : Options
wanted =
    (codes "snapshots.keep", codes "20")
    ∷ (codes "mount", codes "nfs1:/web")
    ∷ (codes "snapshots", codes "true")
    ∷ []

abbrev made : Volume
made = record {
  policy_name = codes "policy1";
  volume_name = codes "web";
  unlocked = false;
  driver_options = some [];
  mount_source = codes "nfs1:/web";
  create_options = record { size = codes "10MB"; file_system = codes "ext4" };
  runtime_options = record {
    use_snapshots = true;
    snapshot = record { frequency = []; keep = 20 };
    rate_limit = record { write_bps = 0; read_bps = 0 };
  };
  backends = some (record { crud = codes "ceph"; mount = codes "ceph"; snapshot = codes "ceph" });
}

created :
    config_create_volume from_human_size no_schema
      (λ v. ok tt)
      (ok bare)
      (codes "policy1")
      (codes "web")
      wanted
    ≡ ok made
unfolding config_create_volume opts set_key policy_fields parse_bits parse_bool validate_policy
    default_drivers actual_size
created = refl

-- A number of more than 32 bits is refused.
too_many :
    config_create_volume from_human_size no_schema
      (λ v. ok tt)
      (ok bare)
      (codes "policy1")
      (codes "web")
      ((codes "snapshots.keep", codes "4294967296") ∷ [])
    ≡ err (sentinel message)
unfolding config_create_volume opts set_key policy_fields parse_bits parse_bool
too_many = refl

config_create_volume-IsSettled_example :
    IsSettled (codes "policy1") (codes "web") wanted made × AreBounded made.runtime_options
config_create_volume-IsSettled_example =
    config_create_volume-IsSettled from_human_size no_schema (λ v. ok tt) bare (codes "policy1")
      (codes "web") wanted made (omega arith, omega arith, omega arith) created
