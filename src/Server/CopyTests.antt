-- ===== src/Server/CopyTests.antt =====
-- A copy of a snapshot that succeeds in the intent store and fails on the cluster.
use volplugin.Base.{
  ◌≡◌, ◌≢◌, refl, false, none, some, [], ◌∷◌, codes, pos, All, arith, contains_byte,
}
use volplugin.Errors.{ok, err, panic, plain, message}
use volplugin.Config.Types.{Volume, BackendDrivers}
use volplugin.Config.Volume.{actual_size, to_driver_options, validate_backends, full_name}
use volplugin.Config.Use.{
  UseLocker, lock_key, use_key, use_type, get_volume, publish_use, use_mount, use_snapshot,
}
use volplugin.Lock.{Round, returned, acquire_all, acquire, retry}
use volplugin.Lock.Multi.{Owns, IsFree}
use volplugin.Storage.Driver.{
  new_mount_driver, new_ceph_driver, validate_ceph, validate_options, validate_volume,
}
use volplugin.Api.Samples.{kv, prefix, from_human_size, volume}
use volplugin.Api.Create.{CreateRequest, name_of, validate}
use volplugin.Server.Defs.{VolumeRequest, unmarshal_volume_request}
use volplugin.Server.Copy.{
  CopyRequest, CopyWorld, call_of, copy_body, handle_copy, renamed, copy_schedule,
}
use volplugin.Server.Copied.{copy_body_publishes, copy_releases, IsAllowed, reply_of}

abbrev web : Volume
web = volume false

abbrev wanted : VolumeRequest
wanted = record {
  name = codes "web";
  policy = codes "policy1";
  options = (codes "snapshot", codes "daily") ∷ (codes "target", codes "copy") ∷ [];
}

abbrev copy : Volume
copy = renamed prefix kv from_human_size web wanted

abbrev round : Round (kv.Store)
round = record { others = λ s. s; since = 5; since' = 5 }

abbrev answers : CreateRequest (kv.Store)
answers = record {
  body = panic;
  hostname = panic;
  policy = panic;
  config_volume = panic;
  volume_schema = λ v. none;
  runtime_schema = λ r. none;
  set_volume = none;
  set_runtime = none;
  write_create = none;
  crud = record {
    create = λ o. none;
    format = λ o. none;
    destroy = λ o. none;
    exists = λ o. ok false;
  };
  timeout = pos 3;
  driver_timeout = 5;
  mount_rounds = [];
  snapshot_rounds = [];
}

-- The snapshot cannot be copied.
abbrev failing : CopyRequest (kv.Store)
failing = record {
  read = ok [];
  decode = λ body. ok wanted;
  first_read = ok web;
  second_read = ok web;
  hostname = ok (codes "mon0");
  store = answers;
  copy = λ c. some (plain message);
  marshal = none;
  timeout = pos 3;
  new_mount_rounds = round ∷ [];
  new_snapshot_rounds = round ∷ [];
  snapshot_rounds = round ∷ [];
}

abbrev empty : CopyWorld
empty = record {
  world = record { volumes = λ k. none; runtimes = λ k. none; calls = [] };
  copies = [];
}

valid : validate from_human_size answers copy ≡ ok tt
unfolding validate_backends to_driver_options actual_size new_mount_driver new_ceph_driver
    validate_ceph validate_options validate_volume full_name
valid = refl

copy_body_publishes_example :
    let (r, w') = copy_body from_human_size failing wanted web copy empty in
    (r ≡ err (plain message))
    × (w'.world.volumes (name_of copy) ≡ some copy)
    × (w'.world.runtimes (name_of copy) ≡ some copy.runtime_options)
    × (w'.copies ≡ call_of wanted web copy ∷ [])
copy_body_publishes_example =
    copy_body_publishes from_human_size failing wanted web copy valid refl refl refl empty
      (some (plain message)) refl refl

requested : unmarshal_volume_request (ok []) failing.decode ≡ ok wanted
unfolding unmarshal_volume_request
requested = refl

abbrev backends : BackendDrivers
backends = record { crud = codes "ceph"; mount = codes "ceph"; snapshot = codes "ceph" }

abbrev Allowed : Type 0
Allowed =
    IsAllowed prefix kv from_human_size failing wanted web backends (codes "mon0") requested refl
      refl refl

allowed : Allowed
unfolding contains_byte
allowed = record {
  snapshot = (codes "daily", refl);
  target = refl;
  one_part = refl;
  backed = refl;
  driven = refl;
  other = refl;
}

abbrev mounting : UseLocker
mounting = use_mount (name_of copy) (codes "mon0") (codes "Copy")

abbrev taking : UseLocker
taking = use_snapshot (name_of copy) (codes "Copy")

abbrev reading : UseLocker
reading = use_snapshot (name_of web) (codes "Copy")

abbrev all_held : kv.Store
all_held =
    (lock_key prefix reading, some (record { value = reading; ttl = 0 }))
    ∷ (lock_key prefix taking, some (record { value = taking; ttl = 0 }))
    ∷ (lock_key prefix mounting, some (record { value = mounting; ttl = 0 }))
    ∷ []

acquired :
    acquire_all prefix kv
      (copy_schedule prefix kv from_human_size failing web copy (codes "mon0"))
      (pos 3)
      []
    ≡ returned none all_held
unfolding acquire_all acquire retry publish_use use_key use_type get_volume full_name
acquired = refl

owned : All (Owns prefix kv all_held) (mounting ∷ taking ∷ reading ∷ [])
unfolding use_key use_type get_volume full_name
owned = (
  (record { value = mounting; ttl = 0 }, refl, refl),
  (
    (record { value = taking; ttl = 0 }, refl, refl),
    ((record { value = reading; ttl = 0 }, refl, refl), tt),
  ),
)

body_ends : (copy_body from_human_size failing wanted web copy empty).0 ≢ panic
body_ends h = ground (arith, copy_body_publishes_example)

copy_releases_example :
    let (answer, t, w') = handle_copy prefix kv from_human_size failing [] empty in
    (answer
      ≡ reply_of prefix kv from_human_size failing wanted web backends
          (codes "mon0")
          requested
          refl
          refl
          refl
          (copy_body from_human_size failing wanted web copy empty).0)
    × (w' ≡ (copy_body from_human_size failing wanted web copy empty).1)
    × All (IsFree prefix kv t) (mounting ∷ taking ∷ reading ∷ [])
copy_releases_example =
    copy_releases prefix kv from_human_size failing wanted web backends (codes "mon0") requested
      refl refl refl [] all_held empty allowed acquired owned body_ends
