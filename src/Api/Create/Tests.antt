-- ===== src/Api/Create/Tests.antt =====
-- Creations of a volume: one that is stored, and others that fail.
use volplugin.Base.{
  inl, ℕ, ◌≡◌, ◌≢◌, refl, true, false, Option, none, some, [], ◌∷◌, Text, codes, pos, All, arith,
  ℕ_discrete,
}
use volplugin.Errors.{
  ok, err, panic, Error, combine, sentinel, exists, format_volume, lock_failed, message,
  etcd_to_errored,
}
use volplugin.Config.Types.{Volume, Policy}
use volplugin.Config.Volume.{actual_size, to_driver_options, validate_backends, full_name}
use volplugin.Config.Use.{
  UseLocker, UseLocker-discrete, lock_key, use_key, use_type, get_volume, publish_use, may_exist,
}
use volplugin.Lock.{Round, returned, acquire_all, acquire, retry, lock_wait}
use volplugin.Lock.Multi.{Owns, IsFree}
use volplugin.Storage.Driver.{
  DriverOptions, new_mount_driver, new_ceph_driver, validate_ceph, validate_options,
  validate_volume,
}
use volplugin.Storage.Control.{Crud, CrudCall, options_for, plain_options}
use volplugin.Api.State.{VolumeName}
use volplugin.Api.Samples.{kv, prefix, from_human_size, volume}
use volplugin.Api.Create.{
  World, CreateRequest, http_error, create, create_body, schedule, mount_lock, snapshot_lock,
  name_of, validate,
}
use volplugin.Api.Create.Body.{create_body_publishes, create_body_cleans_up, create_body_already}
use volplugin.Api.Create.Locks.{create_refused, create_releases}

abbrev v : Volume
v = volume false

abbrev driver : Option Error → Option Error → Crud
driver creating formatting = record {
  create = λ o. creating;
  format = λ o. formatting;
  destroy = λ o. none;
  exists = λ o. ok false;
}

abbrev policy : Policy
policy = record {
  name = codes "policy1";
  unlocked = false;
  create_options = v.create_options;
  runtime_options = v.runtime_options;
  driver_options = v.driver_options;
  file_systems = none;
  backends = v.backends;
  backend = codes "ceph";
}

abbrev web : VolumeName
web = record { policy = codes "policy1"; name = codes "web" }

abbrev round : ℕ → Round (kv.Store)
round t = record { others = λ s. s; since = t; since' = t }

abbrev request : Option Error → Option Error → CreateRequest (kv.Store)
request creating formatting = record {
  body = ok web;
  hostname = ok (codes "mon0");
  policy = ok policy;
  config_volume = ok v;
  volume_schema = λ v. none;
  runtime_schema = λ r. none;
  set_volume = none;
  set_runtime = none;
  write_create = none;
  crud = driver creating formatting;
  timeout = pos 3;
  driver_timeout = 5;
  mount_rounds = round 5 ∷ [];
  snapshot_rounds = round 5 ∷ [];
}

abbrev fine : CreateRequest (kv.Store)
fine = request none none

abbrev fault : Error
fault = sentinel message

abbrev unformatted : CreateRequest (kv.Store)
unformatted = request none (some fault)

abbrev empty : World
empty = record { volumes = λ k. none; runtimes = λ k. none; calls = [] }

abbrev stored : World
stored = record empty { volumes = λ k. some (volume true) }

abbrev command : Text
command = codes "mkfs.ext4 -m0 %"

sized : actual_size from_human_size v.create_options ≡ ok 10
unfolding actual_size
sized = refl

valid : validate from_human_size fine v ≡ ok tt
unfolding validate_backends to_driver_options actual_size new_mount_driver new_ceph_driver
    validate_ceph validate_options validate_volume full_name
valid = refl

abbrev options : DriverOptions
options = options_for from_human_size fine.crud v 10 (codes "ext4") command 5

create_body_publishes_example :
    let (r, w) = create_body from_human_size fine none empty in
    (r ≡ ok v)
    × (w.volumes (name_of v) ≡ some v)
    × (w.runtimes (name_of v) ≡ some v.runtime_options)
    × (w.calls ≡ CrudCall.create options ∷ CrudCall.format options ∷ [])
create_body_publishes_example =
    create_body_publishes from_human_size fine v none command 10 refl sized refl refl empty refl
      refl valid refl refl refl refl refl

create_body_cleans_up_example :
    let (r, w) = create_body from_human_size unformatted none empty in
    (w.volumes ≡ empty.volumes)
    × (w.runtimes ≡ empty.runtimes)
    × (w.calls
        ≡ CrudCall.create options
          ∷ CrudCall.format options
          ∷ CrudCall.destroy (plain_options from_human_size unformatted.crud v 5)
          ∷ [])
    × (r ≡ err (combine (format_volume ∷ []) fault))
create_body_cleans_up_example =
    create_body_cleans_up from_human_size unformatted v none command 10 refl sized refl refl empty
      fault refl refl

create_body_already_example :
    let (r, w) = create_body from_human_size fine none stored in
    (r ≡ ok v) × (w.volumes ≡ stored.volumes) × (w.runtimes ≡ stored.runtimes)
create_body_already_example =
    create_body_already from_human_size fine v none command 10 refl sized refl refl stored refl refl
      valid refl (inl (volume true, refl))

stored_is_refused :
    create prefix kv from_human_size fine [] stored
    ≡ (some (http_error (sentinel exists)), [], stored)
stored_is_refused =
    create_refused prefix kv from_human_size fine web refl [] stored (volume true) refl

abbrev name : Text
name = full_name (codes "policy1") (codes "web")

abbrev mounting : UseLocker
mounting = mount_lock name (codes "mon0")

abbrev snapshotting : UseLocker
snapshotting = snapshot_lock name

abbrev both_held : kv.Store
both_held =
    (lock_key prefix snapshotting, some (record { value = snapshotting; ttl = 0 }))
    ∷ (lock_key prefix mounting, some (record { value = mounting; ttl = 0 }))
    ∷ []

acquired :
    acquire_all prefix kv (schedule prefix kv from_human_size fine name (codes "mon0")) (pos 3) []
    ≡ returned none both_held
unfolding acquire_all acquire retry publish_use use_key use_type get_volume full_name
acquired = refl

mounting_owned : Owns prefix kv both_held mounting
unfolding use_key use_type get_volume full_name
mounting_owned = (record { value = mounting; ttl = 0 }, refl, refl)

snapshotting_owned : Owns prefix kv both_held snapshotting
unfolding use_key use_type get_volume full_name
snapshotting_owned = (record { value = snapshotting; ttl = 0 }, refl, refl)

body_ends : (create_body from_human_size fine none empty).0 ≢ panic
body_ends h = ground (arith, create_body_publishes_example)

create_releases_example :
    let (r, t, w) = create prefix kv from_human_size fine [] empty in
    (w ≡ (create_body from_human_size fine none empty).1)
    × All (IsFree prefix kv t) (mounting ∷ snapshotting ∷ [])
create_releases_example =
    create_releases prefix kv from_human_size fine web refl (codes "mon0") policy refl refl [] empty
      refl both_held acquired (mounting_owned, (snapshotting_owned, tt)) body_ends

abbrev theirs : UseLocker
theirs = mount_lock name (codes "mon1")

abbrev held : kv.Store
held = (lock_key prefix theirs, some (record { value = theirs; ttl = 0 })) ∷ []

refused :
    acquire_all prefix kv (schedule prefix kv from_human_size fine name (codes "mon0")) (pos 3) held
    ≡ returned (some (sentinel lock_failed)) held
unfolding acquire_all acquire retry lock_wait publish_use may_exist use_key use_type get_volume
    full_name UseLocker-discrete ℕ_discrete etcd_to_errored
refused = refl
