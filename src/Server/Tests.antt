-- ===== src/Server/Tests.antt =====
-- Removals of a volume that is there, of one that is not, and one that is forced.
use volplugin.Base.{
  ℕ, ◌≡◌, ◌≢◌, refl, Bool, true, false, none, some, List, [], ◌∷◌, Text, codes, pos, All, arith,
  ℕ_discrete,
}
use volplugin.Errors.{ok, panic, sentinel, not_exists, etcd_to_errored, lock_failed}
use volplugin.Config.Types.{Volume}
use volplugin.Config.Volume.{full_name}
use volplugin.Config.Use.{
  UseLocker, UseLocker-discrete, lock_key, use_key, use_type, get_volume, publish_use, may_exist,
  remove_use,
}
use volplugin.Lock.{Round, returned, acquire_all, acquire, retry, lock_wait}
use volplugin.Lock.Multi.{Owns, IsFree}
use volplugin.Storage.Control.{Crud, CrudCall}
use volplugin.Api.Samples.{kv, prefix, from_human_size, volume}
use volplugin.Api.Create.{World}
use volplugin.Server.Defs.{VolumeRequest, status, unmarshal_volume_request}
use volplugin.Server.Remove.{
  RemoveRequest, requested_name, remove_body, handle_remove, remove_mount_lock,
  remove_snapshot_lock, remove_schedule, remove_volume_use,
}
use volplugin.Server.Removed.{IsRemoved, asked, destroyed, remove_body_removes}
use volplugin.Server.RemoveLocks.{reply_of, remove_releases, remove_forced}

abbrev web : Volume
web = volume false

-- The driver has the image as long as it was not destroyed.
abbrev is_there : List CrudCall → Bool
is_there [] = true
is_there (CrudCall.destroy o ∷ calls) = false
is_there (c ∷ calls) = is_there calls

abbrev driver : World → Crud
driver w = record {
  create = λ o. none;
  format = λ o. none;
  destroy = λ o. none;
  exists = λ o. ok (is_there w.calls);
}

abbrev round : ℕ → Round (kv.Store)
round t = record { others = λ s. s; since = t; since' = t }

abbrev wanted : Text → VolumeRequest
wanted force = record {
  name = codes "web";
  policy = codes "policy1";
  options = (codes "force", force) ∷ [];
}

abbrev request : Text → RemoveRequest (kv.Store)
request force = record {
  read = ok [];
  decode = λ body. ok (record {
    name = codes "web";
    policy = codes "policy1";
    options = (codes "force", force) ∷ [];
  });
  parse_duration = λ t. ok (pos 0);
  config_volume = ok web;
  hostname = ok (codes "mon0");
  crud = driver;
  delete = λ w. elim (w.volumes (requested_name (wanted force))) [
    | none ↦ some (sentinel not_exists)
    | some v ↦ none
  ];
  timeout = pos 3;
  mount_rounds = round 5 ∷ [];
  snapshot_rounds = round 5 ∷ [];
}

abbrev stored : World
stored = record { volumes = λ k. some web; runtimes = λ k. some web.runtime_options; calls = [] }

remove_body_removes_example :
    let (r, w') = remove_body from_human_size (request []) (wanted []) (pos 3) web stored in
    IsRemoved from_human_size (request []) (wanted []) web refl (pos 3) stored w'
    × (r ≡ ok tt)
    × (w'.calls
        ≡ CrudCall.exists (asked from_human_size (request []) (wanted []) web refl (pos 3) stored)
          ∷ CrudCall.destroy
              (destroyed from_human_size (request []) (wanted []) web refl (pos 3) stored)
          ∷ [])
remove_body_removes_example =
    remove_body_removes from_human_size (request []) (wanted []) web refl (pos 3) stored true refl
      refl

abbrev mounting : UseLocker
mounting = remove_mount_lock web (codes "mon0")

abbrev snapshotting : UseLocker
snapshotting = remove_snapshot_lock web

abbrev both_held : kv.Store
both_held =
    (lock_key prefix snapshotting, some (record { value = snapshotting; ttl = 0 }))
    ∷ (lock_key prefix mounting, some (record { value = mounting; ttl = 0 }))
    ∷ []

acquired :
    acquire_all prefix kv
      (remove_schedule prefix kv from_human_size (request []) web (codes "mon0"))
      (pos 3)
      []
    ≡ returned none both_held
unfolding acquire_all acquire retry publish_use use_key use_type get_volume full_name
acquired = refl

mounting_owned : Owns prefix kv both_held mounting
unfolding use_key use_type get_volume full_name
mounting_owned = (record { value = mounting; ttl = 0 }, refl, refl)

snapshotting_owned : Owns prefix kv both_held snapshotting
unfolding use_key use_type get_volume full_name
snapshotting_owned = (record { value = snapshotting; ttl = 0 }, refl, refl)

requested :
    (force : Text) → unmarshal_volume_request (ok []) (request force).decode ≡ ok (wanted force)
unfolding unmarshal_volume_request
requested force = refl

body_ends : (remove_body from_human_size (request []) (wanted []) (pos 3) web stored).0 ≢ panic
body_ends h = ground (arith, remove_body_removes_example)

remove_releases_example :
    let (answer, t, w') = handle_remove prefix kv from_human_size (request []) [] stored in
    (answer
      ≡ reply_of prefix kv from_human_size
          (request [])
          (wanted [])
          web
          (codes "mon0")
          (requested [])
          (pos 3)
          refl
          refl
          refl
          (remove_body from_human_size (request []) (wanted []) (pos 3) web stored).0)
    × (w' ≡ (remove_body from_human_size (request []) (wanted []) (pos 3) web stored).1)
    × All (IsFree prefix kv t) (mounting ∷ snapshotting ∷ [])
remove_releases_example =
    remove_releases prefix kv from_human_size (request []) (wanted []) web (codes "mon0")
      (requested []) (pos 3) refl refl refl [] both_held stored refl acquired
      (mounting_owned, (snapshotting_owned, tt)) body_ends

abbrev theirs : UseLocker
theirs = remove_mount_lock web (codes "mon1")

abbrev held : kv.Store
held = (lock_key prefix theirs, some (record { value = theirs; ttl = 0 })) ∷ []

refused :
    acquire_all prefix kv
      (remove_schedule prefix kv from_human_size (request []) web (codes "mon0"))
      (pos 3)
      held
    ≡ returned (some (sentinel lock_failed)) held
unfolding acquire_all acquire retry lock_wait publish_use may_exist use_key use_type get_volume
    full_name UseLocker-discrete ℕ_discrete etcd_to_errored
refused = refl

abbrev forcing : RemoveRequest (kv.Store)
forcing = request (codes "true")

-- The lock that the forced removal takes away is not there.
freed_nothing : remove_volume_use prefix kv from_human_size mounting [] ≡ []
unfolding remove_use
freed_nothing = refl

forced_acquired :
    acquire_all prefix kv
      (remove_schedule prefix kv from_human_size forcing web (codes "mon0"))
      (pos 3)
      (remove_volume_use prefix kv from_human_size mounting [])
    ≡ returned none both_held
unfolding acquire_all acquire retry publish_use remove_use use_key use_type get_volume full_name
forced_acquired = refl

remove_forced_example :
    let (answer, t, w') = handle_remove prefix kv from_human_size forcing [] stored in
    (answer ≡ some (status 404 ∷ [])) × (w'.volumes (requested_name (wanted (codes "true"))) ≡ none)
unfolding full_name
remove_forced_example =
    remove_forced prefix kv from_human_size forcing (wanted (codes "true")) web (codes "mon0")
      (requested (codes "true")) (pos 3) refl refl refl refl [] both_held stored
      (sentinel not_exists) refl refl refl refl refl forced_acquired
      (mounting_owned, (snapshotting_owned, tt))
