-- ===== src/Daemon/Tests.antt =====
-- Starts of a volume plugin on a host with the mounts of two volumes, over a store in memory.
use volplugin.Base.{
  ◌≡◌, refl, none, some, false, [], ◌∷◌, ◌++◌, Text, codes, pos, update, split, ◌+ℤ◌, ◌-ℤ◌,
}
use volplugin.Errors.{ok, err, errored, not_exists, etcd}
use volplugin.Config.Volume.{full_name}
use volplugin.Config.Use.{UseLocker, use_key, publish_use, may_exist, use_type, get_volume}
use volplugin.Storage.Driver.{Mount, new_mount_driver}
use volplugin.Storage.Name.{slash}
use volplugin.Api.Mounts.{Counter, add_mount, add_count, add}
use volplugin.Api.State.{Host, add_stop_chan}
use volplugin.Api.Handlers.{start_ttl_refresh}
use volplugin.Api.Samples.{kv, prefix, from_human_size, volume, vol}
use volplugin.Daemon.{
  Surroundings, ContainerMount, Entries, unanswered, listed, poll, get_mounted, two_parts,
  update_mount, update_each, goes_on, crashes, lock_of,
}
use volplugin.Daemon.Restored.{update_each_restores}

abbrev mount_of : Text → Mount
mount_of name = record {
  device = codes "/dev/rbd0";
  path = codes "/mnt/rbd/" ++ name;
  dev_major = 252;
  dev_minor = 0;
  volume = record { name = name; size = 0; params = none };
}

abbrev db_name : Text
db_name = codes "policy1/db"

abbrev in_use : Text → ContainerMount
in_use name = record { driver = codes "volplugin"; name = name }

-- Docker answers at the third turn: two containers that run use the first volume, and one that has ended uses another.
abbrev surroundings : Surroundings
surroundings = record {
  plugin_name = codes "volplugin";
  mount_path = codes "/mnt";
  hostname = codes "mon0";
  timeout = pos 1;
  docker =
      unanswered 5
      ∷ unanswered 9
      ∷ listed (
          record { state = codes "running"; mounts = in_use vol ∷ [] }
          ∷ record { state = codes "running"; mounts = in_use vol ∷ [] }
          ∷ record { state = codes "exited"; mounts = in_use (codes "policy1/old") ∷ [] }
          ∷ [])
      ∷ [];
  drivers = (codes "ceph", ok (mount_of vol ∷ mount_of db_name ∷ [])) ∷ (codes "nfs", ok []) ∷ [];
  volume = λ p v. ok (volume false);
}

abbrev entries : Entries
entries = (vol, some (mount_of vol)) ∷ (db_name, some (mount_of db_name)) ∷ []

abbrev counts : Counter
counts = update (update (λ v. pos 0) vol (pos 1)) vol (pos 2)

got_mounted : get_mounted surroundings ≡ some (ok (entries, counts))
unfolding get_mounted poll new_mount_driver full_name ◌-ℤ◌ add ◌+ℤ◌
got_mounted = refl

abbrev fresh : Host (kv.Store)
fresh = record {
  store = [];
  counter = λ v. pos 0;
  collection = λ v. none;
  stop_chans = λ v. none;
  started = [];
  stopping = [];
  calls = [];
}

abbrev started : Host (kv.Store)
started = (update_each prefix kv from_human_size surroundings counts entries fresh).1

abbrev web_lock : UseLocker
web_lock = lock_of (codes "mon0") vol (volume false)

both_restored :
    (update_each prefix kv from_human_size surroundings counts entries fresh).0 ≡ goes_on
unfolding update_each update_mount split full_name start_ttl_refresh publish_use add_mount add_count
    use_key may_exist use_type get_volume add_stop_chan
both_restored = refl

web_parts : two_parts (split slash vol) ≡ some (codes "policy1", codes "web")
unfolding split full_name
web_parts = refl

update_each_restores_example :
    (started.collection vol ≡ some (mount_of vol))
    × (started.stop_chans vol ≡ some web_lock)
    × (started.counter vol ≡ pos 2)
unfolding full_name ◌+ℤ◌
update_each_restores_example =
    update_each_restores prefix kv from_human_size surroundings counts vol (codes "policy1")
      (codes "web") (mount_of vol) (volume false) [] ((db_name, some (mount_of db_name)) ∷ []) fresh
      refl web_parts refl tt ((refl, refl), tt) refl both_restored

-- A container whose volume no driver has found, and an error of the store that is none of the two: the process ends.
lost_mount :
    (update_each prefix kv from_human_size surroundings counts ((vol, none) ∷ []) fresh).0 ≡ crashes
unfolding update_each update_mount
lost_mount = refl

store_down :
    (update_each prefix kv from_human_size
      (record surroundings { volume = λ p v. err (errored (etcd 501 ∷ [])) })
      counts
      entries
      fresh).0
    ≡ crashes
unfolding update_each update_mount split full_name
store_down = refl

-- A volume that the store does not have is left alone.
unknown_volumes :
    (update_each prefix kv from_human_size
      (record surroundings { volume = λ p v. err (errored (not_exists ∷ [])) })
      counts
      entries
      fresh).0
    ≡ goes_on
unfolding update_each update_mount split full_name
unknown_volumes = refl
