-- ===== src/Storage/Ceph/HostTests.antt =====
-- The ceph driver on hosts that answer from a table and keep a list of the commands that were run.
use volplugin.Base.{
  ℕ, ◌≡◌, ◌≢◌, inr, refl, Bool, true, false, Option, none, some, List, [], ◌∷◌, Text, codes, map,
  arith, cut, contains_byte, split,
}
use volplugin.Errors.{ok, err, plain, combine, mount_failed, message}
use volplugin.MountScan.{MountInfo}
use volplugin.Storage.Driver.{DriverOptions, Mount}
use volplugin.Storage.Ceph.Names.{internal_name}
use volplugin.Storage.Ceph.Machine.{
  Machine, Command, Answer, Errno, ebusy, einval, Rbd, done, failed, running, succeeded,
}
use volplugin.Storage.Ceph.Images.{list, listed_volume}
use volplugin.Storage.Ceph.Pool.{Op, make, drop, ask, Names, options, ok_result}
use volplugin.Storage.Ceph.Refine.{with_blocked}
use volplugin.Storage.Ceph.Memory.{pool_machine, pool_images}
use volplugin.Storage.Ceph.Copied.{copy_snapshot_cleans_up, HasResult}
use volplugin.Storage.Ceph.Table.{Row, IsRow, table, snapshot_names-table}
use volplugin.Storage.Ceph.Snapshots.{snapshot_names, copy_snapshot}
use volplugin.Storage.Ceph.Unmounted.{Passes, unmount_loop-running}
use volplugin.Storage.Ceph.Mapping.{
  map_loop, map_image, show_mapped, unmap_image, unmap_loop, do_unmap, unmap_entries,
}
use volplugin.Storage.Ceph.Unmapped.{Reports, Gone, unmap_image-Gone}
use volplugin.Storage.Ceph.Paths.{mk_mount_path, clean, rel, join_paths, CleanPath}
use volplugin.Storage.Ceph.Mounts.{mount, unmount_loop}
use volplugin.Storage.Ceph.Mounted.{IsDescribed, mount-IsDescribed}

abbrev web : Text
web = codes "tenant/web"

abbrev busy : Text
busy = codes "tenant/busy"

-- A volume is made, made again, and destroyed; one whose image is watched is made and cannot be destroyed.
abbrev ops : List Op
ops = make web 10 ∷ make web 20 ∷ make busy 10 ∷ drop web ∷ drop busy ∷ ask web ∷ ask busy ∷ []

abbrev no_names : Names
no_names n = false

blocked_at :
    with_blocked pool_machine (codes "rbd") pool_images ops ([], tt)
    ≡ (make web 10, false)
      ∷ (make web 20, false)
      ∷ (make busy 10, true)
      ∷ (drop web, false)
      ∷ (drop busy, true)
      ∷ (ask web, false)
      ∷ (ask busy, true)
      ∷ []
unfolding pool_images internal_name cut contains_byte
blocked_at = refl

web_image : internal_name web ≡ ok (codes "tenant.web")
unfolding internal_name cut contains_byte
web_image = refl

-- The listing of the mapped images shows another image once the image was unmapped.
abbrev listed_after : List Command → Text
listed_after [] = codes "tenant.web"
listed_after (c ∷ log) = codes "tenant.db"

abbrev unmap_run : Command → List Command → Answer × List Command
unmap_run c log = (ok_result (listed_after log), c ∷ log)

-- A host that answers by a table, and keeps the commands that were run.
abbrev host : (Command → Answer) → (unmounting removal : Option Errno) → Machine
host answer unmounting removal = record {
  Host = List Command;
  run = λ c log. (answer c, c ∷ log);
  mkdir_all = λ path log. (none, log);
  stat = λ path log. some 64257;
  mount = λ device path type log. (none, log);
  unmount = λ path log. (unmounting, log);
  remove = λ path log. (removal, log);
  devices = λ log. ok [];
  mountinfo = λ log. ok [];
  decode_names = λ s. some (codes "other" ∷ []);
  decode_mapped =
      λ s. some (record { pool = codes "rbd"; name = s; device = codes "/dev/rbd0" } ∷ []);
}

abbrev fine : Answer
fine = ok_result (codes "tenant.web")

abbrev failing : ℕ → Answer
failing n = (some (record { exit_status = n; stdout = [] }), some (plain message))

-- A host on which every run of `rbd map` fails.
abbrev cannot_map : Command → Answer
cannot_map (Command.rbd_map name pool) = failing 1
cannot_map _ = fine

-- A host whose images all are mapped, and one that has another image.
abbrev mapping : Machine
mapping = host (λ c. fine) none none

abbrev web_options : DriverOptions
web_options = options (codes "rbd") web 10

abbrev web_mount : Mount
web_mount = record {
  device = codes "/dev/rbd0";
  path = codes "/mnt/rbd/tenant.web";
  dev_major = 251;
  dev_minor = 1;
  volume = web_options.volume;
}

abbrev web_log : List Command
web_log = Command.rbd_showmapped ∷ Command.rbd_map (codes "tenant.web") (codes "rbd") ∷ []

mounted_web : mount mapping (codes "/mnt") 1 web_options [] ≡ (done web_mount, web_log)
unfolding mount map_image map_loop show_mapped mk_mount_path internal_name cut contains_byte rel
    clean join_paths split
mounted_web = refl

mount-IsDescribed_example : IsDescribed mapping (codes "/mnt") web_options web_mount
mount-IsDescribed_example =
    mount-IsDescribed mapping (codes "/mnt") 1 web_options [] web_log web_mount mounted_web

abbrev web_path : CleanPath
web_path = record { rooted = true; elements = codes "mnt" ∷ codes "rbd" ∷ codes "tenant.web" ∷ [] }

inside_path : mk_mount_path (codes "/mnt") (codes "rbd") (codes "tenant.web") ≡ ok web_path
unfolding mk_mount_path rel clean join_paths split
inside_path = refl

-- A pool whose name leads up is refused.
outside_path :
    mk_mount_path (codes "/mnt") (codes "../etc") (codes "tenant.web")
    ≡ err (combine (mount_failed ∷ []) (plain message))
unfolding mk_mount_path rel clean join_paths split
outside_path = refl

-- A host on which the image is mapped before it is unmapped, and on which another is mapped then.
abbrev unmapping : Machine
unmapping = record {
  Host = List Command;
  run = unmap_run;
  mkdir_all = λ path log. (none, log);
  stat = λ path log. some 64257;
  mount = λ device path type log. (none, log);
  unmount = λ path log. (none, log);
  remove = λ path log. (none, log);
  devices = λ log. ok [];
  mountinfo = λ log. ok [];
  decode_names = λ s. none;
  decode_mapped =
      λ s. some (record { pool = codes "rbd"; name = s; device = codes "/dev/rbd0" } ∷ []);
}

abbrev unmap_log : List Command
unmap_log =
    Command.rbd_showmapped ∷ Command.rbd_unmap (codes "/dev/rbd0") ∷ Command.rbd_showmapped ∷ []

unmapped_web : unmap_image unmapping 1 web_options [] ≡ (done tt, unmap_log)
unfolding unmap_image unmap_loop do_unmap unmap_entries show_mapped internal_name cut contains_byte
unmapped_web = refl

unmapping-Reports : Reports unmapping
unmapping-Reports c h r e = ground (arith, e)

unmap_image-Gone_example :
    (rs : List Rbd) × (g : List Command) × (show_mapped unmapping 1 [] ≡ (done rs, g))
    × Gone unmapping 1 (codes "tenant.web") (codes "rbd") rs unmap_log
unmap_image-Gone_example =
    unmap_image-Gone unmapping 1 web_options (codes "tenant.web") web_image unmapping-Reports []
      unmap_log unmapped_web

abbrev title : Text
title = codes "SNAPID NAME SIZE"

abbrev row : Row
row = record {
  indent = codes "     ";
  id = codes "4";
  name = codes "daily";
  size = codes "10240 MB";
}

row-IsRow : IsRow row
row-IsRow = record {
  blank = ground arith;
  indented = λ e. cc;
  numbered = λ e. cc;
  whole_id = ground arith;
  called = λ e. cc;
  whole_name = ground arith;
  one_line = ground arith;
}

snapshot_names-table_example : snapshot_names (table title (row ∷ [])) ≡ codes "daily" ∷ []
snapshot_names-table_example = snapshot_names-table title (row ∷ []) (ground arith) (row-IsRow, tt)

-- A host with one mount point, whose directory is held: the first unmounting succeeds, and the later ones
-- find no mount point.
abbrev unmount_once : Text → Bool → Option Errno × Bool
unmount_once path true = (none, false)
unmount_once path false = (some einval, false)

abbrev held_directory : Machine
held_directory = record {
  Host = Bool;
  run = λ c h. (fine, h);
  mkdir_all = λ path h. (none, h);
  stat = λ path h. some 64257;
  mount = λ device path type h. (none, true);
  unmount = unmount_once;
  remove = λ path h. (some ebusy, h);
  devices = λ h. ok [];
  mountinfo = λ h. ok [];
  decode_names = λ s. none;
  decode_mapped = λ s. none;
}

unmount_once-Passes :
    (h : Bool)
    → Passes held_directory (codes "/mnt") (unmount_once (codes "/mnt/rbd/tenant.web") h).0
unmount_once-Passes true = tt
unmount_once-Passes false = tt

unmount_loop-running_example :
    (unmount_loop held_directory (codes "/mnt") 1000 0 (codes "/mnt/rbd/tenant.web") true).0
    ≡ running
unmount_loop-running_example =
    unmount_loop-running held_directory (codes "/mnt") (codes "/mnt/rbd/tenant.web")
      unmount_once-Passes (λ h. refl) 1000 true

abbrev host_mount : MountInfo
host_mount = record {
  mount_id = 1;
  parent_id = 0;
  device_number = record { major = 251; minor = 1 };
  root = codes "/";
  mount_point = codes "/mnt/rbd/tenant.web";
  mount_options = [];
  optional_fields = [];
  separator = codes "-";
  filesystem_type = codes "ext4";
  mount_source = codes "/dev/rbd0";
}

abbrev image : Mount
image = record {
  device = codes "/dev/rbd0";
  path = [];
  dev_major = 0;
  dev_minor = 0;
  volume = web_options.volume;
}

-- The snapshot is protected by an earlier copy, and the clone fails.
abbrev cannot_clone : Command → Answer
cannot_clone (Command.rbd_snap_protect orig snap) = failing 16
cannot_clone (Command.rbd_clone orig new snap) = failing 1
cannot_clone _ = fine

abbrev copying : Machine
copying = host cannot_clone none none

abbrev copy_log : List Command
copy_log =
    Command.rbd_clone (codes "rbd/tenant.web") (codes "rbd/tenant.copy") (codes "daily")
    ∷ Command.rbd_snap_protect (codes "rbd/tenant.web") (codes "daily")
    ∷ Command.rbd_ls (codes "rbd")
    ∷ []

copy_image : internal_name (codes "tenant/copy") ≡ ok (codes "tenant.copy")
unfolding internal_name cut contains_byte
copy_image = refl

other_listed : list copying 1 (some ((codes "pool", codes "rbd") ∷ [])) [] ≡ (
  done (map (listed_volume (codes "rbd")) (codes "other" ∷ [])),
  Command.rbd_ls (codes "rbd") ∷ [],
)
unfolding list
other_listed = refl

abbrev clone_status : ℕ
clone_status = 1

copy_snapshot_cleans_up_example :
    (clone_status ≡ 17
      → copy_snapshot copying 1 web_options (codes "daily") (codes "tenant/copy") []
        ≡ (failed (plain message), copy_log))
    × (clone_status ≢ 0
        → clone_status ≢ 17
        → (removed unprotected : Answer) (h4 h5 : List Command)
        → copying.run (Command.rbd_rm (codes "rbd/tenant.copy")) copy_log ≡ (removed, h4)
        → succeeded removed ≡ true
        → copying.run (Command.rbd_snap_unprotect (codes "rbd/tenant.web") (codes "daily")) h4
          ≡ (unprotected, h5)
        → HasResult unprotected
        → copy_snapshot copying 1 web_options (codes "daily") (codes "tenant/copy") []
          ≡ (failed (plain message), h5))
copy_snapshot_cleans_up_example =
    copy_snapshot_cleans_up copying 1 web_options (codes "daily") (codes "tenant/copy")
      (codes "tenant.web") (codes "tenant.copy") (codes "other" ∷ []) web_image copy_image []
      (Command.rbd_ls (codes "rbd") ∷ [])
      (Command.rbd_snap_protect (codes "rbd/tenant.web") (codes "daily")
        ∷ Command.rbd_ls (codes "rbd")
        ∷ [])
      copy_log other_listed (failing 16) refl (inr refl) (record { exit_status = 1; stdout = [] })
      (plain message) refl
