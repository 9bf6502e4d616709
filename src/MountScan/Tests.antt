-- ===== src/MountScan/Tests.antt =====
-- A line of a mount table, and a scan of two lines of which one is cut off.
use volplugin.Base.{◌≡◌, refl, List, [], ◌∷◌, ◌++◌, Text, codes, All, Lacks, split, arith}
use volplugin.Errors.{ok}
use volplugin.MountScan.Defs.{
  MountInfo, GetMountsRequest, convert_to_uint, convert_to_mount_info, scan_line, scan_lines,
  get_mounts, get_driver_major_id, validate_request,
}

abbrev line : Text
line = codes "22 19 0:20 / /mnt/nfs rw shared:6 - nfs4 server:/export rw"

abbrev entry : MountInfo
entry = record {
  mount_id = 22;
  parent_id = 19;
  device_number = record { major = 0; minor = 20 };
  root = codes "/";
  mount_point = codes "/mnt/nfs";
  mount_options = codes "rw";
  optional_fields = codes "shared:6";
  separator = codes "-";
  filesystem_type = codes "nfs4";
  mount_source = codes "server:/export";
}

abbrev request : GetMountsRequest
request = record { driver_name = codes "nfs"; fs_type = codes "nfs4"; kernel_driver = [] }

abbrev table : Text
table = line ++ 0x0a ∷ codes "23 19 0:21"

scanned : get_mounts (ok []) (ok table) request ≡ ok (entry ∷ [])
unfolding get_mounts get_driver_major_id validate_request scan_lines scan_line convert_to_mount_info
    convert_to_uint split
scanned = refl

read_22 : convert_to_uint (codes "22") ≡ ok 22
unfolding convert_to_uint
read_22 = refl

read_19 : convert_to_uint (codes "19") ≡ ok 19
unfolding convert_to_uint
read_19 = refl

read_0 : convert_to_uint (codes "0") ≡ ok 0
unfolding convert_to_uint
read_0 = refl

read_20 : convert_to_uint (codes "20") ≡ ok 20
unfolding convert_to_uint
read_20 = refl

abbrev fields : List Text
fields =
    codes "22"
    ∷ codes "19"
    ∷ (codes "0" ++ 0x3a ∷ codes "20")
    ∷ codes "/"
    ∷ codes "/mnt/nfs"
    ∷ codes "rw"
    ∷ codes "shared:6"
    ∷ codes "-"
    ∷ codes "nfs4"
    ∷ codes "server:/export"
    ∷ []

fields-Lacks : All (Lacks 0x20) fields
fields-Lacks = ground arith

short_skipped : scan_line request 0 (codes "23 19 0:21") ≡ ok []
unfolding scan_line split
short_skipped = refl
