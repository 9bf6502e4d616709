-- ===== src/Storage/Nfs.antt =====
-- storage/backend/nfs: the options of a mount, the mount and its retries, and the mounts of the host. What the
-- network answers is part of the request; the paths are those of package filepath.
pub mod Options
pub mod Attempts
mod Tests
use volplugin.Base.{
  ℕ, zero, suc, ◌==◌, Bool, true, false, Option, none, some, List, [], ◌∷◌, ◌++◌, Text, codes, map,
  text_eq, contains_byte, cut, if◌then◌else◌,
}
use volplugin.Errors.{
  Result, ok, err, panic, Error, ◌>>=◌, ◌>>◌, errored, sentinel, combine, message, contains, plain,
}
use volplugin.MountScan.{GetMountsRequest, MountInfo, get_mounts}
use volplugin.Storage.Driver.{DriverOptions, Mount, Volume, index}
use volplugin.Storage.Name.{is_empty}
use volplugin.Storage.Ceph.Machine.{Errno, eio, ebusy, eexist, trim_space}
use volplugin.Storage.Ceph.Paths.{CleanPath, clean, join_paths, path_text, rel}
use volplugin.Storage.Ceph.Mounts.{is_dev_not_found}
use volplugin.Storage.Nfs.Options.{
  OptionMap, find_option, put_option, validate_convert_options, map_options_to_string,
}

-- What package net and the route tables answer: an address as it is written by `ip.String()`, the
-- addresses of a host, the links with their type, and whether a link's network holds an address.
pub record Link : Type 0 where
  pub type : Text
  pub networks : Result (List (Text → Bool))

pub record Network : Type 0 where
  pub parse_ip : Text → Option Text
  pub lookup_host : Text → Result (List Text)
  pub links : Result (List Link)

abbrev any_network : Text → List (Text → Bool) → Bool
any_network ip [] = false
any_network ip (holds ∷ nets) = if holds ip then true else any_network ip nets

abbrev no_client : Result OptionMap
no_client = err (sentinel message)

-- The loop over the links: only those of the type "device" count.
abbrev client_of : Text → OptionMap → List Link → Result OptionMap
client_of ip m [] = no_client
client_of ip m (l ∷ ls) =
    let rest = client_of ip m ls in
    if text_eq l.type (codes "device")
    then elim l.networks [
      | err e ↦ err (sentinel message)
      | panic ↦ panic
      | ok nets ↦ if any_network ip nets then ok (put_option (codes "clientaddr") ip m) else rest
    ]
    else rest

abbrev client_by : Network → OptionMap → Option Text → Result OptionMap
client_by n m none = err (sentinel message)
client_by n m (some ip) = elim n.links [
  | err e ↦ err (combine (message ∷ []) e)
  | panic ↦ panic
  | ok ls ↦ client_of ip m ls
]

-- `readNetlink`, with the map that it leaves: an address that is given is not found.
unfoldable pub read_netlink : Network → OptionMap → Text → Result OptionMap
read_netlink n m host = elim (find_option (codes "clientaddr") m) [
  | some v ↦ no_client
  | none ↦ client_by n m (n.parse_ip host)
]

abbrev given_addr : Option Text → Result Text
given_addr none = err (sentinel message)
given_addr (some a) = if is_empty (trim_space a) then err (sentinel message) else ok a

abbrev before_colon : Option (Text × Text) → Result Text
before_colon none = err (sentinel message)
before_colon (some (host, path)) = ok host

-- The server that the source or the option "addr" names.
abbrev pub server_of : Text → OptionMap → Result Text
server_of source m =
    if contains_byte 0x3a source
    then before_colon (cut 0x3a source)
    else given_addr (find_option (codes "addr") m)

abbrev pub or_local : Text → Text
or_local host = if is_empty host then codes "127.0.0.1" else host

abbrev first_host : Result (List Text) → Result Text
first_host (ok []) = err (sentinel message)
first_host (ok (h ∷ hs)) = ok h
first_host (err e) = err (combine (message ∷ []) e)
first_host panic = panic

abbrev pub resolved : Network → Text → Result Text
resolved n host = elim (n.parse_ip host) [
  | some ip ↦ ok host
  | none ↦ first_host (n.lookup_host host)
]

-- `mkOpts`, from the address of the server on, and from the name of the server on.
abbrev pub opts_at : Network → OptionMap → Text → Result Text
opts_at n m host = do
  m' ← read_netlink n (put_option (codes "addr") host m) host
  str ← map_options_to_string m'
  ok (codes "nfsvers=4," ++ str)

abbrev pub opts_of : Network → OptionMap → Text → Result Text
opts_of n m named = do host ← resolved n (or_local named); opts_at n m host

abbrev pub opts_from : Network → Text → OptionMap → Result Text
opts_from n source m = do named ← server_of source m; opts_of n m named

-- `mkOpts`.
unfoldable pub mk_opts : Network → DriverOptions → Result Text
unfolding validate_convert_options cut contains_byte
mk_opts n d = do
  m ← validate_convert_options (index d.volume.params (codes "options"))
  opts_from n d.source m

-- `MountPath`.
unfoldable pub mount_path : Text → DriverOptions → Text
unfolding join_paths
mount_path mountpath d = path_text (join_paths (mountpath ∷ d.volume.name ∷ []))

abbrev pub mounted_as : Text → DriverOptions → Mount
mounted_as path d = record {
  device = d.source;
  path = path;
  dev_major = 0;
  dev_minor = 0;
  volume = d.volume;
}

-- A host's answers to `unix.Mount` of a source at a path, of type "nfs" and with the options, and the host
-- that each leaves.
abbrev pub MountCall : Type 0 → Type 0
MountCall H = (source path options : Text) → H → Option Errno × H

-- The loop at the label `retry`, with the attempts that are left: only an input or output error is tried
-- again, and a busy mount point is taken for a mount.
abbrev pub attempted :
    {H : Type 0} → Mount → (again : H → Result Mount × H) → Option Errno × H → Result Mount × H
attempted t again (none, h) = (ok t, h)
attempted t again (some ebusy, h) = (ok t, h)
attempted t again (some eio, h) = again h
attempted t again (some e, h) = (err (sentinel message), h)

unfoldable pub mount_loop : {H : Type 0} → ℕ → Mount → (H → Option Errno × H) → H → Result Mount × H
mount_loop zero t call h = (err (sentinel message), h)
mount_loop (suc n) t call h = attempted t (mount_loop n t call) (call h)

abbrev directory_made : Option Errno → Bool
directory_made none = true
directory_made (some eexist) = true
directory_made (some e) = false

abbrev pub mount_with : {H : Type 0} → Mount → MountCall H → Result Text → H → Result Mount × H
mount_with t call (ok opts) h = mount_loop 3 t (call t.device t.path opts) h
mount_with t call (err e) h = (err e, h)
mount_with t call panic h = (panic, h)

-- `Mount`, with the answers of `MkdirAll` and of `unix.Mount`.
unfoldable pub mount :
    {H : Type 0}
    → Text
    → Network
    → (made : Option Errno) → MountCall H
    → DriverOptions
    → H
    → Result Mount × H
unfolding mount_path mk_opts
mount mountpath n made call d h =
    if directory_made made
    then mount_with (mounted_as (mount_path mountpath d) d) call (mk_opts n d) h
    else (err (sentinel message), h)

-- `Unmount`.
unfoldable pub unmount :
    {H : Type 0} → Text → (Text → H → Option Errno × H) → DriverOptions → H → Option Errno × H
unfolding mount_path
unmount mountpath call d h = call (mount_path mountpath d) h

-- `internalName`: a name of slashes alone is refused.
abbrev only_slashes : Text → Bool
only_slashes [] = true
only_slashes (c ∷ s) = if c == 0x2f then only_slashes s else false

unfoldable pub internal_name : Text → Result Text
internal_name s = if only_slashes s then err (sentinel message) else ok s

abbrev pub mounts_request : GetMountsRequest
mounts_request = record { driver_name = codes "nfs"; fs_type = codes "nfs4"; kernel_driver = [] }

abbrev mount_named : MountInfo → Option Text → List Mount
mount_named host none = []
mount_named host (some name) =
    record {
      device = [];
      path = host.mount_point;
      dev_major = host.device_number.major;
      dev_minor = host.device_number.minor;
      volume = record {
        name = name;
        size = 0;
        params = some ((codes "mount", host.mount_source) ∷ []);
      };
    }
    ∷ []

-- The mounts of the host, under their paths from the mount path.
unfoldable pub mounts_below : Text → List MountInfo → List Mount
unfolding clean rel
mounts_below mountpath [] = []
mounts_below mountpath (host ∷ hosts) =
    mount_named host (rel (clean mountpath) (clean host.mount_point))
    ++ mounts_below mountpath hosts

abbrev found : Text → Result (List MountInfo) → Result (List Mount)
found mountpath (ok hosts) = ok (mounts_below mountpath hosts)
found mountpath (err e) = if contains is_dev_not_found e then ok [] else err e
found mountpath panic = panic

-- `Mounted`, of the contents of the two files of the kernel.
unfoldable pub mounted : Text → (device_info mount_info : Result Text) → Result (List Mount)
mounted mountpath device_info mount_info =
    found mountpath (get_mounts device_info mount_info mounts_request)
