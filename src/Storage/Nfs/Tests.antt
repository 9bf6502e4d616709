-- ===== src/Storage/Nfs/Tests.antt =====
-- Mounts of the nfs driver on a host that counts the calls of the kernel, and its options.
use volplugin.Base.{
  ℕ, suc, ◌≤◌, ◌≡◌, refl, true, none, some, [], ◌∷◌, Text, codes, split, arith, cut, contains_byte,
}
use volplugin.Errors.{ok, err, panic, plain, sentinel, message}
use volplugin.Storage.Driver.{DriverOptions}
use volplugin.Storage.Ceph.Machine.{eio, ebusy, trim_space}
use volplugin.Storage.Ceph.Paths.{join_paths, clean}
use volplugin.Storage.Nfs.{
  Network, mount, mk_opts, mount_path, mount_loop, MountCall, mounted_as, read_netlink,
  internal_name,
}
use volplugin.Storage.Nfs.Options.{validate_convert_options, map_options_to_string, OptionMap}
use volplugin.Storage.Nfs.Attempts.{mount_given, mount_bounded}

abbrev server : Text
server = codes "10.0.0.1"

-- Each address is its own text, and one device has a network that holds every address.
abbrev network : Network
network = record {
  parse_ip = λ s. some s;
  lookup_host = λ s. err (plain message);
  links = ok (record { type = codes "device"; networks = ok ((λ s. true) ∷ []) } ∷ []);
}

abbrev volume_with : Text → DriverOptions
volume_with opts = record {
  source = codes "10.0.0.1:/export";
  volume = record { name = codes "web"; size = 0; params = some ((codes "options", opts) ∷ []) };
  fs_options = record { type = codes "nfs"; create_command = [] };
  timeout = 1;
}

abbrev failing : MountCall ℕ
failing source path opts n = (some eio, suc n)

abbrev given : OptionMap
given = (codes "clientaddr", codes "10.0.0.2") ∷ (codes "rw", []) ∷ []

given_valid : validate_convert_options (codes "clientaddr=10.0.0.2, rw") ≡ ok given
unfolding validate_convert_options split trim_space
given_valid = refl

mount_given_example : ¬ (
    (mount (codes "/mnt") network none failing (volume_with (codes "clientaddr=10.0.0.2, rw")) 0).0
    ≡ ok (mounted_as (codes "/mnt/web") (volume_with (codes "clientaddr=10.0.0.2, rw"))))
mount_given_example =
    mount_given (codes "/mnt") network none failing (volume_with (codes "clientaddr=10.0.0.2, rw"))
      0 given (codes "10.0.0.2") given_valid refl
      (mounted_as (codes "/mnt/web") (volume_with (codes "clientaddr=10.0.0.2, rw")))

mount_bounded_example :
    (mount (codes "/mnt") network none failing (volume_with (codes "rw")) 0).1 ≤ 3
mount_bounded_example =
    mount_bounded (λ n. n) (codes "/mnt") network none failing (volume_with (codes "rw")) 0
      (λ source path opts n. omega arith)

-- Without it the options get the server and the address of the client.
made_opts :
    mk_opts network (volume_with (codes "rw"))
    ≡ ok (codes "nfsvers=4,rw,addr=10.0.0.1,clientaddr=10.0.0.1")
unfolding mk_opts read_netlink map_options_to_string validate_convert_options split trim_space cut
    contains_byte
made_opts = refl

three_calls :
    mount (codes "/mnt") network none failing (volume_with (codes "rw")) 0
    ≡ (err (sentinel message), 3)
unfolding mount mount_loop mk_opts read_netlink map_options_to_string validate_convert_options split
    trim_space cut contains_byte
three_calls = refl

-- A mount point that is busy counts as mounted.
busy_mounted :
    mount (codes "/mnt") network none (λ s p o n. (some ebusy, suc n)) (volume_with (codes "rw")) 0
    ≡ (ok (mounted_as (codes "/mnt/web") (volume_with (codes "rw"))), 1)
unfolding mount mount_loop mk_opts mount_path join_paths clean read_netlink map_options_to_string
    validate_convert_options split trim_space cut contains_byte
busy_mounted = refl

no_entries : map_options_to_string [] ≡ panic
unfolding map_options_to_string
no_entries = refl

dangling : validate_convert_options (codes "rw,") ≡ err (sentinel message)
unfolding validate_convert_options split trim_space
dangling = refl

slashes : internal_name (codes "//") ≡ err (sentinel message)
unfolding internal_name
slashes = refl
