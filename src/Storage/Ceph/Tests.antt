-- ===== src/Storage/Ceph/Tests.antt =====
-- The image of a volume.
use volplugin.Base.{Text, ℕ, ◌≤◌, some, ◌∷◌, Lacks, arith, ◌≡◌, refl, codes, cut, contains_byte}
use volplugin.Errors.{ok}
use volplugin.Storage.Ceph.Template.{
  percent, template_from, template_fs_cmd, template_fs_cmd-expand,
}
use volplugin.Storage.Ceph.Names.{internal_name}

named : internal_name (codes "policy1/web") ≡ ok (codes "policy1.web")
unfolding internal_name cut contains_byte
named = refl

-- `mkfs.ext4 -m0 %` for an image, and a command with a doubled sign.
substituted :
    template_fs_cmd 40 (codes "mkfs.ext4 -m0 %") (codes "/dev/rbd0")
    ≡ some (codes "mkfs.ext4 -m0 /dev/rbd0")
unfolding template_fs_cmd template_from
substituted = refl

kept_double : template_fs_cmd 40 (codes "a%%b") (codes "/dev/rbd0") ≡ some (codes "a%%b")
unfolding template_fs_cmd template_from
kept_double = refl

abbrev rest_of_device : Text
rest_of_device = codes "dev/rbd0"

device-Lacks : Lacks percent (0x2f ∷ rest_of_device)
device-Lacks = ground arith

template_fs_cmd-expand_example :
    (n : ℕ) × ((k : ℕ)
      → n ≤ k
      → template_fs_cmd k (codes "mkfs.ext4 -m0 %") (codes "/dev/rbd0")
        ≡ some (codes "mkfs.ext4 -m0 /dev/rbd0"))
template_fs_cmd-expand_example =
    template_fs_cmd-expand 0x2f rest_of_device device-Lacks (codes "mkfs.ext4 -m0 %")
