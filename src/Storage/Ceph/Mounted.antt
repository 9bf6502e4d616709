-- ===== src/Storage/Ceph/Mounted.antt =====
-- What a mount that `Mount` returns says of its device and its directory.
use volplugin.Base.{ℕ, ◌≡◌, ◌<◌, ◌*◌, ◌+◌, refl, Option, none, some, Text, arith}
use volplugin.Errors.{Result, ok, err, panic}
use volplugin.Storage.Driver.{DriverOptions, Mount}
use volplugin.Storage.Ceph.Names.{internal_name}
use volplugin.Storage.Ceph.Machine.{
  Machine, Errno, Outcome, done, failed, crashed, running, outcome, Action, give, next, pool_of,
  ◌>>=◌, ◌>>◌,
}
use volplugin.Storage.Ceph.Paths.{
  mk_mount_path, path_text, CleanPath, clean, mk_mount_path-IsInside, IsInside,
}
use volplugin.Storage.Ceph.Mapping.{map_image}
use volplugin.Storage.Ceph.Mounts.{mount, mount_mapped, make_directory, mount_device, mounted_as}

-- What an action that ends well has gone through.
pub next_done :
    {H A B : Type 0} (f : A → Action H B) (p : Outcome A × H) (b : B) (h : H)
    → next f p ≡ (done b, h)
    → (a : A) × (g : H) × (p ≡ (done a, g)) × (f a g ≡ (done b, h))
next_done f (done a, g) b h e = (a, g, refl, e)
next_done f (failed x, g) b h e = cc
next_done f (crashed, g) b h e = cc
next_done f (running, g) b h e = cc

pub outcome_done :
    {H A : Type 0} (r : Result A) (h g : H) (a : A)
    → give (outcome r) h ≡ (done a, g)
    → (r ≡ ok a) × (g ≡ h)
outcome_done (ok x) h g a e = (ground (arith, e), ground (arith, e))
outcome_done (err x) h g a e = cc
outcome_done panic h g a e = cc

module _ (m : Machine) (mountpath : Text) where
  open m use {Host}

  -- The numbers of the device are those of its node: the last eight bits, and the others.
  pub record IsDescribed (d : DriverOptions) (t : Mount) : Type 0 where
    pub host : Host
    pub rdev : ℕ
    pub node : m.stat t.device host ≡ some rdev
    pub whole : t.dev_major * 256 + t.dev_minor ≡ rdev
    pub byte : t.dev_minor < 256
    pub volume : t.volume ≡ d.volume
    pub path : CleanPath
    pub text : t.path ≡ path_text path
    pub inside : IsInside (clean mountpath) path

  mounted_as-IsDescribed :
      (d : DriverOptions) (device : Text) (p : CleanPath) (rdev : ℕ) (a : Option Errno)
      (g h h' : Host) (t : Mount)
      → m.stat device g ≡ some rdev
      → IsInside (clean mountpath) p
      → mounted_as m mountpath d device (path_text p) rdev a h ≡ (done t, h')
      → IsDescribed d t
  mounted_as-IsDescribed d device p rdev (some e) g h h' t s i u = cc
  mounted_as-IsDescribed d device p rdev none g h h' t s i u = rw (done_mount _ t h h' u) (record {
    host = g;
    rdev = rdev;
    node = s;
    whole = omega arith;
    byte = omega arith;
    volume = refl;
    path = p;
    text = refl;
    inside = i;
  })
    where
      done_mount : (x y : Mount) (h h' : Host) → give (done x) h ≡ (done y, h') → y ≡ x
      done_mount x y h h' e = ground (arith, e)

  device-IsDescribed :
      (d : DriverOptions) (device : Text) (p : CleanPath) (node : Option ℕ) (h h' : Host)
      (t : Mount)
      → m.stat device h ≡ node
      → IsInside (clean mountpath) p
      → mount_device m mountpath d (path_text p) device h ≡ (done t, h')
      → IsDescribed d t
  device-IsDescribed d device p none h h' t s i u = cc (rw (s, mount_device) at u)
  device-IsDescribed d device p (some rdev) h h' t s i u =
      let (a, g) = m.mount device (path_text p) d.fs_options.type h in
      mounted_as-IsDescribed d device p rdev a h g h' t s i (rw (s, mount_device) at u)

  -- A mount that succeeds is described by the node of its device, whose number it splits into the last
  -- eight bits and the rest, has the volume that was asked for, and is on a path inside the driver's mount path.
  pub mount-IsDescribed :
      (fuel : ℕ) (d : DriverOptions) (h h' : Host) (t : Mount)
      → mount m mountpath fuel d h ≡ (done t, h')
      → IsDescribed d t
  unfolding mount
  mount-IsDescribed fuel d h h' t u =
      let (name, h1, e1, u1) =
        next_done (λ name. on_path (mk_mount_path mountpath (pool_of d) name))
          (give (outcome (internal_name d.volume.name)) h) t h' u in
      let (p, h2, e2, u2) =
        next_done (λ p. mount_mapped m mountpath fuel d (path_text p))
          (give (outcome (mk_mount_path mountpath (pool_of d) name)) h1) t h' u1 in
      let (device, h3, e3, u3) =
        next_done (λ device. directories p >> mount_device m mountpath d (path_text p) device)
          (map_image m fuel d h2) t h' u2 in
      let (_, h4, e4, u4) =
        next_done (λ _. mount_device m mountpath d (path_text p) device) (directories p h3) t h'
          u3 in
      let (jailed, _) = outcome_done (mk_mount_path mountpath (pool_of d) name) h1 h2 p e2 in
      device-IsDescribed d device p (m.stat device h4) h4 h' t refl
        (mk_mount_path-IsInside mountpath (pool_of d) name p jailed) u4
    where
      directories : CleanPath → Action Host (Unit {0})
      directories p =
          make_directory m mountpath mountpath >> make_directory m mountpath (path_text p)

      on_path : Result CleanPath → Action Host Mount
      on_path r = give (outcome r) >>= λ p. mount_mapped m mountpath fuel d (path_text p)
