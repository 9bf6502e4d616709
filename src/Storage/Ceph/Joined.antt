-- ===== src/Storage/Ceph/Joined.antt =====
-- The mounts of the host that `Mounted` joins with the mapped images.
use volplugin.Base.{
  ◌≡◌, ◌⊎◌, inl, inr, refl, sym, ap, ◌∙◌, List, [], ◌∷◌, ◌++◌, Text, text_eq, text_eq_sound,
  text_eq_refl, All, All-append, Bool-cases,
}
use volplugin.MountScan.{MountInfo}
use volplugin.Storage.Driver.{Mount}
use volplugin.Storage.Ceph.Mounts.{mount_of, mounts_of}

abbrev pub OneOf : {A : Type 0} → A → List A → Type 0
OneOf a [] = ⊥
OneOf a (x ∷ xs) = (a ≡ x) ⊎ OneOf a xs

-- A mount that comes from a mount of the host and a mapped image on the same device.
pub record IsJoined (hosts : List MountInfo) (rs : List Mount) (t : Mount) : Type 0 where
  pub host : MountInfo
  pub image : Mount
  pub on_host : OneOf host hosts
  pub mapped : OneOf image rs
  pub same_device : host.mount_source ≡ image.device
  pub device : t.device ≡ host.mount_source
  pub path : t.path ≡ host.mount_point
  pub dev_major : t.dev_major ≡ host.device_number.major
  pub dev_minor : t.dev_minor ≡ host.device_number.minor
  pub volume : t.volume ≡ image.volume

mount_of-All :
    (host : MountInfo) (hosts : List MountInfo) (all rs : List Mount)
    → OneOf host hosts
    → ((r : Mount) → OneOf r rs → OneOf r all)
    → All (IsJoined hosts all) (mount_of host rs)
mount_of-All host hosts all [] here among = tt
mount_of-All host hosts all (r ∷ rs) here among =
    elim (Bool-cases (text_eq host.mount_source r.device)) [
      | inl same ↦ rw same (
        record {
          host = host;
          image = r;
          on_host = here;
          mapped = among r (inl refl);
          same_device = text_eq_sound host.mount_source r.device same;
          device = refl;
          path = refl;
          dev_major = refl;
          dev_minor = refl;
          volume = refl;
        },
        tt,
      )
      | inr other ↦ rw other (mount_of-All host hosts all rs here (λ s o. among s (inr o)))
    ]

mounts_of-All :
    (hs hosts : List MountInfo) (rs : List Mount)
    → ((host : MountInfo) → OneOf host hs → OneOf host hosts)
    → All (IsJoined hosts rs) (mounts_of hs rs)
unfolding mounts_of
mounts_of-All [] hosts rs among = tt
mounts_of-All (host ∷ hs) hosts rs among =
    All-append (IsJoined hosts rs) (mount_of host rs) (mounts_of hs rs)
      (mount_of-All host hosts rs rs (among host (inl refl)) (λ r o. o))
      (mounts_of-All hs hosts rs (λ h o. among h (inr o)))

-- The list has a mount on a path.
abbrev pub OnPath : Text → List Mount → Type 0
OnPath path ts = (t : Mount) × OneOf t ts × (t.path ≡ path)

OneOf-left : (t : Mount) (xs ys : List Mount) → OneOf t xs → OneOf t (xs ++ ys)
OneOf-left t [] ys o = absurd o
OneOf-left t (x ∷ xs) ys (inl e) = inl e
OneOf-left t (x ∷ xs) ys (inr o) = inr (OneOf-left t xs ys o)

OneOf-right : (t : Mount) (xs ys : List Mount) → OneOf t ys → OneOf t (xs ++ ys)
OneOf-right t [] ys o = o
OneOf-right t (x ∷ xs) ys o = inr (OneOf-right t xs ys o)

mount_of-OnPath :
    (host : MountInfo) (image : Mount) (rs : List Mount)
    → OneOf image rs
    → host.mount_source ≡ image.device
    → OnPath host.mount_point (mount_of host rs)
mount_of-OnPath host image [] o e = absurd o
mount_of-OnPath host image (r ∷ rs) (inl s) e =
    rw (e, ap (λ x. x.device) s, text_eq_refl r.device) (_, inl refl, refl)
mount_of-OnPath host image (r ∷ rs) (inr o) e =
    elim (Bool-cases (text_eq host.mount_source r.device)) [
      | inl same ↦ rw same (_, inl refl, refl)
      | inr other ↦ rw other (mount_of-OnPath host image rs o e)
    ]

mounts_of-OnPath :
    (host : MountInfo) (image : Mount) (hosts : List MountInfo) (rs : List Mount)
    → OneOf host hosts
    → OneOf image rs
    → host.mount_source ≡ image.device
    → OnPath host.mount_point (mounts_of hosts rs)
unfolding mounts_of
mounts_of-OnPath host image [] rs i o s = absurd i
mounts_of-OnPath host image (h ∷ hosts) rs (inl e) o s =
    let (t, u, q) = mount_of-OnPath h image rs o (ap (λ x. x.mount_source) (sym e) ∙ s) in
    (t, OneOf-left t (mount_of h rs) (mounts_of hosts rs) u, q ∙ ap (λ x. x.mount_point) (sym e))
mounts_of-OnPath host image (h ∷ hosts) rs (inr i) o s =
    let (t, u, q) = mounts_of-OnPath host image hosts rs i o s in
    (t, OneOf-right t (mount_of h rs) (mounts_of hosts rs) u, q)

-- Every mount that is listed joins a mount of the host and a mapped image that have the same device,
-- and every mount of the host whose device is one of a mapped image is listed under its path.
mounts_of-AllJoined :
    (hosts : List MountInfo) (rs : List Mount)
    → All (IsJoined hosts rs) (mounts_of hosts rs)
      × ((host : MountInfo) (image : Mount)
          → OneOf host hosts
          → OneOf image rs
          → host.mount_source ≡ image.device
          → OnPath host.mount_point (mounts_of hosts rs))
mounts_of-AllJoined hosts rs = (
  mounts_of-All hosts hosts rs (λ h o. o),
  λ host image i o e. mounts_of-OnPath host image hosts rs i o e,
)
