-- ===== src/Storage/Nfs/Attempts.antt =====
-- The attempts of a mount in storage/backend/nfs/nfs.go: an address of the client that the options give, and the
-- loop at the label `retry`.
use volplugin.Base.{
  ℕ, zero, suc, ◌+◌, ◌≤◌, ◌≡◌, refl, false, Option, none, some, [], ◌∷◌, Text, codes, text_eq,
  text_eq_iff, arith,
}
use volplugin.Errors.{Result, ok, err, panic, ◌>>=◌, sentinel, message}
use volplugin.Storage.Driver.{DriverOptions, Mount, index}
use volplugin.Storage.Ceph.Machine.{Errno, eio, ebusy}
use volplugin.Storage.Nfs.{
  Network, read_netlink, mk_opts, opts_at, opts_of, opts_from, server_of, resolved, or_local, mount,
  mount_loop, mount_with, MountCall, mounted_as, mount_path, attempted,
}
use volplugin.Storage.Nfs.Options.{OptionMap, find_option, put_option, validate_convert_options}

-- Another option's value leaves an option as it is.
find_option-put_option :
    (k j : Text)
    → (v : Text) → text_eq j k ≡ false
    → (m : OptionMap) → find_option k (put_option j v m) ≡ find_option k m
find_option-put_option k j v other [] = ground (arith)
find_option-put_option k j v other ((i, w) ∷ m) =
    ground (arith, text_eq_iff i j, find_option-put_option k j v other m)

-- With an address of the client among the options, the reading of the links never succeeds.
given_refused :
    (n : Network)
    → (host v : Text) → (m : OptionMap) → find_option (codes "clientaddr") m ≡ some v
    → read_netlink n (put_option (codes "addr") host m) host ≡ err (sentinel message)
unfolding read_netlink
given_refused n host v m given =
    ground (arith, find_option-put_option (codes "clientaddr") (codes "addr") host refl m)

bind_never :
    {A B : Type 0}
    → (r : Result A) → (f : A → Result B) → ((a : A) (b : B) → ¬ (f a ≡ ok b))
    → (b : B) → ¬ ((r >>= f) ≡ ok b)
bind_never (ok a) f never b h = never a b h
bind_never (err e) f never b h = cc
bind_never panic f never b h = cc

opts_from_never :
    (n : Network)
    → (source v : Text) → (m : OptionMap) → find_option (codes "clientaddr") m ≡ some v
    → (opts : Text) → ¬ (opts_from n source m ≡ ok opts)
opts_from_never n source v m given = bind_never (server_of source m) (opts_of n m) (λ named.
    bind_never (resolved n (or_local named)) (opts_at n m)
      (λ host opts h. ground (arith, given_refused n host v m given)))

mk_opts_given :
    (n : Network)
    → (d : DriverOptions) → (m : OptionMap) → (v : Text)
    → validate_convert_options (index d.volume.params (codes "options")) ≡ ok m
    → find_option (codes "clientaddr") m ≡ some v
    → (opts : Text) → ¬ (mk_opts n d ≡ ok opts)
unfolding mk_opts
mk_opts_given n d m v valid given opts made =
    opts_from_never n d.source v m given opts (rw (mk_opts, valid) at made)

mount_with_never :
    {H : Type 0}
    → (t : Mount) → (call : MountCall H) → (r : Result Text) → ((opts : Text) → ¬ (r ≡ ok opts))
    → (h : H) → (t' : Mount) → ¬ ((mount_with t call r h).0 ≡ ok t')
mount_with_never t call (ok opts) never h t' e = never opts refl
mount_with_never t call (err x) never h t' e = cc
mount_with_never t call panic never h t' e = cc

-- With an address of the client among the options of a volume, no mount of it succeeds, whatever the host and the
-- network answer.
pub mount_given :
    {H : Type 0}
    → (mountpath : Text) → (n : Network) → (made : Option Errno) → (call : MountCall H)
    → (d : DriverOptions) → (h : H) → (m : OptionMap) → (v : Text)
    → validate_convert_options (index d.volume.params (codes "options")) ≡ ok m
    → find_option (codes "clientaddr") m ≡ some v
    → (t : Mount) → ¬ ((mount mountpath n made call d h).0 ≡ ok t)
unfolding mount
mount_given mountpath n made call d h m v valid given t = ground (
  arith,
  mount_with_never (mounted_as (mount_path mountpath d) d) call (mk_opts n d)
      (mk_opts_given n d m v valid given) h t,
)

module _ {H : Type 0} (count : H → ℕ) where
  attempted_bounded :
      (k c : ℕ)
      → (t : Mount) → (again : H → Result Mount × H) → ((h : H) → count (again h).1 ≤ k + count h)
      → (r : Option Errno × H) → count r.1 ≤ suc c
      → count (attempted t again r).1 ≤ suc k + c
  attempted_bounded k c t again fewer (none, h) one = omega arith
  attempted_bounded k c t again fewer (some ebusy, h) one = omega arith
  attempted_bounded k c t again fewer (some eio, h) one = ground (arith, fewer h)
  attempted_bounded k c t again fewer (some e, h) one = omega arith

  loop_bounded :
      (n : ℕ)
      → (t : Mount) → (call : H → Option Errno × H) → ((h : H) → count (call h).1 ≤ suc (count h))
      → (h : H) → count (mount_loop n t call h).1 ≤ n + count h
  unfolding mount_loop
  loop_bounded zero t call one h = omega arith
  loop_bounded (suc n) t call one h =
      attempted_bounded n (count h) t (mount_loop n t call) (loop_bounded n t call one) (call h)
        (one h)

  mount_with_bounded :
      (t : Mount)
      → (call : MountCall H)
      → ((source path opts : Text) (h : H) → count (call source path opts h).1 ≤ suc (count h))
      → (r : Result Text) → (h : H) → count (mount_with t call r h).1 ≤ 3 + count h
  mount_with_bounded t call one (ok opts) h =
      loop_bounded 3 t (call t.device t.path opts) (one t.device t.path opts) h
  mount_with_bounded t call one (err e) h = omega arith
  mount_with_bounded t call one panic h = omega arith

  -- A mount calls the kernel at most three times: whatever a call adds at most one to is at most three more after
  -- it.
  pub mount_bounded :
      (mountpath : Text)
      → (n : Network) → (made : Option Errno) → (call : MountCall H) → (d : DriverOptions) → (h : H)
      → ((source path opts : Text) (h : H) → count (call source path opts h).1 ≤ suc (count h))
      → count (mount mountpath n made call d h).1 ≤ 3 + count h
  unfolding mount
  mount_bounded mountpath n made call d h one =
      ground
        (arith, mount_with_bounded (mounted_as (mount_path mountpath d) d) call one (mk_opts n d) h)
