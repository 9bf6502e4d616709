-- ===== src/Storage/Ceph/Machine.antt =====
-- What storage/backend/ceph asks of the host: commands that it runs, and calls of the kernel. The
-- driver's functions are actions on a host, whatever the host is.
use volplugin.Base.{
  ℕ, ◌==◌, Bool, false, Option, none, some, List, [], ◌∷◌, ◌++◌, Text, if◌then◌else◌,
}
use volplugin.Errors.{Result, ok, err, panic, Error, sentinel, message}
use volplugin.Config.Volume.{is_space}
use volplugin.Storage.Driver.{DriverOptions, index}

-- An image is named by `mkpool`, a device by its path.
pub data Command : Type 0 where
  rbd_create : (image : Text) (size : ℕ) → Command
  rbd_rm : (image : Text) → Command
  rbd_ls : (pool : Text) → Command
  rbd_map : (name pool : Text) → Command
  rbd_unmap : (device : Text) → Command
  rbd_showmapped : Command
  rbd_snap_purge : (image : Text) → Command
  rbd_snap_create : (image snap : Text) → Command
  rbd_snap_rm : (image snap : Text) → Command
  rbd_snap_ls : (image : Text) → Command
  rbd_snap_protect : (image snap : Text) → Command
  rbd_snap_unprotect : (image snap : Text) → Command
  rbd_clone : (image new snap : Text) → Command
  shell : (script : Text) → Command

-- `executor.ExecResult`, as far as the driver decides on it.
pub record ExecResult : Type 0 where
  pub exit_status : ℕ
  pub stdout : Text

-- The two results of `Run`: either may be nil.
abbrev pub Answer : Type 0
Answer = Option ExecResult × Option Error

-- The error numbers that the driver tells apart.
pub data Errno : Type 0 where
  enoent einval eexist eio ebusy : Errno
  errno : ℕ → Errno

-- An entry of `rbdMap`.
pub record Rbd : Type 0 where
  pub pool : Text
  pub name : Text
  pub device : Text

-- `none` is a nil error. A decoder answers `none` where `json.Unmarshal` fails.
pub record Machine : Type 1 where
  pub Host : Type 0
  pub run : Command → Host → Answer × Host
  pub mkdir_all : Text → Host → Option Errno × Host
  pub stat : Text → Host → Option ℕ
  pub mount : (device path type : Text) → Host → Option Errno × Host
  pub unmount : Text → Host → Option Errno × Host
  pub remove : Text → Host → Option Errno × Host
  pub devices : Host → Result Text
  pub mountinfo : Host → Result Text
  pub decode_names : Text → Option (List Text)
  pub decode_mapped : Text → Option (List Rbd)

-- `crashed` is a nil dereference or an index out of range; `running` is a loop that has no fuel left.
pub data Outcome {ℓ} (A : Type ℓ) : Type ℓ where
  done : A → Outcome A
  failed : Error → Outcome A
  crashed : Outcome A
  running : Outcome A

abbrev pub outcome {ℓ} : {A : Type ℓ} → Result A → Outcome A
outcome (ok a) = done a
outcome (err e) = failed e
outcome panic = crashed

abbrev pub fmt_error : {A : Type 0} → Outcome A
fmt_error = failed (sentinel message)

-- What an action on a host of the type `H` leads to, and the host that it leaves.
abbrev pub Action : Type 0 → Type 0 → Type 0
Action H A = H → Outcome A × H

abbrev pub give : {H A : Type 0} → Outcome A → Action H A
give o h = (o, h)

abbrev pub next : {H A B : Type 0} → (A → Action H B) → Outcome A × H → Outcome B × H
next f (done a, h) = f a h
next f (failed e, h) = (failed e, h)
next f (crashed, h) = (crashed, h)
next f (running, h) = (running, h)

infixl 5 ◌>>=◌ ◌>>◌
abbrev pub ◌>>=◌ : {H A B : Type 0} → Action H A → (A → Action H B) → Action H B
(m >>= f) h = next f (m h)

abbrev pub ◌>>◌ : {H A B : Type 0} → Action H A → Action H B → Action H B
m >> k = m >>= λ _. k

-- A call of the kernel or a command, with what the driver makes of its answer.
abbrev pub call : {H A B : Type 0} → (H → A × H) → (A → Action H B) → Action H B
call m f h = let (a, h') = m h in f a h'

abbrev pub mkpool : Text → Text → Text
mkpool pool volume = pool ++ 0x2f ∷ volume

abbrev pub pool_of : DriverOptions → Text
pool_of d = index d.volume.params (0x70 ∷ 0x6f ∷ 0x6f ∷ 0x6c ∷ [])

-- `strings.TrimSpace`, for ASCII text.
abbrev pub trim_left : Text → Text
trim_left [] = []
trim_left (c ∷ s) = if is_space c then trim_left s else c ∷ s

abbrev drop_space : ℕ → Text → Text
drop_space c [] = if is_space c then [] else c ∷ []
drop_space c (d ∷ s) = c ∷ d ∷ s

abbrev trim_right : Text → Text
trim_right [] = []
trim_right (c ∷ s) = drop_space c (trim_right s)

unfoldable pub trim_space : Text → Text
trim_space s = trim_right (trim_left s)

-- A command that ran and exited with zero, and one that exited with another status or has an error.
abbrev pub succeeded : Answer → Bool
succeeded (some r, none) = r.exit_status == 0
succeeded _ = false
