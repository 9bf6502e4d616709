-- ===== src/Storage/Ceph/Refine.antt =====
-- The driver's operations on the images of a pool, against the set of volumes.
use volplugin.Base.{◌≡◌, Bool, List, [], ◌∷◌, ◌++◌, Text, Lacks}
use volplugin.Errors.{Result, ok, err, panic}
use volplugin.Storage.Ceph.Names.{slash, dot, internal_name}
use volplugin.Storage.Ceph.Machine.{Machine, Command, mkpool}
use volplugin.Storage.Ceph.Pool.{Op, Names, driver_op, name_of, Images}

module _ (m : Machine) (pool : Text) (store : Images m pool) where
  open m use {Host}
  open store use {has, blocked}

  -- The host holds the images of the volumes in the set.
  pub record Represents (h : Host) (s : Names) : Type 0 where
    pub agree :
        (p v : Text)
        → Lacks dot p
        → Lacks slash p
        → Lacks slash v
        → s (p ++ slash ∷ v) ≡ has h (p ++ dot ∷ v)

  -- The same answers, and images that agree.
  abbrev pub Agrees : {R : Type 0} → R × Host → R × Names → Type 0
  Agrees (r, h) (r', s) = (r ≡ r') × Represents h s

  abbrev image_of : Result Text → Text
  image_of (ok n) = n
  image_of (err e) = []
  image_of panic = []

  -- Whether an operation meets a blocked image.
  abbrev pub meets_blocked : Op → Host → Bool
  meets_blocked op h = blocked h (image_of (internal_name (name_of op)))

  -- The operations, each with what it meets on the host that those before it leave.
  abbrev pub with_blocked : List Op → Host → List (Op × Bool)
  with_blocked [] h = []
  with_blocked (op ∷ ops) h = (op, meets_blocked op h) ∷ with_blocked ops (driver_op m pool op h).1

  module _ (p v : Text) (d : Lacks dot p) (k : Lacks slash p) (l : Lacks slash v) where
    abbrev purged : Host → Host
    purged h = (m.run (Command.rbd_snap_purge (mkpool pool (p ++ dot ∷ v))) h).1
