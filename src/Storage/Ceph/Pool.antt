-- ===== src/Storage/Ceph/Pool.antt =====
-- What the volumes of a pool are to the callers of the ceph driver, a set of names, and the documented
-- behaviour of `rbd` on the images of a pool that can be reached.
use volplugin.Base.{
  ℕ, suc, ◌≡◌, ◌⊎◌, Bool, true, false, ◌||◌, none, some, List, [], ◌∷◌, ◌++◌, Text, codes, text_eq,
  Lacks, All, update, if◌then◌else◌,
}
use volplugin.Errors.{Error, plain, sentinel, message, volume_exist}
use volplugin.Storage.Driver.{DriverOptions}
use volplugin.Storage.Ceph.Names.{slash, dot}
use volplugin.Storage.Ceph.Machine.{
  Machine, Command, Answer, Outcome, done, failed, mkpool, trim_space,
}
use volplugin.Storage.Ceph.Images.{create, destroy, exists}

pub data Op : Type 0 where
  make : (name : Text) (size : ℕ) → Op
  drop : (name : Text) → Op
  ask : (name : Text) → Op

pub data Reply : Type 0 where
  change : Outcome (Unit {0}) → Reply
  present : Outcome Bool → Reply

-- The set of volumes, and what it answers to an operation: the image of a volume may be blocked, and then it
-- cannot be destroyed.
abbrev pub Names : Type 0
Names = Text → Bool

abbrev pub spec_op : Bool → Op → Names → Reply × Names
spec_op blocked (make name size) s =
    if s name
    then (change (failed (plain volume_exist)), s)
    else (change (done tt), update s name true)
spec_op blocked (drop name) s =
    if s name
    then (if blocked
        then (change (failed (sentinel message)), s)
        else (change (done tt), update s name false))
    else (change (failed (sentinel message)), s)
spec_op blocked (ask name) s = (present (done (s name)), s)

abbrev pub then_reply : {S : Type 0} → Reply → List Reply × S → List Reply × S
then_reply r p = (r ∷ p.0, p.1)

-- The answers to a sequence of operations, of which each meets a blocked image or not.
abbrev pub replay : List (Op × Bool) → Names → List Reply × Names
replay [] s = ([], s)
replay ((op, blocked) ∷ ops) s =
    then_reply (spec_op blocked op s).0 (replay ops (spec_op blocked op s).1)

abbrev pub options : (pool name : Text) → ℕ → DriverOptions
options pool name size = record {
  source = [];
  volume = record { name = name; size = size; params = some ((codes "pool", pool) ∷ []) };
  fs_options = record { type = []; create_command = [] };
  timeout = 1;
}

module _ (m : Machine) (pool : Text) where
  open m use {Host}

  abbrev changed : Outcome (Unit {0}) × Host → Reply × Host
  changed (o, h) = (change o, h)

  abbrev told : Outcome Bool × Host → Reply × Host
  told (o, h) = (present o, h)

  -- The driver's operations: one turn of `List` is enough where the output can be decoded.
  abbrev pub driver_op : Op → Host → Reply × Host
  driver_op (make name size) h = changed (create m (options pool name size) h)
  driver_op (drop name) h = changed (destroy m (options pool name 0) h)
  driver_op (ask name) h = told (exists m 1 (options pool name 0) h)

  abbrev pub run_ops : List Op → Host → List Reply × Host
  run_ops [] h = ([], h)
  run_ops (op ∷ ops) h = then_reply (driver_op op h).0 (run_ops ops (driver_op op h).1)

abbrev pub name_of : Op → Text
name_of (make name size) = name
name_of (drop name) = name
name_of (ask name) = name

-- A volume's name: two parts around a slash, each without a slash and the first without a dot, with no
-- blanks at the ends of the image's name.
abbrev pub IsVolumeName : Text → Type 0
IsVolumeName name =
    (policy : Text) × (volume : Text) × (name ≡ policy ++ slash ∷ volume)
    × Lacks dot policy
    × Lacks slash policy
    × Lacks slash volume
    × (trim_space (policy ++ dot ∷ volume) ≡ policy ++ dot ∷ volume)

abbrev pub any_text : Text → List Text → Bool
any_text t [] = false
any_text t (u ∷ us) = text_eq t u || any_text t us

-- An image's name has no slash, and no blank at its ends.
abbrev pub IsImageName : Text → Type 0
IsImageName n = Lacks slash n × (trim_space n ≡ n)

abbrev pub ok_result : Text → Answer
ok_result out = (some (record { exit_status = 0; stdout = out }), none)

abbrev pub IsOk : Answer → Type 0
IsOk a = (out : Text) × (a ≡ ok_result out)

-- A run with a status other than zero has an error.
abbrev pub IsFailure : Answer → Type 0
IsFailure a =
    (n : ℕ) × (out : Text) × (e : Error) × (a
      ≡ (some (record { exit_status = suc n; stdout = out }), some e))

-- `rbd` on a pool that can be reached: what there is, and what the commands answer and change. An image is
-- blocked while it is watched, or one of its snapshots is protected: `rm` then fails, and `snap purge` can fail;
-- both leave the image where it is. Of an image that is not blocked `snap purge` removes all snapshots,
-- after which `rm` removes it.
pub record Images (m : Machine) (pool : Text) : Type 0 where
  pub has : m.Host → Text → Bool
  pub blocked : m.Host → Text → Bool
  pub create_fresh :
      (h : m.Host) (n : Text) (size : ℕ)
      → IsImageName n
      → has h n ≡ false
      → let (a, h') = m.run (Command.rbd_create (mkpool pool n) size) h in
        ((out : Text) × (a ≡ ok_result out)) × ((k : Text) → has h' k ≡ update (has h) n true k)
  pub create_taken :
      (h : m.Host) (n : Text) (size : ℕ)
      → has h n ≡ true
      → let (a, h') = m.run (Command.rbd_create (mkpool pool n) size) h in
        ((out : Text) × (e : Error) × (a
            ≡ (some (record { exit_status = 17; stdout = out }), some e)))
        × ((k : Text) → has h' k ≡ has h k)
  pub purge_free :
      (h : m.Host) (n : Text)
      → has h n ≡ true
      → blocked h n ≡ false
      → let (a, h') = m.run (Command.rbd_snap_purge (mkpool pool n)) h in
        IsOk a × ((k : Text) → has h' k ≡ has h k)
  pub purge_blocked :
      (h : m.Host) (n : Text)
      → has h n ≡ true
      → blocked h n ≡ true
      → let (a, h') = m.run (Command.rbd_snap_purge (mkpool pool n)) h in
        (IsOk a ⊎ IsFailure a) × ((k : Text) → has h' k ≡ has h k) × (blocked h' n ≡ true)
  pub purge_missing :
      (h : m.Host) (n : Text)
      → has h n ≡ false
      → let (a, h') = m.run (Command.rbd_snap_purge (mkpool pool n)) h in
        ((out : Text) × (e : Error) × (a
            ≡ (some (record { exit_status = 2; stdout = out }), some e)))
        × ((k : Text) → has h' k ≡ has h k)
  pub rm_purged :
      (h : m.Host) (n : Text)
      → has h n ≡ true
      → blocked h n ≡ false
      → let purged = (m.run (Command.rbd_snap_purge (mkpool pool n)) h).1 in
        let (a, h') = m.run (Command.rbd_rm (mkpool pool n)) purged in
        IsOk a × ((k : Text) → has h' k ≡ update (has h) n false k)
  pub rm_blocked :
      (h : m.Host) (n : Text)
      → has h n ≡ true
      → blocked h n ≡ true
      → let (a, h') = m.run (Command.rbd_rm (mkpool pool n)) h in
        IsFailure a × ((k : Text) → has h' k ≡ has h k)
  pub ls_names :
      (h : m.Host)
      → let (a, h') = m.run (Command.rbd_ls pool) h in
        ((out : Text) × (names : List Text) × (a ≡ ok_result out)
          × (m.decode_names out ≡ some names)
          × All IsImageName names
          × ((k : Text) → any_text k names ≡ has h k))
        × ((k : Text) → has h' k ≡ has h k)
