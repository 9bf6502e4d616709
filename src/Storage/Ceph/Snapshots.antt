-- ===== src/Storage/Ceph/Snapshots.antt =====
-- `CreateSnapshot`, `RemoveSnapshot`, `ListSnapshots`, `CopySnapshot` and `cleanupCopy` of
-- storage/backend/ceph/ceph.go.
use volplugin.Base.{
  ℕ, ◌==◌, Bool, true, false, ◌||◌, Option, none, some, List, [], ◌∷◌, ◌++◌, Text, codes,
  cons_first, split, if◌then◌else◌,
}
use volplugin.Errors.{
  Error, Fault, errored, plain, contains, message, exists, snapshot_protect, snapshot_copy,
}
use volplugin.Storage.Driver.{DriverOptions}
use volplugin.Storage.Ceph.Names.{internal_name}
use volplugin.Storage.Ceph.Machine.{
  Machine, Command, ExecResult, Answer, Outcome, done, failed, crashed, running, outcome, fmt_error,
  Action, give, call, ◌>>=◌, ◌>>◌, mkpool, pool_of,
}
use volplugin.Storage.Ceph.Images.{list, any_named}

-- `strings.Replace(s, " ", "-", -1)`.
abbrev pub dashed : Text → Text
dashed [] = []
dashed (c ∷ s) = (if c == 0x20 then 0x2d else c) ∷ dashed s

-- The class `\s` of package regexp.
abbrev pub is_blank_byte : ℕ → Bool
is_blank_byte c = c == 0x20 || c == 0x09 || c == 0x0a || c == 0x0c || c == 0x0d

-- `spaceSplitRegex.Split(s, -1)`, with whether a separator has just begun: separators at the ends leave
-- empty parts.
abbrev pub split_blanks : Bool → Text → List Text
split_blanks b [] = [] ∷ []
split_blanks false (c ∷ s) =
    let after = split_blanks true s in
    let inside = split_blanks false s in if is_blank_byte c then [] ∷ after else cons_first c inside
split_blanks true (c ∷ s) =
    let after = split_blanks true s in
    let inside = split_blanks false s in if is_blank_byte c then after else cons_first c inside

-- What a line adds to the names: its third part.
abbrev pub third : List Text → List Text → List Text
third (a ∷ b ∷ name ∷ parts) rest = name ∷ rest
third _ rest = rest

abbrev pub names_of_lines : List Text → List Text
names_of_lines [] = []
names_of_lines (line ∷ lines) = third (split_blanks false line) (names_of_lines lines)

abbrev past_first : List Text → List Text
past_first [] = []
past_first (line ∷ lines) = lines

-- The names in an output of `rbd snap ls`: the first line is its title.
unfoldable pub snapshot_names : Text → List Text
snapshot_names stdout = names_of_lines (past_first (split 0x0a stdout))

-- The error of the run, and then its status.
abbrev pub ran : {H A : Type 0} → (ExecResult → Outcome A) → Answer → Action H A
ran k (r, some e) = give (failed e)
ran k (none, none) = give crashed
ran k (some r, none) = if r.exit_status == 0 then give (k r) else give fmt_error

-- The volumes that a listing returned: its error is not looked at.
abbrev or_none : {H A : Type 0} → Outcome (List A) × H → Outcome (List A) × H
or_none (failed e, h) = (done [], h)
or_none (done vs, h) = (done vs, h)
or_none (crashed, h) = (crashed, h)
or_none (running, h) = (running, h)

abbrev pub is_snapshot_copy : Fault → Bool
is_snapshot_copy snapshot_copy = true
is_snapshot_copy _ = false

abbrev pub is_snapshot_protect : Fault → Bool
is_snapshot_protect snapshot_protect = true
is_snapshot_protect _ = false

-- `err.(*errored.Error)`, or a new one with the error's text.
abbrev pub as_errored : Error → List Fault
as_errored (errored fs) = fs
as_errored (plain f) = message ∷ []

module _ (m : Machine) where
  open m use {Host}

  -- `CreateSnapshot`.
  unfoldable pub create_snapshot : Text → DriverOptions → Action Host (Unit {0})
  create_snapshot snap d = do
    int_name ← give (outcome (internal_name d.volume.name))
    call (m.run (Command.rbd_snap_create (mkpool (pool_of d) int_name) (dashed snap)))
        (ran (λ r. done tt))

  -- `RemoveSnapshot`.
  unfoldable pub remove_snapshot : Text → DriverOptions → Action Host (Unit {0})
  remove_snapshot snap d = do
    int_name ← give (outcome (internal_name d.volume.name))
    call (m.run (Command.rbd_snap_rm (mkpool (pool_of d) int_name) snap)) (ran (λ r. done tt))

  -- `ListSnapshots`.
  unfoldable pub list_snapshots : DriverOptions → Action Host (List Text)
  list_snapshots d = do
    int_name ← give (outcome (internal_name d.volume.name))
    call (m.run (Command.rbd_snap_ls (mkpool (pool_of d) int_name)))
        (ran (λ r. done (snapshot_names r.stdout)))

  -- A failure is only logged, and ends the cleaning up.
  abbrev pub cleaned : Action Host (Unit {0}) → Answer → Action Host (Unit {0})
  cleaned k (none, e) = give crashed
  cleaned k (some r, some e) = give (done tt)
  cleaned k (some r, none) = if r.exit_status == 0 then k else give (done tt)

  abbrev unprotect : Text → Text → Error → Action Host (Unit {0})
  unprotect orig snap e =
      if contains is_snapshot_protect e
      then call (m.run (Command.rbd_snap_unprotect orig snap)) (cleaned (give (done tt)))
      else give (done tt)

  -- `cleanupCopy`, with what is on the channel, and images for the two names.
  unfoldable pub cleanup_copy : (orig new snap : Text) → Option Error → Action Host (Unit {0})
  cleanup_copy orig new snap none = give (done tt)
  cleanup_copy orig new snap (some e) =
      if contains is_snapshot_copy e
      then call (m.run (Command.rbd_rm new)) (cleaned (unprotect orig snap e))
      else unprotect orig snap e

  -- The deferred cleaning up runs also when the function has an error.
  abbrev deferred : Action Host (Unit {0}) → Outcome (Unit {0}) → Action Host (Unit {0})
  deferred cleanup o = cleanup >> give o

  abbrev returned : Option Error → Outcome (Unit {0})
  returned none = done tt
  returned (some e) = failed e

  -- What is sent on the channel, and what is returned, by what `rbd clone` answers.
  abbrev pub cloned : (orig new snap : Text) → Answer → Action Host (Unit {0})
  cloned orig new snap (none, e) = give crashed
  cloned orig new snap (some r, e) =
      if r.exit_status == 0
      then elim e [
        | none ↦ give (done tt)
        | some x ↦
            deferred
              (cleanup_copy orig new snap (some (errored (as_errored x ++ snapshot_copy ∷ []))))
              (failed (errored (as_errored x)))
      ]
      else if r.exit_status == 17
      then give (returned e)
      else deferred
          (cleanup_copy orig new snap
            (some (errored (message ∷ snapshot_copy ∷ snapshot_protect ∷ []))))
          (returned e)

  -- The status EBUSY, 16, is a snapshot that is protected already.
  abbrev pub protected : Action Host (Unit {0}) → Answer → Action Host (Unit {0})
  protected k (r, none) = k
  protected k (none, some e) = give crashed
  protected k (some r, some e) =
      if r.exit_status == 0 || r.exit_status == 16
      then k
      else if r.exit_status == 17
      then give (failed (errored (message ∷ exists ∷ snapshot_protect ∷ [])))
      else give (failed e)

  abbrev copy_images : (orig new snap : Text) → Action Host (Unit {0})
  copy_images orig new snap =
      call (m.run (Command.rbd_snap_protect orig snap))
        (protected (call (m.run (Command.rbd_clone orig new snap)) (cloned orig new snap)))

  -- `CopySnapshot`: the name of the new image is looked for among the names of volumes.
  unfoldable pub copy_snapshot : ℕ → DriverOptions → Text → Text → Action Host (Unit {0})
  copy_snapshot fuel d snap new_name = do
    int_orig ← give (outcome (internal_name d.volume.name))
    int_new ← give (outcome (internal_name new_name))
    volumes ← (λ h. or_none (list m fuel (some ((codes "pool", pool_of d) ∷ [])) h))
    if any_named int_new volumes
        then give fmt_error
        else copy_images (mkpool (pool_of d) int_orig) (mkpool (pool_of d) int_new) snap
