-- ===== src/Storage/Ceph/Mapping.antt =====
-- storage/backend/ceph/internals.go, and `Format` of ceph.go: an image is mapped to a device of the host,
-- and unmapped. A map of Go is the list of its entries, in one order of iteration.
use volplugin.Base.{
  ℕ, zero, suc, ◌==◌, Bool, true, false, ◌&&◌, Option, none, some, List, [], ◌∷◌, Text, codes, map,
  text_eq, if◌then◌else◌,
}
use volplugin.Errors.{Error}
use volplugin.Storage.Name.{is_empty}
use volplugin.Storage.Driver.{DriverOptions, Mount}
use volplugin.Storage.Ceph.Names.{internal_name, external_name}
use volplugin.Storage.Ceph.Template.{template_fs_cmd}
use volplugin.Storage.Ceph.Machine.{
  Machine, Command, Answer, Rbd, Outcome, done, failed, crashed, running, outcome, fmt_error,
  succeeded, Action, give, call, ◌>>=◌, ◌>>◌, pool_of,
}

-- `none` for a nil error. What crashes or goes on is not caught.
abbrev pub caught : {H A : Type 0} → Outcome A × H → Outcome (Option Error) × H
caught (done a, h) = (done none, h)
caught (failed e, h) = (done (some e), h)
caught (crashed, h) = (crashed, h)
caught (running, h) = (running, h)

abbrev pub try : {H A : Type 0} → Action H A → Action H (Option Error)
try m h = caught (m h)

abbrev pub is_image : Text → Text → Rbd → Bool
is_image name pool r = text_eq r.name name && text_eq r.pool pool

abbrev pub any_image : Text → Text → List Rbd → Bool
any_image name pool [] = false
any_image name pool (r ∷ rs) = if is_image name pool r then true else any_image name pool rs

abbrev pub device_of : Text → Text → List Rbd → Text
device_of name pool [] = []
device_of name pool (r ∷ rs) = if is_image name pool r then r.device else device_of name pool rs

-- The tests `err != nil || er.ExitStatus != 0`, where a failure's message reads the result.
abbrev pub checked : {H A : Type 0} → Action H A → Answer → Action H A
checked k (none, e) = give crashed
checked k (some r, e) = if succeeded (some r, e) then k else give fmt_error

module _ (m : Machine) where
  open m use {Host}

  abbrev pub decoded : Action Host (List Rbd) → Answer → Action Host (List Rbd)
  decoded again (none, e) = give crashed
  decoded again (some r, some e) = again
  decoded again (some r, none) =
      if r.exit_status == 0
      then if is_empty r.stdout
        then again
        else elim (m.decode_mapped r.stdout) [ none ↦ again | some rs ↦ give (done rs) ]
      else again

  -- `showMapped`: every failure is tried again, with fuel.
  unfoldable pub show_mapped : ℕ → Action Host (List Rbd)
  show_mapped zero = give running
  show_mapped (suc n) = call (m.run Command.rbd_showmapped) (decoded (show_mapped n))

  abbrev pub retried : Action Host Answer → Answer → Action Host Answer
  retried again (r, some e) = again
  retried again (r, none) = give (done (r, none))

  -- The loop of `mapImage`, with the number of retries that are left.
  unfoldable pub map_loop : ℕ → Text → Text → Action Host Answer
  map_loop zero name pool = call (m.run (Command.rbd_map name pool)) (λ a. give (done a))
  map_loop (suc n) name pool =
      call (m.run (Command.rbd_map name pool)) (retried (map_loop n name pool))

  abbrev found : Text → Action Host Text
  found device = if is_empty device then give fmt_error else give (done device)

  -- `mapImage`.
  unfoldable pub map_image : ℕ → DriverOptions → Action Host Text
  map_image fuel d = do
    int_name ← give (outcome (internal_name d.volume.name))
    a ← map_loop 10 int_name (pool_of d)
    rs ← checked (show_mapped fuel) a
    found (device_of int_name (pool_of d) rs)

  -- `mkfsVolume`.
  unfoldable pub mkfs_volume : ℕ → Text → Text → Action Host (Unit {0})
  mkfs_volume fuel fscmd device = elim (template_fs_cmd fuel fscmd device) [
    | none ↦ give running
    | some script ↦ call (m.run (Command.shell script)) (checked (give (done tt)))
  ]

  -- What `rbd unmap` answers: whether it is to be done again.
  abbrev pub unmapped : ℕ → Text → Text → Answer → Action Host Bool
  unmapped fuel name pool (none, e) = give crashed
  unmapped fuel name pool (some r, some e) =
      if r.exit_status == 16 then give (done true) else give (failed e)
  unmapped fuel name pool (some r, none) =
      if r.exit_status == 0
      then (show_mapped fuel >>= λ rs. give (done (any_image name pool rs)))
      else give (done (r.exit_status == 16))

  -- The entries of `rbdmap`: a device without a node is passed over, and only the first one with a node
  -- is unmapped.
  unfoldable pub unmap_entries : ℕ → Text → Text → List Rbd → Action Host Bool
  unmap_entries fuel name pool [] h = (done false, h)
  unmap_entries fuel name pool (r ∷ rs) h =
      if is_image name pool r
      then elim (m.stat r.device h) [
        | none ↦ unmap_entries fuel name pool rs h
        | some n ↦ call (m.run (Command.rbd_unmap r.device)) (unmapped fuel name pool) h
      ]
      else unmap_entries fuel name pool rs h

  -- `doUnmap`.
  unfoldable pub do_unmap : ℕ → DriverOptions → List Rbd → Action Host Bool
  do_unmap fuel d rs = do
    int_name ← give (outcome (internal_name d.volume.name))
    unmap_entries fuel int_name (pool_of d) rs

  -- The loop of `unmapImage`, with the number of turns that are left, on one list of mapped images.
  unfoldable pub unmap_loop : ℕ → ℕ → DriverOptions → List Rbd → Action Host (Unit {0})
  unmap_loop fuel zero d rs = give fmt_error
  unmap_loop fuel (suc n) d rs = do
    again ← do_unmap fuel d rs
    if again then unmap_loop fuel n d rs else give (done tt)

  -- `unmapImage`.
  unfoldable pub unmap_image : ℕ → DriverOptions → Action Host (Unit {0})
  unmap_image fuel d = do rs ← show_mapped fuel; unmap_loop fuel 10 d rs

  abbrev pub mapped_mount : Rbd → Mount
  mapped_mount r = record {
    device = r.device;
    path = [];
    dev_major = 0;
    dev_minor = 0;
    volume = record {
      name = external_name r.name;
      size = 0;
      params = some ((codes "pool", r.pool) ∷ []);
    };
  }

  -- `getMapped`.
  unfoldable pub get_mapped : ℕ → Action Host (List Mount)
  get_mapped fuel = do rs ← show_mapped fuel; give (done (map mapped_mount rs))

  abbrev pub formatted : ℕ → DriverOptions → Option Error → Action Host (Unit {0})
  formatted fuel d none = unmap_image fuel d
  formatted fuel d (some e) = try (unmap_image fuel d) >> give (failed e)

  -- `Format`.
  unfoldable pub format : ℕ → DriverOptions → Action Host (Unit {0})
  format fuel d = do
    device ← map_image fuel d
    e ← try (mkfs_volume fuel d.fs_options.create_command device)
    formatted fuel d e
