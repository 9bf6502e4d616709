-- ===== src/Storage/Ceph/Images.antt =====
-- `Create`, `Destroy`, `List` and `Exists` of storage/backend/ceph/ceph.go.
use volplugin.Base.{
  ℕ, zero, suc, ◌==◌, Bool, true, false, none, some, List, [], ◌∷◌, Text, codes, map, text_eq,
  if◌then◌else◌,
}
use volplugin.Errors.{plain, volume_exist}
use volplugin.Storage.Driver.{DriverOptions, Volume, Params, index}
use volplugin.Storage.Ceph.Names.{internal_name, external_name}
use volplugin.Storage.Ceph.Machine.{
  Machine, Command, Answer, done, failed, crashed, running, outcome, fmt_error, Action, give, call,
  ◌>>=◌, ◌>>◌, mkpool, pool_of, trim_space,
}

abbrev pub listed_volume : Text → Text → Volume
listed_volume pool name = record {
  name = external_name (trim_space name);
  size = 0;
  params = some ((codes "pool", pool) ∷ []);
}

abbrev pub any_named : Text → List Volume → Bool
any_named name [] = false
any_named name (v ∷ vs) = if text_eq v.name name then true else any_named name vs

module _ (m : Machine) where
  open m use {Host}

  -- Any result counts before the error: a run that was stopped has a result with the status zero.
  abbrev created : Answer → Action Host (Unit {0})
  created (some r, e) =
      if r.exit_status == 17
      then give (failed (plain volume_exist))
      else if r.exit_status == 0
      then give (done tt)
      else give fmt_error
  created (none, some e) = give fmt_error
  created (none, none) = give (done tt)

  -- `Create`.
  unfoldable pub create : DriverOptions → Action Host (Unit {0})
  create d = do
    int_name ← give (outcome (internal_name d.volume.name))
    call (m.run (Command.rbd_create (mkpool (pool_of d) int_name) d.volume.size)) created

  -- The error of the run is not looked at.
  abbrev destroyed : Answer → Action Host (Unit {0})
  destroyed (some r, e) = if r.exit_status == 0 then give (done tt) else give fmt_error
  destroyed (none, e) = give crashed

  -- `Destroy`.
  unfoldable pub destroy : DriverOptions → Action Host (Unit {0})
  destroy d = do
    int_name ← give (outcome (internal_name d.volume.name))
    call (m.run (Command.rbd_snap_purge (mkpool (pool_of d) int_name))) destroyed
    call (m.run (Command.rbd_rm (mkpool (pool_of d) int_name))) destroyed

  abbrev pub listed : Text → Action Host (List Volume) → Answer → Action Host (List Volume)
  listed pool again (r, some e) = give (failed e)
  listed pool again (none, none) = give crashed
  listed pool again (some r, none) =
      if r.exit_status == 0
      then elim (m.decode_names r.stdout) [
        | none ↦ again
        | some names ↦ give (done (map (listed_volume pool) names))
      ]
      else give fmt_error

  -- `List`: an output that cannot be decoded is asked for again, with fuel.
  unfoldable pub list : ℕ → Params → Action Host (List Volume)
  list zero params = give running
  list (suc n) params =
      call (m.run (Command.rbd_ls (index params (codes "pool"))))
        (listed (index params (codes "pool")) (list n params))

  -- `Exists`.
  unfoldable pub exists : ℕ → DriverOptions → Action Host Bool
  exists n d = do volumes ← list n d.volume.params; give (done (any_named d.volume.name volumes))
