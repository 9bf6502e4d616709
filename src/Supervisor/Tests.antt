-- ===== src/Supervisor/Tests.antt =====
-- A volume with three snapshots of which two are kept, and turns of the loop.
use volplugin.Base.{
  ◌≡◌, ◌-◌, refl, inl, map, true, false, negsuc, none, List, [], ◌∷◌, Text, codes, ℤ, pos, length,
  drop, arith,
}
use Prim.Native.Nat.{min}
use volplugin.Errors.{Result, ok, err, sentinel, message}
use volplugin.Supervisor.Defs.{
  remove_snapshot, remove_from, to_delete_count, prune_snapshots, Scheduled, pass,
}
use volplugin.Storage.Driver.{new_ceph_driver}
use volplugin.Supervisor.Prune.{prune_snapshots_keeps}
use volplugin.Supervisor.Due.{pass_crashes, IsSound, IsFaulty, due}

abbrev snapshots : List Text
snapshots = codes "2016-01-01" ∷ codes "2016-01-02" ∷ codes "2016-01-03" ∷ []

prune_snapshots_keeps_example :
    (prune_snapshots (codes "ceph") none (ok snapshots) 2 ≡ record {
      calls = remove_snapshot (codes "2016-01-01") ∷ [];
      locked = true;
      stopped = true;
      crashed = false;
    })
    × (length (drop (length snapshots - 2) snapshots) ≡ min (length snapshots) 2)
prune_snapshots_keeps_example = prune_snapshots_keeps snapshots 2 (omega arith) (omega arith)

abbrev scheduled : Text → Result ℤ → Scheduled
scheduled name parsed = record {
  name = name;
  use_snapshots = true;
  parsed = parsed;
  now = 120;
  is_used = true;
}

abbrev every_minute : Scheduled
every_minute = scheduled (codes "policy1/web") (ok (pos 60000000000))

abbrev unparsed : Scheduled
unparsed = scheduled (codes "policy1/db") (err (sentinel message))

every_minute-IsSound : IsSound every_minute
every_minute-IsSound uses = λ e. ground arith

unparsed-IsFaulty : IsFaulty unparsed
unparsed-IsFaulty = (refl, inl (sentinel message, refl))

pass_crashes_example :
    (pass (every_minute ∷ []) ≡ (due (every_minute ∷ []), false))
    × (pass (every_minute ∷ unparsed ∷ every_minute ∷ []) ≡ (due (every_minute ∷ []), true))
pass_crashes_example =
    pass_crashes (every_minute ∷ []) (every_minute ∷ []) unparsed (every_minute-IsSound, tt)
      unparsed-IsFaulty

one_due : due (every_minute ∷ []) ≡ (codes "policy1/web", true) ∷ []
one_due = refl

-- `int(keep)` of the largest `keep` is -1: all the snapshots are removed, and the loop goes past the list.
keep_all_panics : prune_snapshots (codes "ceph") none (ok snapshots) 18446744073709551615 ≡ record {
  calls = map remove_snapshot snapshots;
  locked = true;
  stopped = true;
  crashed = true;
}
unfolding prune_snapshots to_delete_count remove_from new_ceph_driver
keep_all_panics = refl

-- Of 2 ^ 63 the difference wraps, and nothing is removed.
keep_half_wraps : to_delete_count 3 9223372036854775808 ≡ negsuc 9223372036854775804
unfolding to_delete_count
keep_half_wraps = refl
