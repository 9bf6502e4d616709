-- ===== src/Migrate/Updates.antt =====
-- What migrations make of the store, and what the write of a newer version answers.
use volplugin.Base.{ℕ, zero, suc, ◌+◌, ◌≡◌, ◌<◌, refl, Option, none, some, arith}
use volplugin.Errors.{Error}
use volplugin.Migrate.Defs.{
  Answers, Engine, Migration, update_schema_version, Registry, goes_on, fatal, key_version,
  write_version,
}

module _ {D : Type 0} where
  abbrev pub run_runner : Option (Migration D) → D → D
  run_runner none d = d
  run_runner (some m) d = (m.runner d).1

  -- The store after the `n` migrations that follow version `c`, in order.
  abbrev pub migrated : Registry D → (c n : ℕ) → D → D
  migrated r c zero d = d
  migrated r c (suc n) d = run_runner (r.available (c + suc n)) (migrated r c n d)

  -- A newer version is written, or the error of the write is reported; a read that fails ends the process.
  pub update_read :
      (a : Answers) (v current : ℕ) (e : Engine D)
      → key_version e.version_key ≡ goes_on current
      → current < v
      → a.read v ≡ none
      → update_schema_version a v e ≡ goes_on (write_version (a.write v) v e)
  unfolding update_schema_version
  update_read a v current e key newer read = ground (arith, read, key)

  pub update_unread :
      (a : Answers) (v : ℕ) (e : Engine D) (x : Error)
      → a.read v ≡ some x
      → update_schema_version a v e ≡ fatal
  unfolding update_schema_version
  update_unread a v e x read = rw read refl
