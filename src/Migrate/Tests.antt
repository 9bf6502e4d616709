-- ===== src/Migrate/Tests.antt =====
-- Runs of the migrations, over a datastore that is a list of the versions that have run.
use volplugin.Base.{
  ℕ, ◌≡◌, refl, Option, none, some, List, [], ◌∷◌, codes, arith, ◌==◌, if◌then◌else◌,
}
use volplugin.Errors.{Error, sentinel, message}
use volplugin.Migrate.Defs.{
  Answers, Engine, Registry, absent, number, garbled, goes_on, fatal, run_migrations_up_to,
  migration_loop, run_migration, update_schema_version,
}
use volplugin.Migrate.Registered.{IsContiguous}
use volplugin.Migrate.Pending.{Ends, run_migrations_up_to_completes}

abbrev Ran : Type 0
Ran = List ℕ

abbrev first : Ran → Option Error × Ran
first d = (none, 1 ∷ d)

abbrev fresh : Engine Ran
fresh = record { store = []; version_key = absent }

-- A datastore that answers everything.
abbrev written : Answers
written = record { read = λ v. none; write = λ v. none }

-- A datastore whose second read fails.
abbrev unread : Answers
unread = record { read = λ v. if v == 1 then some (sentinel message) else none; write = λ v. none }

abbrev one_migration : Registry Ran
one_migration = record {
  available = λ i.
      if i == 1
      then some (record { version = 1; description = codes "first"; runner = first })
      else none;
  latest = 1;
}

one_migration-IsContiguous : IsContiguous one_migration
one_migration-IsContiguous = record {
  present = λ i low high. (
    record { version = 1; description = codes "first"; runner = first },
    ground arith,
    omega arith,
  );
  beyond = λ i h. ground arith;
}

run_one :
    run_migrations_up_to written one_migration 1 fresh
    ≡ goes_on (none, 1, record { store = 1 ∷ []; version_key = number 1 })
unfolding run_migrations_up_to migration_loop run_migration update_schema_version
run_one = refl

-- The migration runs, and its version is not recorded.
run_unread : run_migrations_up_to unread one_migration 1 fresh ≡ fatal
unfolding run_migrations_up_to migration_loop run_migration update_schema_version
run_unread = refl

run_garbled :
    run_migrations_up_to written one_migration 1
      (record fresh { version_key = garbled (codes "one") })
    ≡ fatal
unfolding run_migrations_up_to
run_garbled = refl

run_migrations_up_to_completes_example :
    Ends written one_migration one_migration-IsContiguous 1 fresh 0 refl
      (run_migrations_up_to written one_migration 1 fresh)
run_migrations_up_to_completes_example =
    run_migrations_up_to_completes written one_migration one_migration-IsContiguous 1 fresh 0 refl
