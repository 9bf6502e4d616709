-- ===== src/Migrate/Defs.antt =====
-- volmigrate: the registry of migrations (schema_migrations.go), one migration (migration.go), the run
-- over the pending ones (volmigrate.go), and the version key of the etcd2 engine (backend/etcd2).
-- Versions are int64 values that are never negative, far below their bound.
use volplugin.Base.{
  ℕ, zero, suc, ◌+◌, Bool, true, false, Option, none, some, Text, ltb, leb, ◌==◌, if◌then◌else◌,
}
use volplugin.Errors.{Error, sentinel, message}

-- The contents of the key `schema-version`: nothing, what `strconv.Atoi` reads, or what it does not read.
pub data VersionKey : Type 0 where
  absent : VersionKey
  number : ℕ → VersionKey
  garbled : Text → VersionKey

-- What the datastore answers to the read of the key before the version is written, and to the write. The read at
-- the start of a run is that of version 0. That the key is not there is no error here.
pub record Answers : Type 0 where
  pub read : ℕ → Option Error
  pub write : ℕ → Option Error

-- The datastore behind an engine, and its key.
pub record Engine (D : Type 0) : Type 0 where
  pub store : D
  pub version_key : VersionKey

pub record Migration (D : Type 0) : Type 0 where
  pub version : ℕ
  pub description : Text
  pub runner : D → Option Error × D

-- `availableMigrations` and `latestMigrationVersion`.
pub record Registry (D : Type 0) : Type 0 where
  pub available : ℕ → Option (Migration D)
  pub latest : ℕ

-- A process that goes on, with the value, or was ended by `logrus.Fatalf` or a nil dereference.
pub data Run (A : Type 0) : Type 0 where
  goes_on : A → Run A
  fatal : Run A

abbrev pub key_version : VersionKey → Run ℕ
key_version absent = goes_on 0
key_version (number v) = goes_on v
key_version (garbled t) = fatal

abbrev pub is_some : {A : Type 0} → Option A → Bool
is_some none = false
is_some (some a) = true

-- The error, the number of migrations that ran, and the engine.
abbrev pub Report : Type 0 → Type 0
Report D = Run (Option Error × ℕ × Engine D)

module _ {D : Type 0} where
  abbrev pub no_migrations : Registry D
  no_migrations = record { available = λ i. none; latest = 0 }

  -- `registerMigration`.
  unfoldable pub register_migration :
      ℕ → Text → (D → Option Error × D) → Registry D → Run (Registry D)
  register_migration version description f r =
      if ltb version 1
      then fatal
      else if version == r.latest + 1
      then (if is_some (r.available version)
          then fatal
          else goes_on (record {
            available = λ i.
                if i == version
                then some (record { version = version; description = description; runner = f })
                else r.available i;
            latest = version;
          }))
      else fatal

  -- `CurrentSchemaVersion`, by the answer of the read: no key is version 0, and the process is ended by any
  -- error and by a value that is no number.
  abbrev pub current_schema_version : Option Error → Engine D → Run ℕ
  current_schema_version none e = key_version e.version_key
  current_schema_version (some x) e = fatal

  abbrev pub write_version : Option Error → ℕ → Engine D → Option Error × Engine D
  write_version none v e = (none, record e { version_key = number v })
  write_version (some x) v e = (some (sentinel message), e)

  abbrev pub update_from : Answers → ℕ → Engine D → Run ℕ → Run (Option Error × Engine D)
  update_from a new_version e fatal = fatal
  update_from a new_version e (goes_on current) =
      if leb new_version current
      then fatal
      else goes_on (write_version (a.write new_version) new_version e)

  -- `UpdateSchemaVersion`.
  unfoldable pub update_schema_version : Answers → ℕ → Engine D → Run (Option Error × Engine D)
  update_schema_version a new_version e =
      update_from a new_version e (current_schema_version (a.read new_version) e)

  -- `Migration.Run`.
  abbrev pub after_runner :
      Answers → Migration D → Engine D → Option Error × D → Run (Option Error × Engine D)
  after_runner a m e (none, d) = update_schema_version a m.version (record e { store = d })
  after_runner a m e (some x, d) = goes_on (some (sentinel message), record e { store = d })

  unfoldable pub run_migration : Answers → Migration D → Engine D → Run (Option Error × Engine D)
  unfolding update_schema_version
  run_migration a m e = after_runner a m e (m.runner e.store)

  abbrev pub after_run : Run (Option Error × Engine D) → ℕ → (ℕ → Engine D → Report D) → Report D
  after_run fatal n next = fatal
  after_run (goes_on (some x, e)) n next = goes_on (some x, n, e)
  after_run (goes_on (none, e)) n next = next (suc n) e

  abbrev pub visit :
      Answers
      → (current target : ℕ) → Option (Migration D)
      → ℕ
      → Engine D
      → (ℕ → Engine D → Report D)
      → Report D
  visit a current target none n e next = fatal
  visit a current target (some m) n e next =
      if leb m.version current
      then next n e
      else if ltb target m.version
      then goes_on (none, n, e)
      else after_run (run_migration a m e) n next

  -- The loop of `runMigrationsUpTo` from version `i`, with `k` versions left.
  unfoldable pub migration_loop :
      Answers → Registry D → (current target k i n : ℕ) → Engine D → Report D
  migration_loop a r current target zero i n e = goes_on (none, n, e)
  migration_loop a r current target (suc k) i n e =
      visit a current target (r.available i) n e (migration_loop a r current target k (i + 1))

  abbrev pub run_from : Answers → Registry D → ℕ → Engine D → Run ℕ → Report D
  run_from a r target e fatal = fatal
  run_from a r target e (goes_on current) = migration_loop a r current target r.latest 1 0 e

  unfoldable pub run_migrations_up_to : Answers → Registry D → ℕ → Engine D → Report D
  run_migrations_up_to a r target e = run_from a r target e (current_schema_version (a.read 0) e)

  unfoldable pub run_all_migrations : Answers → Registry D → Engine D → Report D
  run_all_migrations a r e = run_migrations_up_to a r r.latest e

-- `registerMigrations`: the one migration of this release does nothing.
unfoldable pub register_migrations : {D : Type 0} → Text → Registry D → Run (Registry D)
unfolding register_migration
register_migrations description r = register_migration 1 description (λ d. (none, d)) r
