-- ===== src/Migrate/Registered.antt =====
-- The registry holds the versions from 1 to the latest, each under its own number.
use volplugin.Base.{
  ℕ, ◌+◌, ◌≡◌, ◌≢◌, ◌≤◌, ◌<◌, refl, Option, none, some, Text, arith, ◌==◌, Bool-cases, inl, inr,
  if◌then◌else◌,
}
use volplugin.Errors.{Error}
use volplugin.Migrate.Defs.{Migration, Registry, goes_on, fatal, no_migrations, register_migration}

module _ {D : Type 0} where
  -- No version is left out, and none stands beyond the latest.
  pub record IsContiguous (r : Registry D) : Type 0 where
    pub present :
        (i : ℕ)
        → 1 ≤ i
        → i ≤ r.latest
        → (m : Migration D) × (r.available i ≡ some m) × (m.version ≡ i)
    pub beyond : (i : ℕ) → r.latest < i → r.available i ≡ none

  no_migrations-IsContiguous : IsContiguous no_migrations
  no_migrations-IsContiguous = record {
    present = λ i low high. absurd (omega arith);
    beyond = λ i h. refl;
  }

  abbrev with_migration : ℕ → Text → (D → Option Error × D) → Registry D → Registry D
  with_migration v d f r = record {
    available = λ i.
        if i == v
        then some (record { version = v; description = d; runner = f })
        else r.available i;
    latest = v;
  }

  register_next :
      (v : ℕ) (d : Text) (f : D → Option Error × D) (r : Registry D)
      → IsContiguous r
      → v ≡ r.latest + 1
      → register_migration v d f r ≡ goes_on (with_migration v d f r)
  unfolding register_migration
  register_next v d f r c e = ground (arith, c.beyond v)

  with_migration-IsContiguous :
      (v : ℕ) (d : Text) (f : D → Option Error × D) (r : Registry D)
      → IsContiguous r
      → v ≡ r.latest + 1
      → IsContiguous (with_migration v d f r)
  with_migration-IsContiguous v d f r c e = record {
    present = λ i low high. elim (Bool-cases (i == v)) [
      | inl same ↦ (record { version = v; description = d; runner = f }, rw same refl, ground arith)
      | inr other ↦
          let (m, there, named) = c.present i low (ground arith) in (m, rw other there, named)
    ];
    beyond = λ i h. ground (arith, c.beyond i);
  }

  -- Over a contiguous registry, registering the next version, with its number, is accepted and
  -- keeps the registry contiguous; any other number ends the process.
  register_migration-IsContiguous :
      (v : ℕ) (d : Text) (f : D → Option Error × D) (r : Registry D)
      → IsContiguous r
      → ((v ≡ r.latest + 1)
          → (r' : Registry D) × (register_migration v d f r ≡ goes_on r')
            × IsContiguous r'
            × (r'.latest ≡ v))
        × (v ≢ r.latest + 1 → register_migration v d f r ≡ fatal)
  unfolding register_migration
  register_migration-IsContiguous v d f r c = (
    (λ e. (
      with_migration v d f r,
      unfold register_migration in register_next v d f r c e,
      with_migration-IsContiguous v d f r c e,
      refl,
    )),
    (λ ne. ground arith),
  )
