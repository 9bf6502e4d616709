-- ===== src/Migrate/Pending.antt =====
-- What a run over the pending migrations has done when it ends.
use volplugin.Base.{
  ℕ, zero, suc, ◌+◌, ◌≡◌, ◌≤◌, ◌<◌, ◌⊎◌, Option-cases, inl, inr, refl, sym, ◌∙◌, ap, if_true,
  if_false, Option, none, some, arith, ltb, leb, Bool-cases,
}
use Prim.Native.Nat.{max, min}
use volplugin.Errors.{Error, sentinel, message}
use volplugin.Migrate.Defs.{
  Answers, Engine, Migration, number, visit, after_run, after_runner, update_schema_version,
  write_version, Registry, goes_on, fatal, Report, key_version, migration_loop,
  run_migrations_up_to, run_migration,
}
use volplugin.Migrate.Registered.{IsContiguous}
use volplugin.Migrate.Updates.{run_runner, migrated, update_read, update_unread}

module _ {D : Type 0} where
  module _ (a : Answers) (r : Registry D) (contiguous : IsContiguous r) (target : ℕ)
      (start : Engine D) (c : ℕ) (key : key_version start.version_key ≡ goes_on c) where
    -- What is left to do when the run ends well.
    abbrev pub goal : ℕ
    goal = max c (min target r.latest)

    -- A run that goes on has run the `n` versions that follow the current one, and says so in the key;
    -- without an error it has reached the goal, and the store is what those migrations make of it.
    pub record IsDone (e : Option Error) (n : ℕ) (f : Engine D) : Type 0 where
      pub version : key_version f.version_key ≡ goes_on (c + n)
      pub bound : c + n ≤ goal
      pub complete : e ≡ none → c + n ≡ goal
      pub store : e ≡ none → f.store ≡ migrated r c n start.store

    -- The run up to version `i`, which is next.
    record IsAt (i n : ℕ) (f : Engine D) : Type 0 where
      version : key_version f.version_key ≡ goes_on (c + n)
      early : i ≤ c + 1 → n ≡ 0
      late : c < i → c + n + 1 ≡ i
      bound : c + n ≤ goal
      store : f.store ≡ migrated r c n start.store

    abbrev pub GoesOn : Report D → Type 0
    GoesOn report =
        (e : Option Error) × (n : ℕ) × (f : Engine D) × (report ≡ goes_on (e, n, f)) × IsDone e n f

    -- A read of the version key has failed.
    abbrev pub Unread : Type 0
    Unread = (v : ℕ) × (x : Error) × (a.read v ≡ some x)

    abbrev pub Ends : Report D → Type 0
    Ends report = GoesOn report ⊎ ((report ≡ fatal) × Unread)

    Ends-≡ : {b d : Report D} → b ≡ d → Ends d → Ends b
    Ends-≡ p (inl (e, n, f, q, done)) = inl (e, n, f, p ∙ q, done)
    Ends-≡ p (inr (q, unread)) = inr (p ∙ q, unread)

    abbrev Next : ℕ → (ℕ → Engine D → Report D) → Type 0
    Next i next = (n : ℕ) (f : Engine D) → IsAt i n f → Ends (next n f)

    IsAt-old : (i n : ℕ) (f : Engine D) → i ≤ c → IsAt i n f → IsAt (i + 1) n f
    IsAt-old i n f old at = record {
      version = at.version;
      early = λ h. at.early (omega arith);
      late = λ h. omega (arith, at.early (omega arith));
      bound = at.bound;
      store = at.store;
    }

    IsAt-due :
        (i n : ℕ) (f : Engine D) (m : Migration D)
        → r.available i ≡ some m
        → c < i
        → i ≤ min target r.latest
        → IsAt i n f
        → IsAt (i + 1) (suc n) (record { store = (m.runner f.store).1; version_key = number i })
    IsAt-due i n f m there new due at = record {
      version = ap goes_on (omega (arith, at.late new));
      early = λ h. omega arith;
      late = λ h. omega (arith, at.late new);
      bound = omega (arith, at.late new);
      store =
          ap (λ d. (m.runner d).1) at.store
          ∙ sym (
              ap (λ o. run_runner o (migrated r c n start.store))
                (ap r.available (omega (arith, at.late new)) ∙ there));
    }

    abbrev kept : Engine D → D → Engine D
    kept f d = record f { store = d }

    stopped-Ends :
        (i n : ℕ) (f : Engine D) (d : D)
        → IsAt i n f
        → IsDone (some (sentinel message)) n (kept f d)
    stopped-Ends i n f d at = record {
      version = at.version;
      bound = at.bound;
      complete = λ h. ground arith;
      store = λ h. ground arith;
    }

    -- The write of version `i`, once the key was read.
    read-Ends :
        (i n : ℕ) (f : Engine D) (m : Migration D) (next : ℕ → Engine D → Report D)
        (answer : Option Error)
        → r.available i ≡ some m
        → c < i
        → i ≤ min target r.latest
        → IsAt i n f
        → Next (i + 1) next
        → Ends (after_run (goes_on (write_version answer i (kept f (m.runner f.store).1))) n next)
    read-Ends i n f m next none there new due at go =
        go (suc n) (record { store = (m.runner f.store).1; version_key = number i })
          (IsAt-due i n f m there new due at)
    read-Ends i n f m next (some x) there new due at go =
        inl (some (sentinel message), n, _, refl, stopped-Ends i n f (m.runner f.store).1 at)

    written-Ends :
        (i n : ℕ) (f : Engine D) (m : Migration D) (next : ℕ → Engine D → Report D)
        → r.available i ≡ some m
        → c < i
        → i ≤ min target r.latest
        → IsAt i n f
        → Next (i + 1) next
        → Ends (after_run (update_schema_version a i (kept f (m.runner f.store).1)) n next)
    written-Ends i n f m next there new due at go = elim (Option-cases (a.read i)) [
      | inl read ↦
          Ends-≡
            (ap (λ u. after_run u n next)
              (update_read a i (c + n) (kept f (m.runner f.store).1) at.version
                (omega (arith, at.late new)) read))
            (read-Ends i n f m next (a.write i) there new due at go)
      | inr (x, failed) ↦ inr (
        ap (λ u. after_run u n next) (update_unread a i (kept f (m.runner f.store).1) x failed),
        (i, x, failed),
      )
    ]

    outcome-Ends :
        (i n : ℕ) (f : Engine D) (m : Migration D) (next : ℕ → Engine D → Report D)
        (out : Option Error × D)
        → m.version ≡ i
        → r.available i ≡ some m
        → m.runner f.store ≡ out
        → c < i
        → i ≤ min target r.latest
        → IsAt i n f
        → Next (i + 1) next
        → Ends (after_run (after_runner a m f out) n next)
    outcome-Ends i n f m next (none, d) named there ran new due at go =
        Ends-≡
          (ap (λ v. after_run (update_schema_version a v (kept f d)) n next) named
            ∙ ap (λ o. after_run (update_schema_version a i (kept f o)) n next)
                (sym (ap (λ (o : Option Error × D). o.1) ran)))
          (written-Ends i n f m next there new due at go)
    outcome-Ends i n f m next (some x, d) named there ran new due at go =
        inl (some (sentinel message), n, kept f d, refl, stopped-Ends i n f d at)

    due-Ends :
        (i n : ℕ) (f : Engine D) (m : Migration D) (next : ℕ → Engine D → Report D)
        → m.version ≡ i
        → r.available i ≡ some m
        → c < i
        → i ≤ min target r.latest
        → IsAt i n f
        → Next (i + 1) next
        → Ends (after_run (run_migration a m f) n next)
    unfolding run_migration
    due-Ends i n f m next named there new due at go =
        outcome-Ends i n f m next (m.runner f.store) named there refl new due at go

    visit-Ends :
        (i n : ℕ) (f : Engine D) (m : Migration D) (next : ℕ → Engine D → Report D)
        → m.version ≡ i
        → r.available i ≡ some m
        → i ≤ r.latest
        → IsAt i n f
        → Next (i + 1) next
        → Ends (visit a c target (some m) n f next)
    visit-Ends i n f m next named there low at go = elim (Bool-cases (leb m.version c)) [
      | inl old ↦ Ends-≡ (if_true _ _ old) (go n f (IsAt-old i n f (ground arith) at))
      | inr new ↦ elim (Bool-cases (ltb target m.version)) [
        | inl beyond ↦ inl (
          none,
          n,
          f,
          if_false _ _ new ∙ if_true _ _ beyond,
          record {
            version = at.version;
            bound = at.bound;
            complete = λ _. ground (arith, at.late (ground arith), at.bound);
            store = λ _. at.store;
          },
        )
        | inr due ↦
            Ends-≡ (if_false _ _ new ∙ if_false _ _ due)
              (due-Ends i n f m next named there (ground arith) (ground arith) at go)
      ]
    ]

    loop-Ends :
        (k i n : ℕ) (f : Engine D)
        → 1 ≤ i
        → k + i ≡ r.latest + 1
        → IsAt i n f
        → Ends (migration_loop a r c target k i n f)
    unfolding migration_loop
    loop-Ends zero i n f low left at = inl (
      none,
      n,
      f,
      refl,
      record {
        version = at.version;
        bound = at.bound;
        complete = λ _. grind (arith, at.early, at.late);
        store = λ _. at.store;
      },
    )
    loop-Ends (suc k) i n f low left at =
        let (m, there, named) = contiguous.present i low (omega arith) in
        Ends-≡ (ap (λ o. visit a c target o n f (migration_loop a r c target k (i + 1))) there) (
          visit-Ends i n f m (migration_loop a r c target k (i + 1)) named there (omega arith) at
            (λ n f at. loop-Ends k (i + 1) n f (omega arith) (omega arith) at))

    -- Over a contiguous registry, and with a version key that is not there or holds a number, the run ends the
    -- process only if a read of that key fails. When it goes on and reports no error, the version is the
    -- target cut to the latest one, or the current one if that is already higher; the store is what the
    -- versions in between, each run once and in order, make of it. On an error the version is that of the last
    -- migration that was completed.
    pub run_migrations_up_to_completes : Ends (run_migrations_up_to a r target start)
    unfolding run_migrations_up_to
    run_migrations_up_to_completes = elim (Option-cases (a.read 0)) [
      | inr (x, failed) ↦ inr (rw failed refl, (0, x, failed))
      | inl read ↦
          rw (read, key)
            (loop-Ends r.latest 1 0 start (omega arith) (omega arith) (record {
              version = key ∙ ap goes_on (omega arith);
              early = λ _. refl;
              late = λ h. omega arith;
              bound = omega arith;
              store = refl;
            }))
    ]
