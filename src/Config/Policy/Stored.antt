-- ===== src/Config/Policy/Stored.antt =====
-- A policy that was published is read back as it was stored.
use volplugin.Base.{
  ℕ, ◌≡◌, refl, false, Option, none, some, Text, arith, text_eq_refl, update, Bool-cases, inl, inr,
}
use volplugin.Errors.{Result, ok, err, panic, Error}
use volplugin.Config.Types.{Policy, BackendDrivers, Options}
use volplugin.Config.Volume.{actual_size}
use volplugin.Storage.Name.{is_empty}
use volplugin.Config.Policy.{
  PolicyStore, PolicyRequest, validate_policy, publish_policy, get_policy_named,
  get_policy_revision, default_drivers, default_filesystems, with_filesystems, sized_by, sized_made,
  written, with_revision, by_default_drivers, backed, schema_checked,
}

-- A policy that lacks nothing: it has filesystems, backends, and a size if its driver makes volumes.
pub record IsComplete (from_human_size : Text → Result ℕ) (p : Policy) : Type 0 where
  pub systems : Options
  pub with_systems : p.file_systems ≡ some systems
  pub backends : BackendDrivers
  pub with_backends : p.backends ≡ some backends
  pub sized : sized_by backends (actual_size from_human_size p.create_options) p ≡ ok p

sized_by_ok :
    (b : BackendDrivers) (size : Result ℕ) (p r : Policy)
    → sized_by b size p ≡ ok r
    → (r ≡ p) × ((p' : Policy) → sized_by b size p' ≡ ok p')
sized_by_ok b size p r h = elim (Bool-cases (is_empty b.crud)) [
  | inl none_made ↦ (ground (arith, none_made, h), λ p'. ground (arith, none_made))
  | inr made ↦ go size (rw made at h) made
]
  where
    go :
        (size : Result ℕ)
        → sized_made size p ≡ ok r
        → is_empty b.crud ≡ false
        → (r ≡ p) × ((p' : Policy) → sized_by b size p' ≡ ok p')
    go (ok n) h made = (ground (arith, h), λ p'. ground (arith, made, h))
    go (err e) h made = cc
    go panic h made = cc

module _ (from_human_size : Text → Result ℕ) (schema : Policy → Option Error) where
  validate_policy_complete :
      (p : Policy)
      → schema p ≡ none
      → IsComplete from_human_size p
      → validate_policy from_human_size schema p ≡ ok p
  unfolding validate_policy
  validate_policy_complete p fits c = ground (arith, c.with_systems, fits, c.with_backends, c.sized)

  -- What the validation makes of a policy: one that lacks nothing, with the same name and
  -- runtime options.
  abbrev pub Completes : Policy → Policy → Type 0
  Completes p r =
      IsComplete from_human_size r × (r.name ≡ p.name) × (r.runtime_options ≡ p.runtime_options)

  sized_complete :
      (p r : Policy) (m : Options) (b : BackendDrivers)
      → p.file_systems ≡ some m
      → p.backends ≡ some b
      → sized_by b (actual_size from_human_size p.create_options) p ≡ ok r
      → Completes p r
  sized_complete p r m b f e h =
      let (same, sized) = sized_by_ok b (actual_size from_human_size p.create_options) p r h in
      rw same (
        record { systems = m; with_systems = f; backends = b; with_backends = e; sized = sized p },
        refl,
        refl,
      )

  default_complete :
      (p r : Policy) (m : Options) (d : Option BackendDrivers)
      → p.file_systems ≡ some m
      → by_default_drivers from_human_size schema p d ≡ ok r
      → Completes p r
  default_complete p r m none f h = cc
  default_complete p r m (some b) f h =
      sized_complete (record p { backends = some b }) r m b f refl h

  backed_complete :
      (p r : Policy) (m : Options) (b : Option BackendDrivers)
      → p.file_systems ≡ some m
      → p.backends ≡ b
      → backed from_human_size schema p b ≡ ok r
      → Completes p r
  backed_complete p r m (some b) f e h = sized_complete p r m b f e h
  backed_complete p r m none f e h = default_complete p r m (default_drivers p.backend) f h

  checked_complete :
      (p r : Policy) (m : Options) (x : Option Error)
      → p.file_systems ≡ some m
      → schema p ≡ x
      → schema_checked from_human_size schema p ≡ ok r
      → Completes p r
  checked_complete p r m (some x) f e h = ground (arith, e, h)
  checked_complete p r m none f e h = backed_complete p r m p.backends f refl (ground (arith, e, h))

  systems_complete :
      (p r : Policy) (o : Option Options)
      → p.file_systems ≡ o
      → schema_checked from_human_size schema (with_filesystems p) ≡ ok r
      → Completes p r
  systems_complete p r (some m) f h =
      let kept : with_filesystems p ≡ p = ground (arith, f) in
      checked_complete p r m (schema p) f refl (rw kept at h)
  systems_complete p r none f h =
      let p' : Policy = record p { file_systems = some default_filesystems } in
      let filled : with_filesystems p ≡ p' = ground (arith, f) in
      checked_complete p' r default_filesystems (schema p') refl refl (rw filled at h)

  pub validate_policy-Completes :
      (p r : Policy) → validate_policy from_human_size schema p ≡ ok r → Completes p r
  unfolding validate_policy
  validate_policy-Completes p r h = systems_complete p r p.file_systems refl h

  renamed : (p : Policy) (name : Text) → p.name ≡ name → record p { name = name } ≡ p
  renamed p name e = rw (← e) refl

  written_ok :
      (q : PolicyRequest) (name : Text) (p : Policy) (w w' : PolicyStore) (a b : Option Error)
      → q.set_revision ≡ a
      → q.set_policy ≡ b
      → written from_human_size schema q name p w ≡ (ok tt, w')
      → (w'.policies name ≡ some p) × (w'.revisions name q.now ≡ some p)
  written_ok q name p w w' (some e) b ea eb h = cc (rw ea at h)
  written_ok q name p w w' none (some e) ea eb h = cc (rw (ea, eb) at h)
  written_ok q name p w w' none none ea eb h =
      let stored : w' ≡ record (with_revision from_human_size schema q name p w) {
        policies = update w.policies name (some p);
      } =
        ground (arith, ea, eb, h) in
      rw stored (ground (arith, text_eq_refl name), ground (arith, text_eq_refl name))

  -- A policy whose publication succeeds under a name that is not empty is read back as what its validation made of it, by
  -- the name and as the revision of the second it was published in, if the schema accepts what validation fills in.
  pub get_policy-publish_policy :
      (q : PolicyRequest) (name : Text) (cfg p : Policy) (w w' : PolicyStore)
      → is_empty name ≡ false
      → validate_policy from_human_size schema (record cfg { name = name }) ≡ ok p
      → schema p ≡ none
      → publish_policy from_human_size schema q name cfg w ≡ (ok tt, w')
      → (get_policy_named from_human_size schema q name w' ≡ ok p)
        × (get_policy_revision from_human_size schema q name q.now w' ≡ ok p)
  unfolding publish_policy get_policy_named get_policy_revision
  get_policy-publish_policy q name cfg p w w' filled valid fits published =
      let (c, named, _) = validate_policy-Completes (record cfg { name = name }) p valid in
      let again = validate_policy_complete p fits c in
      let (stored, archived) =
        written_ok q name p w w' q.set_revision q.set_policy refl refl
          (rw (publish_policy, valid) at published) in
      (
        rw (filled, stored, renamed p name named, again) refl,
        rw (get_policy_revision, archived) refl,
      )
