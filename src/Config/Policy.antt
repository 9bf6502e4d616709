-- ===== src/Config/Policy.antt =====
-- config/policy.go and the revisions of config/archive.go. A policy in the store stands for its encoding.
pub mod Stored
use volplugin.Base.{
  ℕ, ◌==◌, Bool, true, false, Option, none, some, List, [], ◌∷◌, Text, codes, text_eq, update,
  if◌then◌else◌,
}
use volplugin.Errors.{
  Result, ok, err, panic, Error, combine, sentinel, message, json_validation, etcd_to_errored,
  not_exists,
}
use volplugin.Config.Types.{Policy, BackendDrivers, Options}
use volplugin.Config.Volume.{actual_size}
use volplugin.Storage.Name.{is_empty}

-- `defaultDrivers`.
unfoldable pub default_drivers : Text → Option BackendDrivers
default_drivers backend =
    if text_eq backend (codes "ceph")
    then some (record { crud = codes "ceph"; mount = codes "ceph"; snapshot = codes "ceph" })
    else if text_eq backend (codes "nfs")
    then some (record { crud = []; mount = codes "nfs"; snapshot = [] })
    else none

abbrev pub default_filesystems : Options
default_filesystems = (codes "ext4", codes "mkfs.ext4 -m0 %") ∷ []

abbrev pub with_filesystems : Policy → Policy
with_filesystems p = elim p.file_systems [
  | none ↦ record p { file_systems = some default_filesystems }
  | some m ↦ p
]

abbrev pub sized_made : Result ℕ → Policy → Result Policy
sized_made (ok n) p = if n == 0 then err (sentinel message) else ok p
sized_made (err e) p = err (combine (message ∷ []) e)
sized_made panic p = panic

abbrev pub sized_by : BackendDrivers → Result ℕ → Policy → Result Policy
sized_by b size p = if is_empty b.crud then ok p else sized_made size p

module _ (from_human_size : Text → Result ℕ) (schema : Policy → Option Error) where
  abbrev pub by_default_drivers : Policy → Option BackendDrivers → Result Policy
  by_default_drivers p none = err (sentinel message)
  by_default_drivers p (some b) =
      sized_by b (actual_size from_human_size p.create_options) (record p { backends = some b })

  abbrev pub backed : Policy → Option BackendDrivers → Result Policy
  backed p (some b) = sized_by b (actual_size from_human_size p.create_options) p
  backed p none = by_default_drivers p (default_drivers p.backend)

  abbrev pub schema_checked : Policy → Result Policy
  schema_checked p = elim (schema p) [
    | some e ↦ err (combine (json_validation ∷ []) e)
    | none ↦ backed p p.backends
  ]

  -- `Validate` of a policy: it fills in what is missing.
  unfoldable pub validate_policy : Policy → Result Policy
  unfolding default_drivers actual_size
  validate_policy p = schema_checked (with_filesystems p)

-- The policies by name, and their revisions by name and second: a later one of the same second replaces
-- the earlier.
pub record PolicyStore : Type 0 where
  pub policies : Text → Option Policy
  pub revisions : Text → ℕ → Option Policy

-- The answers of etcd to the writes, and the clock in seconds.
pub record PolicyRequest : Type 0 where
  pub set_revision : Option Error
  pub set_policy : Option Error
  pub delete_policy : Option Error
  pub now : ℕ

module _ (from_human_size : Text → Result ℕ) (schema : Policy → Option Error)
    (q : PolicyRequest) where
  abbrev pub with_revision : Text → Policy → PolicyStore → PolicyStore
  with_revision name p w = record w {
    revisions = update w.revisions name (λ t. if t == q.now then some p else w.revisions name t);
  }

  -- The revision is written first.
  abbrev pub written : Text → Policy → PolicyStore → Result (Unit {0}) × PolicyStore
  written name p w = elim q.set_revision [
    | some e ↦ (err (etcd_to_errored e), w)
    | none ↦ elim q.set_policy [
      | some e ↦ (err (etcd_to_errored e), with_revision name p w)
      | none ↦
          (ok tt, record (with_revision name p w) { policies = update w.policies name (some p) })
    ]
  ]

  -- `PublishPolicy`, with `CreatePolicyRevision`.
  unfoldable pub publish_policy : Text → Policy → PolicyStore → Result (Unit {0}) × PolicyStore
  publish_policy name cfg w =
      elim (validate_policy from_human_size schema (record cfg { name = name })) [
        | ok p ↦ written name p w
        | err e ↦ (err e, w)
        | panic ↦ (panic, w)
      ]

  -- `DeletePolicy`.
  unfoldable pub delete_policy_named : Text → PolicyStore → Option Error × PolicyStore
  delete_policy_named name w = elim q.delete_policy [
    | some e ↦ (some (etcd_to_errored e), w)
    | none ↦ (none, record w { policies = update w.policies name none })
  ]

  -- `GetPolicy`, on a store that answers.
  unfoldable pub get_policy_named : Text → PolicyStore → Result Policy
  get_policy_named name w =
      if is_empty name then err (sentinel message) else elim (w.policies name) [
        | none ↦ err (sentinel not_exists)
        | some p ↦ validate_policy from_human_size schema (record p { name = name })
      ]

  -- `GetPolicyRevision`.
  unfoldable pub get_policy_revision : Text → ℕ → PolicyStore → Result Policy
  get_policy_revision name t w = elim (w.revisions name t) [
    | none ↦ err (sentinel not_exists)
    | some p ↦ ok p
  ]
