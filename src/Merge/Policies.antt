-- ===== src/Merge/Policies.antt =====
-- The fields of a policy, by the tags of config/policy.go and config/volume.go.
use volplugin.Base.{[], Text, codes}
use volplugin.Errors.{Result, err, sentinel, message}
use volplugin.Config.Types.{Policy, CreateOptions, RuntimeOptions, SnapshotConfig, RateLimitConfig}
use volplugin.Merge.{
  Fields, no_fields, field, nested, leaf, cast_string, cast_uint32, cast_uint64, cast_bool,
}

abbrev pub with_create : (CreateOptions → CreateOptions) → Policy → Policy
with_create f p = record p { create_options = f p.create_options }

abbrev pub with_runtime : (RuntimeOptions → RuntimeOptions) → Policy → Policy
with_runtime f p = record p { runtime_options = f p.runtime_options }

abbrev pub with_snapshot : (SnapshotConfig → SnapshotConfig) → Policy → Policy
with_snapshot f = with_runtime (λ r. record r { snapshot = f r.snapshot })

abbrev pub with_rate_limit : (RateLimitConfig → RateLimitConfig) → Policy → Policy
with_rate_limit f = with_runtime (λ r. record r { rate_limit = f r.rate_limit })

-- A map or a pointer to a struct: no kind that `setValueWithType` knows.
abbrev no_kind : Text → Policy → Result Policy
no_kind v p = err (sentinel message)

abbrev create_fields : Fields Policy
create_fields =
    field (leaf (codes "size") (cast_string (λ v. with_create (λ c. record c { size = v })))) (
      field
        (leaf (codes "filesystem")
          (cast_string (λ v. with_create (λ c. record c { file_system = v }))))
        no_fields)

abbrev snapshot_fields : Fields Policy
snapshot_fields =
    field
      (leaf (codes "snapshots.frequency")
        (cast_string (λ v. with_snapshot (λ s. record s { frequency = v }))))
      (field
        (leaf (codes "snapshots.keep")
          (cast_uint32 (λ n. with_snapshot (λ s. record s { keep = n }))))
        no_fields)

abbrev rate_limit_fields : Fields Policy
rate_limit_fields =
    field
      (leaf (codes "rate-limit.write.bps")
        (cast_uint64 (λ n. with_rate_limit (λ r. record r { write_bps = n }))))
      (field
        (leaf (codes "rate-limit.read.bps")
          (cast_uint64 (λ n. with_rate_limit (λ r. record r { read_bps = n }))))
        no_fields)

abbrev runtime_fields : Fields Policy
runtime_fields =
    field
      (leaf (codes "snapshots")
        (cast_bool (λ b. with_runtime (λ r. record r { use_snapshots = b }))))
      (field (nested snapshot_fields) (field (nested rate_limit_fields) no_fields))

-- The fields of `Policy`; the last ones are two maps, a pointer and a text without a tag.
unfoldable pub policy_fields : Fields Policy
policy_fields = field (leaf [] (cast_string (λ v p. record p { name = v }))) (
    field (leaf (codes "unlocked") (cast_bool (λ b p. record p { unlocked = b }))) (
      field (nested create_fields) (
        field (nested runtime_fields) (
          field (leaf [] no_kind) (
            field (leaf [] no_kind) (
              field (leaf [] no_kind)
                (field (leaf [] (cast_string (λ v p. record p { backend = v }))) no_fields)))))))
