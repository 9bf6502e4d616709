-- ===== src/Errors.antt =====
-- errors/errors.go and errors/utils.go: the program's error values, and the etcd codes they stand
-- for. An error built by package errored is the list of the faults that `Combine` has joined; a
-- plain error is one that did not come from that package.
use volplugin.Base.{
  ℕ, Bool, true, false, ◌||◌, List, [], ◌∷◌, ◌++◌, Option, none, some, ◌==◌, if◌then◌else◌,
}

-- The program's error variables; `message` is any other text.
pub data Fault : Type 0 where
  unknown exists not_exists lock_failed lock_mismatch : Fault
  no_action_taken lock_publish lock_remove volmaster_down volmaster_request : Fault
  json_validation mount_scan dev_not_found invalid_db_path rate_limit : Fault
  mount_path snapshot_protect snapshot_copy unmarshal_request marshal_response : Fault
  marshal_global unmarshal_global publish_global get_global invalid_global : Fault
  cannot_copy_volume get_volume invalid_volume remove_volume clear_volume : Fault
  list_volume publish_volume format_volume create_volume configuring_volume : Fault
  marshal_volume unmarshal_volume mount_source_required unmarshal_runtime publish_runtime : Fault
  unmarshal_policy marshal_policy get_policy list_policy publish_policy : Fault
  list_policy_revision get_policy_revision remove_image list_snapshots snapshots_unsupported : Fault
  snapshot_failed missing_snapshot_option missing_target_option refresh_mount remove_mount : Fault
  publish_mount get_mount mount_failed unmount_failed get_hostname : Fault
  get_driver read_body volume_exist : Fault
  message : Fault
  etcd : ℕ → Fault

pub data Error : Type 0 where
  errored : List Fault → Error
  plain : Fault → Error

-- A fallible call without a result returns `none` for a nil error.
abbrev pub faults : Error → List Fault
faults (errored fs) = fs
faults (plain f) = f ∷ []

-- `e.Combine(e2)`, with `e` of package errored.
unfoldable pub combine : List Fault → Error → Error
combine fs e = errored (fs ++ faults e)

abbrev pub sentinel : Fault → Error
sentinel f = errored (f ∷ [])

abbrev pub any_fault : (Fault → Bool) → List Fault → Bool
any_fault p [] = false
any_fault p (f ∷ fs) = p f || any_fault p fs

-- `er, ok := err.(*errored.Error); ok && er.Contains(f)`, for the fault that `p` tests for.
abbrev pub contains : (Fault → Bool) → Error → Bool
contains p (errored fs) = any_fault p fs
contains p (plain f) = false

abbrev pub is_not_exists : Fault → Bool
is_not_exists not_exists = true
is_not_exists _ = false

abbrev pub is_exists : Fault → Bool
is_exists exists = true
is_exists _ = false

pub data Result {ℓ} (A : Type ℓ) : Type ℓ where
  ok : A → Result A
  err : Error → Result A
  panic : Result A

infixl 5 ◌>>=◌ ◌>>◌
abbrev pub ◌>>=◌ {ℓ κ} : {A : Type ℓ} {B : Type κ} → Result A → (A → Result B) → Result B
ok a >>= f = f a
err e >>= f = err e
panic >>= f = panic

abbrev pub ◌>>◌ {ℓ κ} : {A : Type ℓ} {B : Type κ} → Result A → Result B → Result B
m >> k = m >>= λ _. k

abbrev pub wrap {ℓ} : {A : Type ℓ} → Fault → Result A → Result A
wrap f (ok a) = ok a
wrap f (err e) = err (combine (f ∷ []) e)
wrap f panic = panic

-- client.ErrorCodeKeyNotFound and its neighbours.
abbrev pub key_not_found : ℕ
key_not_found = 100

abbrev pub test_failed : ℕ
test_failed = 101

abbrev pub node_exist : ℕ
node_exist = 105

abbrev pub prev_value_required : ℕ
prev_value_required = 201

-- `etcdCodeTable`.
unfoldable pub etcd_code_table : ℕ → Option Fault
etcd_code_table c =
    if c == key_not_found
    then some not_exists
    else if c == node_exist
    then some exists
    else if c == prev_value_required
    then some lock_mismatch
    else if c == test_failed
    then some lock_failed
    else none

-- `EtcdToErrored` on an error of the etcd client, and on any other.
unfoldable pub etcd_to_errored : Error → Error
unfolding etcd_code_table
etcd_to_errored (errored fs) = errored fs
etcd_to_errored (plain (etcd c)) = elim (etcd_code_table c) [
  | none ↦ plain (etcd c)
  | some f ↦ sentinel f
]
etcd_to_errored (plain f) = plain f
