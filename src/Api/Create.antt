-- ===== src/Api/Create.antt =====
-- `Create` and `createVolume` of api/handlers.go, and `PublishVolume` of config/volume.go. What
-- `config.Client.CreateVolume`, the JSON schemas and the CRUD driver answer is part of the request.
pub mod Body
pub mod Locks
mod Tests
use volplugin.Base.{
  ℕ, Bool, true, false, Option, none, some, List, [], ◌∷◌, ◌++◌, Text, codes, ℤ, update,
  if◌then◌else◌,
}
use volplugin.Errors.{
  Result, ok, err, panic, Error, Fault, errored, plain, combine, etcd_to_errored, sentinel, faults,
  exists, no_action_taken, json_validation, create_volume, format_volume, publish_volume,
  get_policy, get_hostname, message,
}
use volplugin.Etcd.{Etcd}
use volplugin.Config.Types.{Volume, RuntimeOptions, Policy, Options}
use volplugin.Config.Volume.{full_name, validate_backends}
use volplugin.Config.Use.{UseLocker, use_mount, use_snapshot}
use volplugin.Lock.{
  Round, Progress, returned, waiting, Schedule, acquire_all, execute_with_multi_use_lock,
}
use volplugin.Storage.Driver.{DriverOptions}
use volplugin.Storage.Control
use volplugin.Storage.Control.{Crud, CrudCall, Run, remove_volume}
use volplugin.Api.State.{VolumeName}

-- The intent store's volumes by full name, their runtime options, and the driver calls so far.
pub record World : Type 0 where
  pub volumes : Text → Option Volume
  pub runtimes : Text → Option RuntimeOptions
  pub calls : List CrudCall

pub record CreateRequest (S : Type 0) : Type 0 where
  pub body : Result VolumeName
  pub hostname : Result Text
  pub policy : Result Policy
  pub config_volume : Result Volume
  pub volume_schema : Volume → Option Error
  pub runtime_schema : RuntimeOptions → Option Error
  pub set_volume : Option Error
  pub set_runtime : Option Error
  pub write_create : Option Error
  pub crud : Crud
  pub timeout : ℤ
  pub driver_timeout : ℕ
  pub mount_rounds : List (Round S)
  pub snapshot_rounds : List (Round S)

pub data CreateReply : Type 0 where
  created : Volume → CreateReply
  http_error : Error → CreateReply
  panicked : CreateReply

-- The comparison of an error with the variables `errors.Exists` and `errors.NoActionTaken`.
abbrev pub is_exists_error : Error → Bool
is_exists_error (errored (exists ∷ [])) = true
is_exists_error _ = false

abbrev pub is_no_action : Error → Bool
is_no_action (errored (no_action_taken ∷ [])) = true
is_no_action _ = false

abbrev pub name_of : Volume → Text
name_of v = full_name v.policy_name v.volume_name

module _ (from_human_size : Text → Result ℕ) {S : Type 0} (q : CreateRequest S) where
  -- `PublishVolumeRuntime`.
  abbrev publish_runtime : Volume → World → Result (Unit {0}) × World
  publish_runtime v w = elim (q.runtime_schema v.runtime_options) [
    | some e ↦ (err (combine (json_validation ∷ []) e), w)
    | none ↦ elim q.set_runtime [
      | some e ↦ (err (etcd_to_errored e), w)
      | none ↦
          (ok tt, record w { runtimes = update w.runtimes (name_of v) (some v.runtime_options) })
    ]
  ]

  -- Every error of the write is reported as Exists: a key that is there, or another.
  abbrev publish_new : Volume → World → Option Volume → Result (Unit {0}) × World
  publish_new v w (some old) = (err (sentinel exists), w)
  publish_new v w none = elim q.set_volume [
    | some e ↦ (err (sentinel exists), w)
    | none ↦ publish_runtime v (record w { volumes = update w.volumes (name_of v) (some v) })
  ]

  -- `Validate` of a volume.
  abbrev pub validate : Volume → Result (Unit {0})
  validate v = elim (q.volume_schema v) [
    | some e ↦ err (combine (json_validation ∷ []) e)
    | none ↦ validate_backends from_human_size v
  ]

  -- `PublishVolume`.
  unfoldable pub publish : Volume → World → Result (Unit {0}) × World
  publish v w = elim (validate v) [
    | ok u ↦ publish_new v w (w.volumes (name_of v))
    | err e ↦ (err e, w)
    | panic ↦ (panic, w)
  ]

  abbrev publish_error : Error → Error
  publish_error (errored fs) = errored fs
  publish_error (plain f) = combine (publish_volume ∷ []) (plain f)

  abbrev write : Volume → Result Volume
  write v = elim q.write_create [ none ↦ ok v | some e ↦ err e ]

  abbrev published : Volume → Result (Unit {0}) × World → Result Volume × World
  published v (ok u, w) = (write v, w)
  published v (err e, w) = if is_exists_error e then (write v, w) else (err (publish_error e), w)
  published v (panic, w) = (panic, w)

  abbrev called : {A : Type 0} → Run A → World → World
  called r w = record w { calls = w.calls ++ r.0 }

  -- A failed destruction is only logged: the error is that of the formatting.
  abbrev cleaned_up : Error → Run (Unit {0}) → World → Result Volume × World
  cleaned_up e (calls, panic) w = (panic, record w { calls = w.calls ++ calls })
  cleaned_up e (calls, ok u) w =
      (err (combine (format_volume ∷ []) e), record w { calls = w.calls ++ calls })
  cleaned_up e (calls, err e') w =
      (err (combine (format_volume ∷ []) e), record w { calls = w.calls ++ calls })

  abbrev formatted : Volume → Run (Unit {0}) → World → Result Volume × World
  formatted v (calls, ok u) w =
      let w' : World = record w { calls = w.calls ++ calls } in published v (publish v w')
  formatted v (calls, err e) w =
      cleaned_up e (remove_volume from_human_size q.crud v q.driver_timeout)
        (record w { calls = w.calls ++ calls })
  formatted v (calls, panic) w = (panic, record w { calls = w.calls ++ calls })

  abbrev made : Volume → Run DriverOptions → World → Result Volume × World
  made v (calls, ok o) w =
      formatted v (Control.format_volume from_human_size q.crud v o)
        (record w { calls = w.calls ++ calls })
  made v (calls, err e) w =
      let w' : World = record w { calls = w.calls ++ calls } in
      if is_no_action e
      then published v (publish v w')
      else (err (combine (create_volume ∷ []) e), w')
  made v (calls, panic) w = (panic, record w { calls = w.calls ++ calls })

  -- The function that `createVolume` returns: `ok` with the volume when the reply was written.
  unfoldable pub create_body : Option Options → World → Result Volume × World
  create_body file_systems w = elim q.config_volume [
    | ok v ↦ made v (Control.create_volume from_human_size q.crud file_systems v q.driver_timeout) w
    | err e ↦ (err e, w)
    | panic ↦ (panic, w)
  ]

-- `lock.ReasonCreate`.
abbrev pub mount_lock : Text → Text → UseLocker
mount_lock volume hostname = use_mount volume hostname (codes "Create")

abbrev pub snapshot_lock : Text → UseLocker
snapshot_lock volume = use_snapshot volume (codes "Create")

module _ (prefix : Text) (kv : Etcd UseLocker) (from_human_size : Text → Result ℕ) where
  open kv use {Store}

  abbrev pub schedule : CreateRequest Store → Text → Text → Schedule prefix kv
  schedule q volume hostname =
      (mount_lock volume hostname, q.mount_rounds) ∷ (snapshot_lock volume, q.snapshot_rounds) ∷ []

  -- A body that panics is not followed by the release.
  abbrev pub locked :
      CreateRequest Store → Schedule prefix kv → Result Volume → Store → Progress Store
  locked q l (ok v) s = execute_with_multi_use_lock prefix kv l q.timeout (λ t. (none, t)) s
  locked q l (err e) s = execute_with_multi_use_lock prefix kv l q.timeout (λ t. (some e, t)) s
  locked q l panic s = acquire_all prefix kv l q.timeout s

  abbrev pub on_error : Error → Option CreateReply
  on_error e =
      if is_exists_error e then none else some (http_error (combine (create_volume ∷ []) e))

  abbrev pub reply : Result Volume → Progress Store → Option CreateReply × Store
  reply r (waiting s) = (none, s)
  reply r (returned (some e) s) = (on_error e, s)
  reply (ok v) (returned none s) = (some (created v), s)
  reply (err e) (returned none s) = (none, s)
  reply panic (returned none s) = (some panicked, s)

  -- The body runs only when both locks were acquired.
  abbrev pub world_after : Progress Store → World → World → World
  world_after (returned none s) before after = after
  world_after (returned (some e) s) before after = before
  world_after (waiting s) before after = before

  abbrev pub create_locked :
      CreateRequest Store
      → Schedule prefix kv
      → Option Options
      → Store
      → World
      → Option CreateReply × Store × World
  create_locked q l file_systems s w =
      let (r, after) = create_body from_human_size q file_systems w in
      let (answer, s') = reply r (locked q l r s) in
      (answer, s', world_after (acquire_all prefix kv l q.timeout s) w after)

  abbrev pub create_on :
      CreateRequest Store → VolumeName → Store → World → Option CreateReply × Store × World
  create_on q uc s w = elim q.hostname [
    | ok h ↦ elim q.policy [
      | ok p ↦ create_locked q (schedule q (full_name uc.policy uc.name) h) p.file_systems s w
      | err e ↦ (some (http_error (combine (get_policy ∷ message ∷ []) e)), s, w)
      | panic ↦ (some panicked, s, w)
    ]
    | err e ↦ (some (http_error (combine (get_hostname ∷ []) e)), s, w)
    | panic ↦ (some panicked, s, w)
  ]

  -- `Create`.
  unfoldable pub create : CreateRequest Store → Store → World → Option CreateReply × Store × World
  create q s w = elim q.body [
    | ok uc ↦ elim (w.volumes (full_name uc.policy uc.name)) [
      | some v ↦ (some (http_error (sentinel exists)), s, w)
      | none ↦ create_on q uc s w
    ]
    | err e ↦ (some (http_error e), s, w)
    | panic ↦ (some panicked, s, w)
  ]
