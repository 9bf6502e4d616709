-- ===== src/Server/Remove.antt =====
-- `handleRemove`, `handleForceRemoveLock`, `handleRemoveForce` and what they call.
use volplugin.Base.{
  ℕ, Bool, true, false, Option, none, some, List, [], ◌∷◌, ◌++◌, Text, codes, ℤ, pos_part, text_eq,
  update, if◌then◌else◌,
}
use volplugin.Errors.{
  Result, ok, err, panic, Error, combine, sentinel, message, unmarshal_request, remove_volume,
  get_volume, get_hostname, clear_volume, not_exists,
}
use volplugin.Etcd.{Etcd}
use volplugin.Config.Types.{Volume}
use volplugin.Config.Volume.{full_name}
use volplugin.Config.Use.{UseLocker, use_mount, use_snapshot, remove_use}
use volplugin.Lock.{
  Round, Progress, returned, waiting, Schedule, acquire_all, execute_with_multi_use_lock,
}
use volplugin.Storage.Control
use volplugin.Storage.Control.{Crud, CrudCall, Run, exists_volume}
use volplugin.Storage.Name.{is_empty}
use volplugin.Api.Create.{World, name_of, is_no_action}
use volplugin.Server.Defs.{
  http_error, status, panicked, Reply, VolumeRequest, option_of, unmarshal_volume_request,
  is_missing_error,
}

-- What the surroundings answer, where it can depend on what was done before.
pub record RemoveRequest (S : Type 0) : Type 0 where
  pub read : Result Text
  pub decode : Text → Result VolumeRequest
  pub parse_duration : Text → Result ℤ
  pub config_volume : Result Volume
  pub hostname : Result Text
  pub crud : World → Crud
  pub delete : World → Option Error
  pub timeout : ℤ
  pub mount_rounds : List (Round S)
  pub snapshot_rounds : List (Round S)

abbrev pub Done : Type 0
Done = Result (Unit {0})

abbrev pub logged : World → List CrudCall → World
logged w calls = record w { calls = w.calls ++ calls }

-- The name that a request has for its volume.
abbrev pub requested_name : VolumeRequest → Text
requested_name req = full_name req.policy req.name

module _ (from_human_size : Text → Result ℕ) {S : Type 0} (q : RemoveRequest S)
    (req : VolumeRequest) where
  -- `RemoveVolume` of package config: the directory of the volume, with all that is in it.
  abbrev pub delete_volume : World → Option Error × World
  delete_volume w = elim (q.delete w) [
    | some e ↦ (some e, w)
    | none ↦ (
      none,
      record w {
        volumes = update w.volumes (requested_name req) none;
        runtimes = update w.runtimes (requested_name req) none;
      },
    )
  ]

  abbrev cleared : Option Error × World → Done × World
  cleared (none, w) = (ok tt, w)
  cleared (some e, w) = (err (combine (clear_volume ∷ message ∷ []) e), w)

  -- `removeVolume`.
  unfoldable pub remove_volume_entry : Volume → World → Done × World
  remove_volume_entry vc w = cleared (delete_volume w)

  abbrev removed_image : Volume → World → Run (Unit {0}) → Done × World
  removed_image vc w (calls, panic) = (panic, logged w calls)
  removed_image vc w (calls, ok u) = remove_volume_entry vc (logged w calls)
  removed_image vc w (calls, err e) = remove_volume_entry vc (logged w calls)

  -- `completeRemove`: an error of the driver is only logged.
  unfoldable pub complete_remove : Volume → World → Done × World
  unfolding remove_volume_entry
  complete_remove vc w =
      removed_image vc w (Control.remove_volume from_human_size (q.crud w) vc (pos_part q.timeout))

  abbrev missing : Done × World → Done × World
  missing (panic, w) = (panic, w)
  missing (ok u, w) = (err (sentinel not_exists), w)
  missing (err e, w) = (err (sentinel not_exists), w)

  abbrev by_existence : Volume → World → Run Bool → Done × World
  by_existence vc w (calls, ok true) = complete_remove vc (logged w calls)
  by_existence vc w (calls, ok false) = missing (remove_volume_entry vc (logged w calls))
  by_existence vc w (calls, err e) =
      if is_no_action e then complete_remove vc (logged w calls) else (err e, logged w calls)
  by_existence vc w (calls, panic) = (panic, logged w calls)

  -- The function that `handleRemove` runs under the locks.
  unfoldable pub remove_body : ℤ → Volume → World → Done × World
  unfolding complete_remove remove_volume_entry
  remove_body timeout vc w =
      by_existence vc w (exists_volume from_human_size (q.crud w) vc (pos_part timeout))

abbrev remove_error : Error → Error
remove_error e = combine (remove_volume ∷ message ∷ []) e

abbrev pub failure_reply : Error → Reply (Unit {0})
failure_reply e = if is_missing_error e then status 404 ∷ [] else http_error (remove_error e) ∷ []

abbrev pub remove_mount_lock : Volume → Text → UseLocker
remove_mount_lock vc hostname = use_mount (name_of vc) hostname (codes "Remove")

abbrev pub remove_snapshot_lock : Volume → UseLocker
remove_snapshot_lock vc = use_snapshot (name_of vc) (codes "Remove")

module _ (prefix : Text) (kv : Etcd UseLocker) (from_human_size : Text → Result ℕ) where
  open kv use {Store}

  -- `removeVolumeUse`: an error is only logged.
  abbrev pub remove_volume_use : UseLocker → Store → Store
  remove_volume_use uc s = (remove_use prefix kv s uc true).1

  abbrev freed : Error → UseLocker → Done × World → Store → Done × Store × World
  freed e uc (ok u, w) s = (err (remove_error e), remove_volume_use uc s, w)
  freed e uc (err x, w) s = (err x, s, w)
  freed e uc (panic, w) s = (panic, s, w)

  abbrev forced : UseLocker → Done × World → Store → Done × Store × World
  forced uc (ok u, w) s = (ok tt, remove_volume_use uc s, w)
  forced uc (err x, w) s = (err (remove_error (sentinel not_exists)), s, w)
  forced uc (panic, w) s = (panic, s, w)

  abbrev refused : Done × World → Store → Done × Store × World
  refused (panic, w) s = (panic, s, w)
  refused (ok u, w) s = (err (remove_error (sentinel not_exists)), s, w)
  refused (err x, w) s = (err (remove_error (sentinel not_exists)), s, w)

  abbrev force_by :
      RemoveRequest Store
      → VolumeRequest
      → Volume
      → UseLocker
      → Store
      → World
      → Run Bool
      → Done × Store × World
  force_by q req vc uc s w (calls, ok true) =
      forced uc (complete_remove from_human_size q req vc (logged w calls)) s
  force_by q req vc uc s w (calls, ok false) =
      refused (remove_volume_entry from_human_size q req vc (logged w calls)) s
  force_by q req vc uc s w (calls, err e) =
      if is_no_action e
      then freed e uc (complete_remove from_human_size q req vc (logged w calls)) s
      else (err (remove_error e), s, logged w calls)
  force_by q req vc uc s w (calls, panic) = (panic, s, logged w calls)

  -- `handleForceRemoveLock`, with the first of the locks.
  unfoldable pub force_remove_lock :
      RemoveRequest Store
      → VolumeRequest
      → Volume
      → UseLocker
      → Store
      → World
      → Done × Store × World
  force_remove_lock q req vc uc s w =
      force_by q req vc uc s w (exists_volume from_human_size (q.crud w) vc (pos_part q.timeout))

  abbrev pub remove_schedule : RemoveRequest Store → Volume → Text → Schedule prefix kv
  remove_schedule q vc hostname =
      (remove_mount_lock vc hostname, q.mount_rounds)
      ∷ (remove_snapshot_lock vc, q.snapshot_rounds)
      ∷ []

  -- A body that panics is not followed by the release.
  abbrev pub under_locks : Schedule prefix kv → ℤ → Done → Store → Progress Store
  under_locks l timeout (ok u) s =
      execute_with_multi_use_lock prefix kv l timeout (λ t. (none, t)) s
  under_locks l timeout (err e) s =
      execute_with_multi_use_lock prefix kv l timeout (λ t. (some e, t)) s
  under_locks l timeout panic s = acquire_all prefix kv l timeout s

  abbrev pub remove_reply : Done → Progress Store → Option (Reply (Unit {0})) × Store
  remove_reply r (waiting s) = (none, s)
  remove_reply r (returned (some e) s) = (some (failure_reply e), s)
  remove_reply (ok u) (returned none s) = (some [], s)
  remove_reply (err e) (returned none s) = (some [], s)
  remove_reply panic (returned none s) = (some (panicked ∷ []), s)

  -- The body runs only when both locks were acquired.
  abbrev pub remove_world : Progress Store → World → World → World
  remove_world (returned none s) before after = after
  remove_world (returned (some e) s) before after = before
  remove_world (waiting s) before after = before

  abbrev pub Answered : Type 0
  Answered = Option (Reply (Unit {0})) × Store × World

  abbrev pub remove_locked :
      RemoveRequest Store → VolumeRequest → Volume → Text → ℤ → Store → World → Answered
  remove_locked q req vc hostname timeout s w =
      let l = remove_schedule q vc hostname in
      let (r, after) = remove_body from_human_size q req timeout vc w in
      let (answer, s') = remove_reply r (under_locks l timeout r s) in
      (answer, s', remove_world (acquire_all prefix kv l timeout s) w after)

  -- A removal that was forced goes on to the locks.
  abbrev after_force :
      RemoveRequest Store → VolumeRequest → Volume → Text → ℤ → Done × Store × World → Answered
  after_force q req vc hostname timeout (ok u, s, w) = remove_locked q req vc hostname timeout s w
  after_force q req vc hostname timeout (err e, s, w) = (some (http_error e ∷ []), s, w)
  after_force q req vc hostname timeout (panic, s, w) = (some (panicked ∷ []), s, w)

  abbrev remove_with : RemoveRequest Store → VolumeRequest → ℤ → Store → World → Answered
  remove_with q req timeout s w = elim q.config_volume [
    | err e ↦ (some (http_error (combine (get_volume ∷ []) e) ∷ []), s, w)
    | panic ↦ (some (panicked ∷ []), s, w)
    | ok vc ↦ elim q.hostname [
      | err e ↦ (some (http_error (combine (get_hostname ∷ []) e) ∷ []), s, w)
      | panic ↦ (some (panicked ∷ []), s, w)
      | ok h ↦
          if text_eq (option_of req (codes "force")) (codes "true")
          then after_force q req vc h timeout
              (force_remove_lock q req vc (remove_mount_lock vc h) s w)
          else remove_locked q req vc h timeout s w
    ]
  ]

  -- The timeout of the request, or that of the process.
  abbrev pub timeout_of : RemoveRequest Store → VolumeRequest → Result ℤ
  timeout_of q req =
      if is_empty (option_of req (codes "timeout"))
      then ok q.timeout
      else q.parse_duration (option_of req (codes "timeout"))

  -- `handleRemove`.
  unfoldable pub handle_remove : RemoveRequest Store → Store → World → Answered
  unfolding unmarshal_volume_request
  handle_remove q s w = elim (unmarshal_volume_request q.read q.decode) [
    | err e ↦ (some (http_error (combine (unmarshal_request ∷ []) e) ∷ []), s, w)
    | panic ↦ (some (panicked ∷ []), s, w)
    | ok req ↦ elim (timeout_of q req) [
      | err e ↦ (some (http_error (combine (remove_volume ∷ []) e) ∷ []), s, w)
      | panic ↦ (some (panicked ∷ []), s, w)
      | ok t ↦ remove_with q req t s w
    ]
  ]

-- `handleRemoveForce`, with what `RemoveVolume` answers.
abbrev entry_removed : Option Error → Reply (Unit {0})
entry_removed none = []
entry_removed (some e) = failure_reply e

unfoldable pub handle_remove_force :
    Result Text → (Text → Result VolumeRequest) → (VolumeRequest → Option Error) → Reply (Unit {0})
unfolding unmarshal_volume_request
handle_remove_force read decode remove = elim (unmarshal_volume_request read decode) [
  | err e ↦ http_error (combine (unmarshal_request ∷ []) e) ∷ []
  | panic ↦ panicked ∷ []
  | ok req ↦ entry_removed (remove req)
]
