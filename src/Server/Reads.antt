-- ===== src/Server/Reads.antt =====
-- The handlers of volumes and of the global configuration that read or write one value.
use volplugin.Base.{ℕ, Option, none, some, List, [], ◌∷◌, Text, split_two, if◌then◌else◌}
use volplugin.Errors.{
  Result, ok, err, panic, Error, ◌>>=◌, ◌>>◌, wrap, combine, sentinel, message, contains,
  is_not_exists, get_volume, marshal_response, list_volume, invalid_volume, get_mount,
  unmarshal_runtime, publish_runtime, snapshots_unsupported, get_driver, list_snapshots,
  snapshot_failed, unmarshal_global, publish_global, marshal_global, unmarshal_request,
}
use volplugin.Etcd.{Etcd}
use volplugin.Config.Types.{Volume, RuntimeOptions, BackendDrivers}
use volplugin.Config.Volume.{full_name}
use volplugin.Config.Use.{UseLocker, get_use}
use volplugin.Storage.Driver.{DriverOptions, new_ceph_driver}
use volplugin.Storage.Name.{is_empty}
use volplugin.Server.Defs.{
  http_error, status, panicked, Reply, VolumeRequest, unmarshal_volume_request,
}
use volplugin.Server.Policies.{respond, acknowledge, nil_or, decoded}

-- `handleGlobalUpload` and `handleGlobal`.
unfoldable pub handle_global_upload {ℓ} :
    {G : Type ℓ} → Result Text → (Text → Result G) → (G → Option Error) → Reply Text
handle_global_upload read decode publish =
    acknowledge
      (decoded read decode unmarshal_global >>= λ g. wrap publish_global (nil_or (publish g)))

unfoldable pub handle_global : Result Text → Reply Text
handle_global published = respond (wrap marshal_global published)

module _ (marshal : Volume → Result Text) (get : Text → Text → Result Volume) where
  abbrev found : Result Volume → Reply Text
  found (ok v) = respond (wrap marshal_response (marshal v))
  found (err e) =
      if contains is_not_exists e
      then status 404 ∷ []
      else http_error (combine (get_volume ∷ []) e) ∷ []
  found panic = panicked ∷ []

  -- `handleGet` and `handleRequest`.
  unfoldable pub handle_get : Text → Text → Reply Text
  handle_get policy name = found (get policy name)

  unfoldable pub handle_request : Result Text → (Text → Result VolumeRequest) → Reply Text
  unfolding unmarshal_volume_request
  handle_request read decode = elim (unmarshal_volume_request read decode) [
    | ok q ↦ found (get q.policy q.name)
    | err e ↦ http_error (combine (unmarshal_request ∷ []) e) ∷ []
    | panic ↦ panicked ∷ []
  ]

  abbrev get_parts : List Text → Result Volume
  get_parts (policy ∷ name ∷ []) = wrap list_volume (get policy name)
  get_parts _ = err (combine (invalid_volume ∷ []) (sentinel message))

  -- The loop of `handleList` and `handleListAll`: the first failure ends it.
  unfoldable pub volumes_named : List Text → Result (List Volume)
  unfolding split_two
  volumes_named [] = ok []
  volumes_named (vol ∷ vols) = do
    v ← get_parts (split_two 0x2f vol)
    vs ← volumes_named vols
    ok (v ∷ vs)

  -- `handleListAll`, and `handleList`, whose policy is not used.
  unfoldable pub handle_list_all : Result (List Text) → (List Volume → Result Text) → Reply Text
  handle_list_all listed marshal_all = respond (
      wrap list_volume listed >>= λ vols.
      volumes_named vols >>= λ vs. wrap list_volume (marshal_all vs))

  unfoldable pub handle_list : Text → Result (List Text) → (List Volume → Result Text) → Reply Text
  handle_list policy listed marshal_all = respond (
      wrap list_volume listed >>= λ vols.
      volumes_named vols >>= λ vs. wrap marshal_response (marshal_all vs))

  -- `handleRuntimeUpload`: the volume is read before the body.
  unfoldable pub handle_runtime_upload :
      Text
      → Text
      → Result Text
      → (Text → Result RuntimeOptions)
      → (Volume → RuntimeOptions → Option Error)
      → Reply Text
  handle_runtime_upload policy name read decode publish = acknowledge (
      wrap get_volume (get policy name) >>= λ v.
      decoded read decode unmarshal_runtime >>= λ r. wrap publish_runtime (nil_or (publish v r)))

  abbrev snapshots_of :
      Option BackendDrivers → Volume → ℕ → (DriverOptions → Result (List Text)) → Result (List Text)
  snapshots_of none v timeout list = panic
  snapshots_of (some b) v timeout list =
      if is_empty b.snapshot
      then err (combine (snapshots_unsupported ∷ []) (sentinel message))
      else (do
        wrap get_driver (new_ceph_driver b.snapshot)
        wrap list_snapshots (
            list (record {
              source = [];
              volume = record {
                name = full_name v.policy_name v.volume_name;
                size = 0;
                params = v.driver_options;
              };
              fs_options = record { type = []; create_command = [] };
              timeout = timeout;
            })))

  -- `handleSnapshotList`.
  unfoldable pub handle_snapshot_list :
      Text
      → Text
      → ℕ
      → (DriverOptions → Result (List Text))
      → (List Text → Result Text)
      → Reply Text
  handle_snapshot_list policy name timeout list marshal_all = respond (
      wrap get_volume (get policy name) >>= λ v.
      snapshots_of v.backends v timeout list >>= λ names. wrap marshal_response (marshal_all names))

-- `handleRuntime`.
unfoldable pub handle_runtime : Result RuntimeOptions → (RuntimeOptions → Result Text) → Reply Text
handle_runtime read marshal =
    respond (wrap get_volume read >>= λ r. wrap marshal_response (marshal r))

-- `handleSnapshotTake`, with what `TakeSnapshot` answers for the name.
unfoldable pub handle_snapshot_take : Text → Text → (Text → Option Error) → Reply Text
handle_snapshot_take policy volume take =
    acknowledge (wrap snapshot_failed (nil_or (take (full_name policy volume))))

-- `handleUserEndpoints`, for the type of lock that its two callers ask for.
unfoldable pub handle_user_endpoints :
    (prefix : Text) (kv : Etcd UseLocker)
    → (UseLocker → Result Text)
    → (type : Text) → Text
    → Text
    → kv.Store
    → Reply Text
handle_user_endpoints prefix kv marshal type policy volume s = respond (
    wrap get_mount (get_use prefix kv s type (full_name policy volume)) >>= λ ul.
    wrap marshal_response (marshal ul))
