-- ===== src/Server/Copy.antt =====
-- `handleCopy`: a volume is made of a snapshot of another.
use volplugin.Base.{
  ℕ, Bool, true, false, Option, none, some, List, [], ◌∷◌, ◌++◌, Text, codes, ℤ, text_eq,
  contains_byte, if◌then◌else◌,
}
use volplugin.Errors.{
  Result, ok, err, panic, Error, combine, sentinel, message, unmarshal_request, invalid_volume,
  missing_snapshot_option, missing_target_option, get_volume, snapshots_unsupported, get_driver,
  get_hostname, cannot_copy_volume, publish_volume,
}
use volplugin.Etcd.{Etcd}
use volplugin.Config.Types.{Volume, BackendDrivers}
use volplugin.Config.Use.{UseLocker, use_mount, use_snapshot}
use volplugin.Lock.{
  Round, Progress, returned, waiting, Schedule, acquire_all, execute_with_multi_use_lock,
}
use volplugin.Storage.Control.{lookup}
use volplugin.Storage.Driver.{new_ceph_driver}
use volplugin.Storage.Name.{is_empty}
use volplugin.Api.Create.{World, CreateRequest, name_of, publish}
use volplugin.Server.Defs.{
  http_error, content, empty_content, panicked, Reply, VolumeRequest, option_of,
  unmarshal_volume_request,
}

-- A call of `CopySnapshot`: the volume, its snapshot, and the name of the new volume.
pub record CopyCall : Type 0 where
  pub volume : Text
  pub snapshot : Text
  pub new_name : Text

pub record CopyWorld : Type 0 where
  pub world : World
  pub copies : List CopyCall

-- What the surroundings answer; `store` has the answers to the publication of the new volume. The
-- volume is read twice.
pub record CopyRequest (S : Type 0) : Type 0 where
  pub read : Result Text
  pub decode : Text → Result VolumeRequest
  pub first_read : Result Volume
  pub second_read : Result Volume
  pub hostname : Result Text
  pub store : CreateRequest S
  pub copy : CopyCall → Option Error
  pub marshal : Option Error
  pub timeout : ℤ
  pub new_mount_rounds : List (Round S)
  pub new_snapshot_rounds : List (Round S)
  pub snapshot_rounds : List (Round S)

abbrev pub Copied : Type 0
Copied = Result (Unit {0}) × CopyWorld

abbrev pub target_of : VolumeRequest → Text
target_of req = option_of req (codes "target")

abbrev pub call_of : VolumeRequest → Volume → Volume → CopyCall
call_of req vc new = record {
  volume = name_of vc;
  snapshot = option_of req (codes "snapshot");
  new_name = name_of new;
}

module _ (from_human_size : Text → Result ℕ) {S : Type 0} (q : CopyRequest S) where
  abbrev copied : CopyCall → CopyWorld → Copied
  copied c w =
      let w' : CopyWorld = record w { copies = w.copies ++ c ∷ [] } in
      elim (q.copy c) [ none ↦ (ok tt, w') | some e ↦ (err e, w') ]

  abbrev copy_published : CopyCall → List CopyCall → Result (Unit {0}) × World → Copied
  copy_published c copies (ok u, w) = copied c (record { world = w; copies = copies })
  copy_published c copies (err e, w) = (err e, record { world = w; copies = copies })
  copy_published c copies (panic, w) = (panic, record { world = w; copies = copies })

  -- The function under the locks: the new volume is published before the snapshot is copied.
  unfoldable pub copy_body : VolumeRequest → Volume → Volume → CopyWorld → Copied
  copy_body req vc new w =
      copy_published (call_of req vc new) w.copies (publish from_human_size q.store new w.world)

abbrev pub copy_error : Error → Error
copy_error e = combine (publish_volume ∷ message ∷ []) e

module _ (prefix : Text) (kv : Etcd UseLocker) (from_human_size : Text → Result ℕ) where
  open kv use {Store}

  abbrev pub Answered : Type 0
  Answered = Option (Reply Volume) × Store × CopyWorld

  -- The mount and the snapshots of the new volume, and the snapshots of the other.
  abbrev pub copy_schedule : CopyRequest Store → Volume → Volume → Text → Schedule prefix kv
  copy_schedule q vc new hostname =
      (use_mount (name_of new) hostname (codes "Copy"), q.new_mount_rounds)
      ∷ (use_snapshot (name_of new) (codes "Copy"), q.new_snapshot_rounds)
      ∷ (use_snapshot (name_of vc) (codes "Copy"), q.snapshot_rounds)
      ∷ []

  abbrev pub under_locks : Schedule prefix kv → ℤ → Result (Unit {0}) → Store → Progress Store
  under_locks l timeout (ok u) s =
      execute_with_multi_use_lock prefix kv l timeout (λ t. (none, t)) s
  under_locks l timeout (err e) s =
      execute_with_multi_use_lock prefix kv l timeout (λ t. (some e, t)) s
  under_locks l timeout panic s = acquire_all prefix kv l timeout s

  -- After an error of the encoding the empty content is written all the same.
  abbrev pub marshaled : Option Error → Volume → Reply Volume
  marshaled none new = content new ∷ []
  marshaled (some e) new = http_error (copy_error e) ∷ empty_content ∷ []

  abbrev pub copy_reply :
      CopyRequest Store
      → Volume
      → Result (Unit {0})
      → Progress Store
      → Option (Reply Volume) × Store
  copy_reply q new r (waiting s) = (none, s)
  copy_reply q new r (returned (some e) s) = (some (http_error (copy_error e) ∷ []), s)
  copy_reply q new (ok u) (returned none s) = (some (marshaled q.marshal new), s)
  copy_reply q new (err e) (returned none s) = (some (marshaled q.marshal new), s)
  copy_reply q new panic (returned none s) = (some (panicked ∷ []), s)

  abbrev pub copy_world : Progress Store → CopyWorld → CopyWorld → CopyWorld
  copy_world (returned none s) before after = after
  copy_world (returned (some e) s) before after = before
  copy_world (waiting s) before after = before

  abbrev pub copy_locked :
      CopyRequest Store → VolumeRequest → Volume → Volume → Text → Store → CopyWorld → Answered
  copy_locked q req vc new hostname s w =
      let l = copy_schedule q vc new hostname in
      let (r, after) = copy_body from_human_size q req vc new w in
      let (answer, s') = copy_reply q new r (under_locks l q.timeout r s) in
      (answer, s', copy_world (acquire_all prefix kv l q.timeout s) w after)

  abbrev refuse : Error → Store → CopyWorld → Answered
  refuse e s w = (some (http_error e ∷ []), s, w)

  abbrev crash : Store → CopyWorld → Answered
  crash s w = (some (panicked ∷ []), s, w)

  -- The new volume has the target's name.
  abbrev pub renamed : Volume → VolumeRequest → Volume
  renamed vc req = record vc { volume_name = target_of req }

  abbrev copy_named : CopyRequest Store → VolumeRequest → Volume → Store → CopyWorld → Answered
  copy_named q req vc s w = elim q.second_read [
    | err e ↦ refuse (combine (get_volume ∷ []) e) s w
    | panic ↦ crash s w
    | ok again ↦ elim q.hostname [
      | err e ↦ refuse (combine (get_hostname ∷ []) e) s w
      | panic ↦ crash s w
      | ok h ↦
          if text_eq vc.volume_name (target_of req)
          then refuse (combine (cannot_copy_volume ∷ []) (sentinel message)) s w
          else copy_locked q req vc (renamed again req) h s w
    ]
  ]

  abbrev copy_by :
      CopyRequest Store
      → VolumeRequest
      → Volume
      → Option BackendDrivers
      → Store
      → CopyWorld
      → Answered
  copy_by q req vc none s w = crash s w
  copy_by q req vc (some b) s w =
      if is_empty b.snapshot
      then refuse (combine (snapshots_unsupported ∷ []) (sentinel message)) s w
      else elim (new_ceph_driver b.snapshot) [
        | err e ↦ refuse (combine (get_driver ∷ []) e) s w
        | panic ↦ crash s w
        | ok d ↦ copy_named q req vc s w
      ]

  abbrev has_option : VolumeRequest → Text → Bool
  has_option req k = elim (lookup req.options k) [ none ↦ false | some v ↦ true ]

  abbrev copy_wanted : CopyRequest Store → VolumeRequest → Store → CopyWorld → Answered
  copy_wanted q req s w =
      if has_option req (codes "snapshot")
      then if has_option req (codes "target")
        then if contains_byte 0x2f (target_of req)
          then refuse (combine (invalid_volume ∷ []) (sentinel message)) s w
          else elim q.first_read [
            | err e ↦ refuse (combine (get_volume ∷ []) e) s w
            | panic ↦ crash s w
            | ok vc ↦ copy_by q req vc vc.backends s w
          ]
        else refuse (sentinel missing_target_option) s w
      else refuse (sentinel missing_snapshot_option) s w

  -- `handleCopy`.
  unfoldable pub handle_copy : CopyRequest Store → Store → CopyWorld → Answered
  unfolding unmarshal_volume_request new_ceph_driver
  handle_copy q s w = elim (unmarshal_volume_request q.read q.decode) [
    | err e ↦ refuse (combine (unmarshal_request ∷ []) e) s w
    | panic ↦ crash s w
    | ok req ↦ copy_wanted q req s w
  ]
