-- ===== src/Server/Copied.antt =====
-- What a copy leaves in the intent store, and its three locks.
use volplugin.Base.{
  ℕ, ◌≡◌, ◌≢◌, refl, ap, false, Option, none, some, [], ◌∷◌, ◌++◌, Text, codes, All, arith, text_eq,
  text_eq_refl, contains_byte,
}
use volplugin.Errors.{Result, ok, err, panic, Error}
use volplugin.Etcd.{Etcd}
use volplugin.Config.Types.{Volume, BackendDrivers}
use volplugin.Config.Volume.{full_name}
use volplugin.Config.Use.{UseLocker, use_mount, use_snapshot, use_type, get_volume}
use volplugin.Config.Use.Keys.{lock_key_injective}
use volplugin.Lock.{Schedule, returned, acquire_all, lockers}
use volplugin.Lock.Multi.{IsFree, Owns, Differs, AllDiffer, execute_with_multi_use_lock_releases}
use volplugin.Storage.Control.{lookup}
use volplugin.Api.Create.{name_of, publish, validate}
use volplugin.Server.Defs.{http_error, panicked, Reply, VolumeRequest, unmarshal_volume_request}
use volplugin.Server.Copy.{
  CopyRequest, CopyWorld, call_of, target_of, copy_body, copy_error, handle_copy, copy_locked,
  copy_schedule, copy_reply, copy_world, under_locks, marshaled, renamed,
}

abbrev pub result_of : Option Error → Result (Unit {0})
result_of none = ok tt
result_of (some e) = err e

module _ (from_human_size : Text → Result ℕ) {S : Type 0} (q : CopyRequest S) (req : VolumeRequest)
    (vc new : Volume) (valid : validate from_human_size q.store new ≡ ok tt)
    (schema : q.store.runtime_schema new.runtime_options ≡ none) (set : q.store.set_volume ≡ none)
    (set_runtime : q.store.set_runtime ≡ none) where
  pub copy_body_publishes :
      (w : CopyWorld) (a : Option Error)
      → q.copy (call_of req vc new) ≡ a
      → w.world.volumes (name_of new) ≡ none
      → let (r, w') = copy_body from_human_size q req vc new w in
        (r ≡ result_of a)
        × (w'.world.volumes (name_of new) ≡ some new)
        × (w'.world.runtimes (name_of new) ≡ some new.runtime_options)
        × (w'.copies ≡ w.copies ++ call_of req vc new ∷ [])
  unfolding copy_body publish
  copy_body_publishes w none copying fresh =
      ground (arith, valid, schema, set, set_runtime, copying, fresh, text_eq_refl (name_of new))
  copy_body_publishes w (some e) copying fresh =
      ground (arith, valid, schema, set, set_runtime, copying, fresh, text_eq_refl (name_of new))

same_volume : (p v t : Text) → full_name p v ≡ full_name p t → v ≡ t
unfolding full_name
same_volume [] v t e = ground (arith, e)
same_volume (c ∷ p) v t e = same_volume p v t (ground (arith, e))

module _ (prefix : Text) (kv : Etcd UseLocker) where
  -- A mount and the snapshots have different keys, and so have the snapshots of different volumes.
  mount_Differs : (v w h r t : Text) → Differs prefix kv (use_mount v h r) (use_snapshot w t)
  unfolding use_type
  mount_Differs v w h r t e = ground (arith, lock_key_injective prefix _ _ e)

  snapshot_Differs :
      (v w r t : Text) → v ≢ w → Differs prefix kv (use_snapshot v r) (use_snapshot w t)
  unfolding use_type get_volume
  snapshot_Differs v w r t ne e =
      ne (lock_key_injective prefix (use_snapshot v r) (use_snapshot w t) e).1

-- A copy that is asked for with a request, of a volume that can be copied.
module _ (prefix : Text) (kv : Etcd UseLocker) (from_human_size : Text → Result ℕ)
    (q : CopyRequest (kv.Store)) (req : VolumeRequest) (vc : Volume) (backends : BackendDrivers)
    (hostname : Text) (requested : unmarshal_volume_request q.read q.decode ≡ ok req)
    (read : q.first_read ≡ ok vc) (read_again : q.second_read ≡ ok vc)
    (hosted : q.hostname ≡ ok hostname) where
  open kv use {Store}

  abbrev pub new : Volume
  new = renamed prefix kv from_human_size vc req

  abbrev pub copy_locks : Schedule prefix kv
  copy_locks = copy_schedule prefix kv from_human_size q vc new hostname

  -- The options are there, the target is a name of one part, and it is another volume's.
  pub record IsAllowed : Type 0 where
    pub snapshot : (s : Text) × (lookup req.options (codes "snapshot") ≡ some s)
    pub target : lookup req.options (codes "target") ≡ some (target_of req)
    pub one_part : contains_byte 0x2f (target_of req) ≡ false
    pub backed : vc.backends ≡ some backends
    pub driven : backends.snapshot ≡ codes "ceph"
    pub other : text_eq vc.volume_name (target_of req) ≡ false

  allowed_copy :
      (s : Store) (w : CopyWorld)
      → IsAllowed
      → handle_copy prefix kv from_human_size q s w
        ≡ copy_locked prefix kv from_human_size q req vc new hostname s w
  unfolding handle_copy
  allowed_copy s w a = ground (
    arith, requested, read, read_again, hosted, a.snapshot.1, a.target, a.one_part, a.backed,
    a.driven, a.other,
  )

  copy_differ : IsAllowed → AllDiffer prefix kv (lockers prefix kv copy_locks)
  unfolding full_name
  copy_differ a =
      let ne : name_of new ≢ name_of vc = λ e. cc (
        a.other,
        text_eq_refl (target_of req),
        same_volume vc.policy_name (target_of req) vc.volume_name e,
      ) in
      (
        (
          mount_Differs prefix kv (name_of new) (name_of new) hostname (codes "Copy")
              (codes "Copy"),
          (
            mount_Differs prefix kv (name_of new) (name_of vc) hostname (codes "Copy")
                (codes "Copy"),
            tt,
          ),
        ),
        (
          (
            snapshot_Differs prefix kv (name_of new) (name_of vc) (codes "Copy") (codes "Copy") ne,
            tt,
          ),
          (tt, tt),
        ),
      )

  -- What the handler replies to the two ends of the body.
  abbrev pub reply_of : Result (Unit {0}) → Option (Reply Volume)
  reply_of (ok u) = some (marshaled prefix kv from_human_size q.marshal new)
  reply_of (err e) = some (http_error (copy_error e) ∷ [])
  reply_of panic = some (panicked ∷ [])

  copy_frees :
      (s s' : Store) (r : Result (Unit {0}))
      → IsAllowed
      → acquire_all prefix kv copy_locks q.timeout s ≡ returned none s'
      → All (Owns prefix kv s') (lockers prefix kv copy_locks)
      → r ≢ panic
      → let (answer, t) =
          copy_reply prefix kv from_human_size q new r
            (under_locks prefix kv from_human_size copy_locks q.timeout r s) in
        (answer ≡ reply_of r) × All (IsFree prefix kv t) (lockers prefix kv copy_locks)
  copy_frees s s' (ok u) a got owns calm =
      let (t, back, free) =
        execute_with_multi_use_lock_releases prefix kv copy_locks q.timeout (λ t. (none, t)) s s'
          got (copy_differ a) owns in
      rw back (refl, free)
  copy_frees s s' (err e) a got owns calm =
      let (t, back, free) =
        execute_with_multi_use_lock_releases prefix kv copy_locks q.timeout (λ t. (some e, t)) s s'
          got (copy_differ a) owns in
      rw back (refl, free)
  copy_frees s s' panic a got owns calm = absurd (calm refl)

  -- A copy that is allowed, whose volume is read alike both times, and which acquires its three locks,
  -- whose body does not panic, leaves the world as its body does and the three locks free. The reply is
  -- the new volume, if the body has no error and the encoding none, and otherwise the error.
  pub copy_releases :
      (s s' : Store) (w : CopyWorld)
      → IsAllowed
      → acquire_all prefix kv
          (copy_schedule prefix kv from_human_size q vc new hostname)
          q.timeout
          s
        ≡ returned none s'
      → All (Owns prefix kv s') (lockers prefix kv copy_locks)
      → (copy_body from_human_size q req vc new w).0 ≢ panic
      → let (answer, t, w') = handle_copy prefix kv from_human_size q s w in
        (answer ≡ reply_of (copy_body from_human_size q req vc new w).0)
        × (w' ≡ (copy_body from_human_size q req vc new w).1)
        × All (IsFree prefix kv t) (lockers prefix kv copy_locks)
  copy_releases s s' w a got owns calm =
      let (answered, free) =
        copy_frees s s' (copy_body from_human_size q req vc new w).0 a got owns calm in
      rw (allowed_copy s w a) (
        answered,
        ap
            (λ p.
              copy_world prefix kv from_human_size p w (copy_body from_human_size q req vc new w).1)
            got,
        free,
      )
