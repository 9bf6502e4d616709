-- ===== src/Server/RemoveLocks.antt =====
-- A removal and its two locks, and a removal that is forced.
use volplugin.Base.{
  ℕ, ◌≡◌, ◌≢◌, refl, ap, true, false, Option, none, some, [], ◌∷◌, Text, codes, All, arith, text_eq,
  ℤ, update_self,
}
use volplugin.Errors.{
  Result, ok, err, panic, Error, errored, combine, sentinel, lock_failed, not_exists, remove_volume,
  message,
}
use volplugin.Etcd.{Etcd}
use volplugin.Config.Types.{Volume}
use volplugin.Config.Use.{UseLocker, use_type}
use volplugin.Config.Use.Keys.{lock_key_injective}
use volplugin.Lock.{Schedule, returned, acquire_all, lockers, execute_with_multi_use_lock}
use volplugin.Lock.Multi.{IsFree, Owns, Differs, execute_with_multi_use_lock_releases}
use volplugin.Storage.Control
use volplugin.Storage.Control.{Crud, CrudCall, plain_options, crud_of, exists_volume}
use volplugin.Api.Create.{World}
use volplugin.Server.Defs.{
  http_error, status, panicked, Reply, VolumeRequest, option_of, unmarshal_volume_request,
}
use volplugin.Server.Removed.{
  asked, destroyed, after_question, after_destruction, without_entry, body_missing_twice,
}
use volplugin.Server.Remove.{
  RemoveRequest, Done, remove_body, complete_remove, remove_volume_entry, force_remove_lock,
  handle_remove, remove_mount_lock, remove_snapshot_lock, remove_schedule, under_locks,
  failure_reply, remove_reply, remove_world, remove_locked, remove_volume_use, timeout_of,
  requested_name,
}

-- The two locks of a removal are at different keys.
locks_differ :
    (prefix : Text) (kv : Etcd UseLocker) (vc : Volume) (hostname : Text)
    → Differs prefix kv (remove_mount_lock vc hostname) (remove_snapshot_lock vc)
unfolding use_type
locks_differ prefix kv vc hostname e = ground (arith, lock_key_injective prefix _ _ e)

-- A removal that is asked for with a request, of a volume that is in the intent store.
module _ (prefix : Text) (kv : Etcd UseLocker) (from_human_size : Text → Result ℕ)
    (q : RemoveRequest (kv.Store)) (req : VolumeRequest) (vc : Volume) (hostname : Text)
    (requested : unmarshal_volume_request q.read q.decode ≡ ok req) (timeout : ℤ)
    (timed : timeout_of prefix kv from_human_size q req ≡ ok timeout)
    (known : q.config_volume ≡ ok vc) (hosted : q.hostname ≡ ok hostname) where
  open kv use {Store}

  abbrev l : Schedule prefix kv
  l = remove_schedule prefix kv from_human_size q vc hostname

  abbrev body : World → Done × World
  body w = remove_body from_human_size q req timeout vc w

  -- What the handler replies to the two ends of the body.
  abbrev pub reply_of : Done → Option (Reply (Unit {0}))
  reply_of (ok u) = some []
  reply_of (err e) = some (failure_reply e)
  reply_of panic = some (panicked ∷ [])

  unforced :
      (s : Store) (w : World)
      → text_eq (option_of req (codes "force")) (codes "true") ≡ false
      → handle_remove prefix kv from_human_size q s w
        ≡ remove_locked prefix kv from_human_size q req vc hostname timeout s w
  unfolding handle_remove
  unforced s w plain = ground (arith, requested, timed, known, hosted, plain)

  -- A removal that is not forced, and that cannot acquire one of its locks, leaves the intent store and the
  -- driver alone, and its reply is the error of the lock.
  remove_excluded :
      (s s' : Store) (w : World)
      → text_eq (option_of req (codes "force")) (codes "true") ≡ false
      → acquire_all prefix kv (remove_schedule prefix kv from_human_size q vc hostname) timeout s
        ≡ returned (some (sentinel lock_failed)) s'
      → handle_remove prefix kv from_human_size q s w
        ≡ (some (http_error (errored (remove_volume ∷ message ∷ lock_failed ∷ [])) ∷ []), s', w)
  unfolding execute_with_multi_use_lock combine
  remove_excluded s s' w plain refused = ground (arith, unforced s w plain, refused)

  locked_frees :
      (s s' : Store) (r : Done)
      → acquire_all prefix kv l timeout s ≡ returned none s'
      → All (Owns prefix kv s') (lockers prefix kv l)
      → r ≢ panic
      → let (answer, t) =
          remove_reply prefix kv from_human_size r
            (under_locks prefix kv from_human_size l timeout r s) in
        (answer ≡ reply_of r) × All (IsFree prefix kv t) (lockers prefix kv l)
  locked_frees s s' (ok u) got owns calm =
      let (t, back, free) =
        execute_with_multi_use_lock_releases prefix kv l timeout (λ t. (none, t)) s s' got
          ((locks_differ prefix kv vc hostname, tt), (tt, tt)) owns in
      rw back (refl, free)
  locked_frees s s' (err e) got owns calm =
      let (t, back, free) =
        execute_with_multi_use_lock_releases prefix kv l timeout (λ t. (some e, t)) s s' got
          ((locks_differ prefix kv vc hostname, tt), (tt, tt)) owns in
      rw back (refl, free)
  locked_frees s s' panic got owns calm = absurd (calm refl)

  -- A removal of a volume that is in the intent store, which is not forced, whose option "timeout" is missing
  -- or can be parsed, which acquires both locks, and whose body does not panic, leaves the world as its body
  -- does and both locks free. It writes nothing if the body has no error, the status 404 if the error is that
  -- the volume does not exist, and the error otherwise.
  pub remove_releases :
      (s s' : Store) (w : World)
      → text_eq (option_of req (codes "force")) (codes "true") ≡ false
      → acquire_all prefix kv (remove_schedule prefix kv from_human_size q vc hostname) timeout s
        ≡ returned none s'
      → All (Owns prefix kv s') (remove_mount_lock vc hostname ∷ remove_snapshot_lock vc ∷ [])
      → (remove_body from_human_size q req timeout vc w).0 ≢ panic
      → let (answer, t, w') = handle_remove prefix kv from_human_size q s w in
        (answer ≡ reply_of (remove_body from_human_size q req timeout vc w).0)
        × (w' ≡ (remove_body from_human_size q req timeout vc w).1)
        × All (IsFree prefix kv t) (remove_mount_lock vc hostname ∷ remove_snapshot_lock vc ∷ [])
  remove_releases s s' w plain got owns calm =
      let (answered, free) = locked_frees s s' (body w).0 got owns calm in
      rw (unforced s w plain)
        (answered, ap (λ p. remove_world prefix kv from_human_size p w (body w).1) got, free)

  forced_on :
      (s s1 : Store) (w w1 : World)
      → text_eq (option_of req (codes "force")) (codes "true") ≡ true
      → force_remove_lock prefix kv from_human_size q req vc (remove_mount_lock vc hostname) s w
        ≡ (ok tt, s1, w1)
      → handle_remove prefix kv from_human_size q s w
        ≡ remove_locked prefix kv from_human_size q req vc hostname timeout s1 w1
  unfolding handle_remove
  forced_on s s1 w w1 asks done = ground (arith, requested, timed, known, hosted, asks, done)

  module _ (backend : crud_of vc.backends ≡ ok (codes "ceph")) where
    abbrev gone : World → World
    gone w =
        without_entry from_human_size q req vc backend q.timeout
          (after_destruction from_human_size q req vc backend q.timeout w)

    forced_once :
        (s : Store) (w : World) (a : Option Error)
        → (q.crud (after_question from_human_size q req vc backend q.timeout w)).destroy (
            destroyed from_human_size q req vc backend q.timeout
              (after_question from_human_size q req vc backend q.timeout w))
          ≡ a
        → (q.crud w).exists (asked from_human_size q req vc backend q.timeout w) ≡ ok true
        → q.delete (after_destruction from_human_size q req vc backend q.timeout w) ≡ none
        → force_remove_lock prefix kv from_human_size q req vc (remove_mount_lock vc hostname) s w
          ≡ (
            ok tt,
            remove_volume_use prefix kv from_human_size (remove_mount_lock vc hostname) s,
            gone w,
          )
    unfolding force_remove_lock complete_remove remove_volume_entry exists_volume
        Control.remove_volume
    forced_once s w none d there deletes = ground (arith, backend, there, d, deletes)
    forced_once s w (some e) d there deletes = ground (arith, backend, there, d, deletes)

    -- A removal that is forced, whose option "timeout" is missing or can be parsed, of a volume of the ceph driver whose image is there until the removal and not
    -- afterwards, and whose entry is deleted by the forced removal, is replied to with the status 404 where
    -- the locks can be acquired: after the forced removal the handler goes on to the removal under locks, which
    -- finds neither the image nor the entry. The volume is gone from the intent store.
    pub remove_forced :
        (s s' : Store) (w : World) (e : Error)
        → text_eq (option_of req (codes "force")) (codes "true") ≡ true
        → (q.crud w).exists (asked from_human_size q req vc backend q.timeout w) ≡ ok true
        → q.delete (after_destruction from_human_size q req vc backend q.timeout w) ≡ none
        → (q.crud (gone w)).exists (asked from_human_size q req vc backend timeout (gone w))
          ≡ ok false
        → q.delete (after_question from_human_size q req vc backend timeout (gone w)) ≡ some e
        → acquire_all prefix kv
            (remove_schedule prefix kv from_human_size q vc hostname)
            timeout
            (remove_volume_use prefix kv from_human_size (remove_mount_lock vc hostname) s)
          ≡ returned none s'
        → All (Owns prefix kv s') (remove_mount_lock vc hostname ∷ remove_snapshot_lock vc ∷ [])
        → let (answer, t, w') = handle_remove prefix kv from_human_size q s w in
          (answer ≡ some (status 404 ∷ [])) × (w'.volumes (requested_name req) ≡ none)
    remove_forced s s' w e asks there deletes missing refuses got owns =
        let missed =
          body_missing_twice from_human_size q req vc backend timeout (gone w) e missing refuses in
        let (answered, _) = locked_frees _ s' (err (sentinel not_exists)) got owns (λ e. cc) in
        rw (forced_on s _ w (gone w) asks (forced_once s w _ refl there deletes), missed, got)
          (answered, update_self w.volumes (requested_name req) none)
