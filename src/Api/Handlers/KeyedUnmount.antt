-- ===== src/Api/Handlers/KeyedUnmount.antt =====
-- The invariant of a host's maps over an unmount request, on every branch.
use volplugin.Base.{
  ℕ, refl, Bool, true, false, Option, none, some, ◌∷◌, Text, arith, ltb_ℤ, pos, text_eq_iff,
  Bool-cases, inl, inr, ℤ,
}
use volplugin.Errors.{Result, ok, err, panic, Error}
use volplugin.Etcd.{Etcd}
use volplugin.Config.Types.{Volume}
use volplugin.Config.Use.{UseLocker}
use volplugin.Storage.Driver.{MountDriver, DriverOptions}
use volplugin.Api.Mounts.{sub, remove_mount}
use volplugin.Api.State.{Host, Request, VolumeName, DriverCall, get_storage_parameters}
use volplugin.Api.Handlers.{
  mount_lock, vol_name_of, unmount, count_unmount, unmount_with, unmount_named, uncounted,
  driver_unmounted, stop_refreshing,
}
use volplugin.Api.Handlers.Keyed.{Keyed, same_maps-Keyed, take_lock-Keyed, remove_stop_chan-IsKeyed}

module _ (prefix : Text) (kv : Etcd UseLocker) (from_human_size : Text → Result ℕ)
    (q : Request (kv.Store)) where
  uncounted-Keyed :
      (vol : Text) (unlocked : Bool) (r : Result ℤ) (a : Host (kv.Store))
      → Keyed prefix kv from_human_size q a
      → Keyed prefix kv from_human_size q (uncounted prefix kv from_human_size q vol unlocked r a).1
  uncounted-Keyed vol unlocked (ok n) a k = elim (Bool-cases (ltb_ℤ (pos 0) n)) [
    | inl more ↦ rw more k
    | inr last ↦ rw last (unmounted q.unmount_answer)
  ]
    where
      removed : Keyed prefix kv from_human_size q (record a {
        calls = DriverCall.unmount vol ∷ a.calls;
        collection = remove_mount a.collection vol;
      })
      removed =
          unfold remove_mount in
          record {
            mounts = λ v mc e. ground (arith, k.mounts v mc, text_eq_iff vol v);
            chans = k.chans;
          }

      stopped :
          (b : Bool) (c : Host (kv.Store))
          → Keyed prefix kv from_human_size q c
          → Keyed prefix kv from_human_size q (stop_refreshing prefix kv from_human_size b vol c)
      stopped true c kc = kc
      stopped false c kc = remove_stop_chan-IsKeyed q.hostname vol c kc

      unmounted :
          (o : Option Error)
          → Keyed prefix kv from_human_size q
              (driver_unmounted prefix kv from_human_size q vol unlocked o
                (record a { calls = DriverCall.unmount vol ∷ a.calls })).1
      unmounted none = stopped unlocked _ removed
      unmounted (some e) = same_maps-Keyed prefix kv from_human_size q a _ refl refl k
  uncounted-Keyed vol unlocked (err e) a k = k
  uncounted-Keyed vol unlocked panic a k = k

  count_unmount-Keyed :
      (vol : Text) (unlocked : Bool) (o : Option Error × Host (kv.Store))
      → Keyed prefix kv from_human_size q o.1
      → Keyed prefix kv from_human_size q
          (count_unmount prefix kv from_human_size q vol unlocked o).1
  unfolding sub
  count_unmount-Keyed vol unlocked (some e, a) k = k
  count_unmount-Keyed vol unlocked (none, a) k =
      let (c, n) = sub a.counter vol in
      let b : Host (kv.Store) = record a { counter = c } in
      uncounted-Keyed vol unlocked n b (same_maps-Keyed prefix kv from_human_size q a b refl refl k)

  unmount_with-Keyed :
      (p : Result (MountDriver × Volume × DriverOptions)) (a : Host (kv.Store))
      → Keyed prefix kv from_human_size q a
      → Keyed prefix kv from_human_size q (unmount_with prefix kv from_human_size q p a).1
  unmount_with-Keyed (ok (d, cfg, options)) a k =
      count_unmount-Keyed (vol_name_of cfg) cfg.unlocked _ (
        take_lock-Keyed prefix kv from_human_size q cfg.unlocked
          (mount_lock (vol_name_of cfg) q.hostname) a k)
  unmount_with-Keyed (err e) a k = k
  unmount_with-Keyed panic a k = k

  unmount_named-Keyed :
      (r : Result VolumeName) (a : Host (kv.Store))
      → Keyed prefix kv from_human_size q a
      → Keyed prefix kv from_human_size q (unmount_named prefix kv from_human_size q r a).1
  unmount_named-Keyed (ok uc) a k =
      unmount_with-Keyed (get_storage_parameters from_human_size q uc) a k
  unmount_named-Keyed (err e) a k = k
  unmount_named-Keyed panic a k = k

  -- Whatever an unmount request meets, every collected mount stands under its own volume's name, and every
  -- stop channel belongs to this host's lock of its volume, if that was so before.
  unmount-IsKeyed :
      (a : Host (kv.Store))
      → Keyed prefix kv from_human_size q a
      → Keyed prefix kv from_human_size q (unmount prefix kv from_human_size q a).1
  unfolding unmount
  unmount-IsKeyed a k = unmount_named-Keyed q.body a k
