-- ===== src/Api/Handlers/Keyed.antt =====
-- The invariant of a host's maps, on every branch of the handlers.
use volplugin.Base.{
  ℕ, ◌≡◌, refl, ap, Bool, true, false, Option, none, some, Text, arith, ltb_ℤ, pos, text_eq_iff,
  Bool-cases, inl, inr, ℤ,
}
use volplugin.Errors.{Result, ok, err, panic, Error}
use volplugin.Etcd.{Etcd}
use volplugin.Config.Types.{Volume}
use volplugin.Config.Use.{UseLocker, publish_use}
use volplugin.Storage.Driver.{Mount, MountDriver, DriverOptions}
use volplugin.Api.Mounts.{add, add_mount, Collection}
use volplugin.Api.State.{
  Host, Request, VolumeName, get_storage_parameters, add_stop_chan, remove_stop_chan,
}
use volplugin.Api.Handlers.{
  mount_lock, vol_name_of, mount, count_mount, take_lock, clear_mount, start_ttl_refresh,
  start_refreshing, refreshed, mount_with, mount_named, duplicate, counted, reply_mounted,
  refresh_locked, collect, driver_mounted,
}

-- Every collected mount stands under its volume's name, and every stop channel belongs to the lock of
-- its volume by this host.
pub record IsKeyed (hostname : Text) {S : Type 0} (a : Host S) : Type 0 where
  pub mounts : (vol : Text) (mc : Mount) → a.collection vol ≡ some mc → mc.volume.name ≡ vol
  pub chans : (vol : Text) (u : UseLocker) → a.stop_chans vol ≡ some u → u ≡ mount_lock vol hostname

pub remove_stop_chan-IsKeyed :
    (h : Text) {S : Type 0} (vol : Text) (a : Host S)
    → IsKeyed h a
    → IsKeyed h (remove_stop_chan vol a)
unfolding remove_stop_chan
remove_stop_chan-IsKeyed h vol a k = record {
  mounts = λ v mc e. ground (arith, k.mounts v mc);
  chans = λ v u e. ground (arith, k.chans v u, text_eq_iff vol v);
}

add_stop_chan-IsKeyed :
    (h : Text) {S : Type 0} (vol : Text) (a : Host S)
    → IsKeyed h a
    → IsKeyed h (add_stop_chan vol (mount_lock vol h) a)
unfolding add_stop_chan
add_stop_chan-IsKeyed h vol a k = record {
  mounts = λ v mc e. ground (arith, k.mounts v mc);
  chans = λ v u e. ground (arith, k.chans v u, text_eq_iff vol v);
}

module _ (prefix : Text) (kv : Etcd UseLocker) (from_human_size : Text → Result ℕ)
    (q : Request (kv.Store)) where
  clear_mount-IsKeyed :
      (vol : Text) (e : Error) (a : Host (kv.Store))
      → IsKeyed q.hostname a
      → IsKeyed q.hostname (clear_mount prefix kv from_human_size q vol e a).1
  unfolding clear_mount
  clear_mount-IsKeyed vol e a k = record {
    mounts = λ v mc e. ground (arith, k.mounts v mc);
    chans = λ v u e. ground (arith, k.chans v u);
  }

  abbrev pub Keyed : Host (kv.Store) → Type 0
  Keyed a = IsKeyed q.hostname a

  -- A change of the store, the counter or the calls alone.
  pub same_maps-Keyed :
      (a b : Host (kv.Store))
      → b.collection ≡ a.collection
      → b.stop_chans ≡ a.stop_chans
      → Keyed a
      → Keyed b
  same_maps-Keyed a b ec es k = record {
    mounts = λ v mc e. k.mounts v mc (cc (ap (λ (f : Text → Option Mount). f v) ec));
    chans = λ v u e. k.chans v u (cc (ap (λ (f : Text → Option UseLocker). f v) es));
  }

  reply_mounted-Keyed :
      (vol : Text) (r : Result Text) (a : Host (kv.Store))
      → Keyed a
      → Keyed (reply_mounted prefix kv from_human_size q vol r a).1
  reply_mounted-Keyed vol (ok p) a k = k
  reply_mounted-Keyed vol (err e) a k =
      clear_mount-IsKeyed vol e (remove_stop_chan vol a)
        (remove_stop_chan-IsKeyed q.hostname vol a k)
  reply_mounted-Keyed vol panic a k = k

  start_refreshing-Keyed :
      (vol : Text) (r : Option Error × kv.Store) (a : Host (kv.Store))
      → Keyed a
      → Keyed (start_refreshing prefix kv from_human_size vol (mount_lock vol q.hostname) r a).1
  start_refreshing-Keyed vol (none, s) a k =
      add_stop_chan-IsKeyed q.hostname vol (record a { store = s })
        (same_maps-Keyed a _ refl refl k)
  start_refreshing-Keyed vol (some e, s) a k = same_maps-Keyed a _ refl refl k

  refreshed-Keyed :
      (vol : Text) (o : Option Error × Host (kv.Store))
      → Keyed o.1
      → Keyed (refreshed prefix kv from_human_size q vol o).1
  refreshed-Keyed vol (none, a) k = reply_mounted-Keyed vol q.path_answer a k
  refreshed-Keyed vol (some e, a) k =
      clear_mount-IsKeyed vol e (remove_stop_chan vol a)
        (remove_stop_chan-IsKeyed q.hostname vol a k)

  refresh_locked-Keyed :
      (vol : Text) (unlocked : Bool) (a : Host (kv.Store))
      → Keyed a
      → Keyed (refresh_locked prefix kv from_human_size q vol unlocked a).1
  unfolding start_ttl_refresh
  refresh_locked-Keyed vol true a k = reply_mounted-Keyed vol q.path_answer a k
  refresh_locked-Keyed vol false a k =
      refreshed-Keyed vol _
        (start_refreshing-Keyed vol (publish_use prefix kv a.store (mount_lock vol q.hostname)) a k)

  add_mount-Keyed :
      (mc : Mount) (a : Host (kv.Store)) (c : Collection)
      → add_mount a.collection mc ≡ ok c
      → Keyed a
      → Keyed (record a { collection = c })
  unfolding add_mount
  add_mount-Keyed mc a c e k = record {
    mounts = λ v mc' e'.
        ground (
          arith,
          k.mounts v mc',
          text_eq_iff mc.volume.name v,
          ap (λ (f : Result Collection). f) e,
        );
    chans = k.chans;
  }

  collect-Keyed :
      (vol : Text) (unlocked : Bool) (mc : Mount) (a : Host (kv.Store))
      → Keyed a
      → Keyed (collect prefix kv from_human_size q vol unlocked (add_mount a.collection mc) a).1
  collect-Keyed vol unlocked mc a k = go (add_mount a.collection mc) refl
    where
      go :
          (r : Result Collection)
          → add_mount a.collection mc ≡ r
          → Keyed (collect prefix kv from_human_size q vol unlocked r a).1
      go (ok c) e = refresh_locked-Keyed vol unlocked _ (add_mount-Keyed mc a c e k)
      go (err x) e = k
      go panic e = k

  driver_mounted-Keyed :
      (vol : Text) (unlocked : Bool) (r : Result Mount) (a : Host (kv.Store))
      → Keyed a
      → Keyed (driver_mounted prefix kv from_human_size q vol unlocked r a).1
  driver_mounted-Keyed vol unlocked (ok mc) a k = collect-Keyed vol unlocked mc a k
  driver_mounted-Keyed vol unlocked (err e) a k = clear_mount-IsKeyed vol e a k
  driver_mounted-Keyed vol unlocked panic a k = k

  counted-Keyed :
      (vol : Text) (unlocked : Bool) (options : DriverOptions) (n : ℤ) (a : Host (kv.Store))
      → Keyed a
      → Keyed (counted prefix kv from_human_size q vol unlocked options n a).1
  counted-Keyed vol unlocked options n a k = elim (Bool-cases (ltb_ℤ (pos 1) n)) [
    | inl more ↦ rw more (shared unlocked)
    | inr first ↦ rw first (
        driver_mounted-Keyed vol unlocked (q.mount_answer options) _
          (same_maps-Keyed a _ refl refl k))
  ]
    where
      shared : (b : Bool) → Keyed (duplicate prefix kv from_human_size q b a).1
      shared true = k
      shared false = k

  pub take_lock-Keyed :
      (unlocked : Bool) (ut : UseLocker) (a : Host (kv.Store))
      → Keyed a
      → Keyed (take_lock prefix kv from_human_size unlocked ut a).1
  take_lock-Keyed true ut a k = k
  take_lock-Keyed false ut a k = same_maps-Keyed a _ refl refl k

  count_mount-Keyed :
      (vol : Text) (unlocked : Bool) (options : DriverOptions) (o : Option Error × Host (kv.Store))
      → Keyed o.1
      → Keyed (count_mount prefix kv from_human_size q vol unlocked options o).1
  unfolding add
  count_mount-Keyed vol unlocked options (some e, a) k = k
  count_mount-Keyed vol unlocked options (none, a) k =
      counted-Keyed vol unlocked options _ _ (same_maps-Keyed a _ refl refl k)

  mount_with-Keyed :
      (p : Result (MountDriver × Volume × DriverOptions)) (a : Host (kv.Store))
      → Keyed a
      → Keyed (mount_with prefix kv from_human_size q p a).1
  mount_with-Keyed (ok (d, cfg, options)) a k =
      count_mount-Keyed (vol_name_of cfg) cfg.unlocked options _
        (take_lock-Keyed cfg.unlocked (mount_lock (vol_name_of cfg) q.hostname) a k)
  mount_with-Keyed (err e) a k = k
  mount_with-Keyed panic a k = k

  mount_named-Keyed :
      (r : Result VolumeName) (a : Host (kv.Store))
      → Keyed a
      → Keyed (mount_named prefix kv from_human_size q r a).1
  mount_named-Keyed (ok uc) a k = mount_with-Keyed (get_storage_parameters from_human_size q uc) a k
  mount_named-Keyed (err e) a k = k
  mount_named-Keyed panic a k = k

  -- Whatever a mount request meets, every collected mount stands under its own volume's name, and every
  -- stop channel belongs to this host's lock of its volume, if that was so before.
  pub mount-IsKeyed :
      (a : Host (kv.Store)) → Keyed a → Keyed (mount prefix kv from_human_size q a).1
  unfolding mount
  mount-IsKeyed a k = mount_named-Keyed q.body a k
