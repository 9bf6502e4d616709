-- ===== src/Daemon/Kept.antt =====
-- What the loop of `updateMounts` in volplugin/init.go leaves alone: what a host has for the other volumes.
use volplugin.Base.{
  ℕ, ◌≡◌, ◌∙◌, refl, ap, false, Option, none, some, [], ◌∷◌, Text, text_eq, split, All, arith,
}
use volplugin.Errors.{Result, ok, err, panic, Error}
use volplugin.Etcd.{Etcd}
use volplugin.Config.Types.{Volume}
use volplugin.Config.Use.{UseLocker, publish_use}
use volplugin.Storage.Driver.{Mount}
use volplugin.Storage.Name.{slash}
use volplugin.Api.Mounts.{Counter, add_count, add_mount, Collection}
use volplugin.Api.State.{Host, add_stop_chan}
use volplugin.Api.Handlers.{start_ttl_refresh, start_refreshing}
use volplugin.Daemon.{
  Entries, Surroundings, Turn, goes_on, exits, crashes, lock_of, two_parts, acquired, collected,
  unless_live, of_volume, of_parts, update_mount, next_mount, update_each,
}

-- An entry of a mount that a driver has found stands under the volume's name.
abbrev pub IsEntry : Text × Option Mount → Type 0
IsEntry (name, none) = Unit
IsEntry (name, some mc) = mc.volume.name ≡ name

abbrev pub Other : Text → Text × Option Mount → Type 0
Other name e = text_eq e.0 name ≡ false

abbrev pub Entry : Text → Text × Option Mount → Type 0
Entry name e = IsEntry e × Other name e

-- What two hosts have for one volume is the same.
abbrev pub Same : {S : Type 0} → Text → Host S → Host S → Type 0
Same name b a =
    (b.collection name ≡ a.collection name)
    × (b.stop_chans name ≡ a.stop_chans name)
    × (b.counter name ≡ a.counter name)

module _ (prefix : Text) (kv : Etcd UseLocker) (from_human_size : Text → Result ℕ)
    (q : Surroundings) (counts : Counter) where
  open kv use {Store}

  acquired-Same :
      (k name : Text)
      → (ut : UseLocker) → (r : Option Error × Store) → (a : Host Store) → text_eq k name ≡ false
      → Same name
          (acquired prefix kv from_human_size
            (start_refreshing prefix kv from_human_size k ut r a)).1
          a
  unfolding add_stop_chan
  acquired-Same k name ut (none, s) a other = (refl, rw other refl, refl)
  acquired-Same k name ut (some e, s) a other = (refl, refl, refl)

  added_elsewhere :
      (c c' : Collection)
      → (mc : Mount) → (name : Text) → text_eq mc.volume.name name ≡ false
      → add_mount c mc ≡ ok c'
      → c' name ≡ c name
  unfolding add_mount
  added_elsewhere c c' mc name other h = ground (arith, ap (λ (f : Result Collection). f) h)

  collected-Same :
      (k name : Text)
      → (ut : UseLocker) → (r : Result Collection) → (a : Host Store)
      → ((c : Collection) → r ≡ ok c → c name ≡ a.collection name)
      → text_eq k name ≡ false
      → Same name (collected prefix kv from_human_size k ut r a).1 a
  unfolding start_ttl_refresh
  collected-Same k name ut (ok c) a kept other =
      let a' : Host Store = record a { collection = c } in
      let (mounts, chans, count) =
        acquired-Same k name ut (publish_use prefix kv a.store ut) a' other in
      (mounts ∙ kept c refl, chans, count)
  collected-Same k name ut (err e) a kept other = (refl, refl, refl)
  collected-Same k name ut panic a kept other = (refl, refl, refl)

  unless_live-Same :
      (l : Option Mount)
      → (k name : Text) → (ut : UseLocker) → (mc : Mount) → (a : Host Store) → mc.volume.name ≡ k
      → text_eq k name ≡ false
      → Same name (unless_live prefix kv from_human_size l k ut mc a).1 a
  unless_live-Same (some live) k name ut mc a keyed other = (refl, refl, refl)
  unless_live-Same none k name ut mc a keyed other =
      collected-Same k name ut (add_mount a.collection mc) a
        (λ c. added_elsewhere a.collection c mc name (rw keyed other)) other

  of_volume-Same :
      (k name : Text)
      → (mc : Mount) → (r : Result Volume) → (a : Host Store) → mc.volume.name ≡ k
      → text_eq k name ≡ false
      → Same name (of_volume prefix kv from_human_size q.hostname k mc r a).1 a
  of_volume-Same k name mc (ok vol) a keyed other =
      unless_live-Same (a.collection k) k name (lock_of q.hostname k vol) mc a keyed other
  of_volume-Same k name mc (err e) a keyed other = (refl, refl, refl)
  of_volume-Same k name mc panic a keyed other = (refl, refl, refl)

  of_parts-Same :
      (k name : Text)
      → (mc : Mount) → (parts : Option (Text × Text)) → (a : Host Store) → mc.volume.name ≡ k
      → text_eq k name ≡ false
      → Same name (of_parts prefix kv from_human_size q k mc parts a).1 a
  of_parts-Same k name mc none a keyed other = (refl, refl, refl)
  of_parts-Same k name mc (some (p, v)) a keyed other =
      of_volume-Same k name mc (q.volume p v) a keyed other

  pub update_mount-Same :
      (name : Text)
      → (e : Text × Option Mount) → (a : Host Store) → Entry name e
      → Same name (update_mount prefix kv from_human_size q counts e a).1 a
  unfolding update_mount add_count
  update_mount-Same name (k, none) a entry = (refl, refl, refl)
  update_mount-Same name (k, some mc) a (keyed, other) =
      let a' : Host Store = record a { counter = (add_count a.counter k (counts k)).0 } in
      let (mounts, chans, count) =
        of_parts-Same k name mc (two_parts (split slash k)) a' keyed other in
      (mounts, chans, count ∙ rw other refl)

  next_mount-Same :
      (name : Text)
      → (k : Host Store → Turn × Host Store) → ((b : Host Store) → Same name (k b).1 b)
      → (r : Turn × Host Store) → (a : Host Store) → Same name r.1 a
      → Same name (next_mount prefix kv from_human_size r k).1 a
  next_mount-Same name k later (goes_on, b) a (mounts, chans, count) =
      let (mounts', chans', count') = later b in (mounts' ∙ mounts, chans' ∙ chans, count' ∙ count)
  next_mount-Same name k later (exits, b) a same = same
  next_mount-Same name k later (crashes, b) a same = same

  pub update_each-Same :
      (name : Text)
      → (es : Entries) → (a : Host Store) → All (Entry name) es
      → Same name (update_each prefix kv from_human_size q counts es a).1 a
  unfolding update_each
  update_each-Same name [] a all = (refl, refl, refl)
  update_each-Same name (e ∷ es) a (entry, all) =
      next_mount-Same name (update_each prefix kv from_human_size q counts es)
        (λ b. update_each-Same name es b all) (update_mount prefix kv from_human_size q counts e a)
        a (update_mount-Same name e a entry)
