-- ===== src/Daemon/Restored.antt =====
-- What the loop of `updateMounts` in volplugin/init.go leaves for one of its volumes, and the time that `getMounted` waits.
use volplugin.Base.{
  ℕ, zero, suc, ◌≡◌, ◌∙◌, refl, ap, Option, none, some, List, [], ◌∷◌, ◌++◌, Text, ℤ, pos, ◌-ℤ◌,
  ◌+ℤ◌, text_eq_refl, split, All, arith, update,
}
use volplugin.Errors.{Result, ok, Error}
use volplugin.Etcd.{Etcd}
use volplugin.Config.Types.{Volume}
use volplugin.Config.Use.{UseLocker, publish_use}
use volplugin.Storage.Driver.{Mount}
use volplugin.Storage.Name.{slash}
use volplugin.Api.Mounts.{Counter, add_count, add_mount, Collection}
use volplugin.Api.State.{Host, add_stop_chan}
use volplugin.Api.Handlers.{start_ttl_refresh, start_refreshing}
use volplugin.Daemon.{
  Docker, unanswered, poll, Entries, Surroundings, Turn, goes_on, exits, crashes, lock_of,
  two_parts, acquired, unless_live, of_parts, update_mount, next_mount, update_each,
}
use volplugin.Daemon.Kept.{Entry, update_mount-Same, update_each-Same}

module _ (prefix : Text) (kv : Etcd UseLocker) (from_human_size : Text → Result ℕ)
    (q : Surroundings) (counts : Counter) where
  open kv use {Store}

  -- What the loop has for a volume that it has restored: the mount, the count, and the lock that a goroutine
  -- refreshes.
  abbrev pub Restored : Text → Mount → UseLocker → ℤ → Host Store → Type 0
  Restored name mc ut n a =
      (a.collection name ≡ some mc) × (a.stop_chans name ≡ some ut) × (a.counter name ≡ n)

  acquired-Restored :
      (name : Text)
      → (mc : Mount) → (ut : UseLocker) → (r : Option Error × Store) → (a : Host Store)
      → a.collection name ≡ some mc
      → (acquired prefix kv from_human_size
          (start_refreshing prefix kv from_human_size name ut r a)).0
        ≡ goes_on
      → Restored name mc ut
          (a.counter name)
          (acquired prefix kv from_human_size
            (start_refreshing prefix kv from_human_size name ut r a)).1
  unfolding add_stop_chan
  acquired-Restored name mc ut (none, s) a live h = (live, rw (text_eq_refl name) refl, refl)
  acquired-Restored name mc ut (some e, s) a live h = cc

  added_there :
      (c : Collection)
      → (mc : Mount) → (name : Text) → mc.volume.name ≡ name
      → c name ≡ none
      → add_mount c mc ≡ ok (update c name (some mc))
  unfolding add_mount
  added_there c mc name keyed free = rw (keyed, free) refl

  unless_live-Restored :
      (name : Text)
      → (ut : UseLocker) → (mc : Mount) → (a : Host Store) → mc.volume.name ≡ name
      → a.collection name ≡ none
      → (unless_live prefix kv from_human_size (a.collection name) name ut mc a).0 ≡ goes_on
      → Restored name mc ut
          (a.counter name)
          (unless_live prefix kv from_human_size (a.collection name) name ut mc a).1
  unfolding start_ttl_refresh
  unless_live-Restored name ut mc a keyed free h =
      rw (free, added_there a.collection mc name keyed free)
        (acquired-Restored name mc ut (publish_use prefix kv a.store ut)
          (record a { collection = update a.collection name (some mc) })
          (rw (text_eq_refl name) refl)
          (rw (free, added_there a.collection mc name keyed free) at h))

  of_parts-Restored :
      (name p v : Text)
      → (mc : Mount) → (vol : Volume) → (a : Host Store) → mc.volume.name ≡ name
      → q.volume p v ≡ ok vol
      → a.collection name ≡ none
      → (of_parts prefix kv from_human_size q name mc (some (p, v)) a).0 ≡ goes_on
      → Restored name mc
          (lock_of q.hostname name vol)
          (a.counter name)
          (of_parts prefix kv from_human_size q name mc (some (p, v)) a).1
  of_parts-Restored name p v mc vol a keyed found free h =
      rw found
        (unless_live-Restored name (lock_of q.hostname name vol) mc a keyed free (rw found at h))

  update_mount-Restored :
      (name p v : Text)
      → (mc : Mount) → (vol : Volume) → (a : Host Store) → mc.volume.name ≡ name
      → two_parts (split slash name) ≡ some (p, v)
      → q.volume p v ≡ ok vol
      → a.collection name ≡ none
      → (update_mount prefix kv from_human_size q counts (name, some mc) a).0 ≡ goes_on
      → Restored name mc
          (lock_of q.hostname name vol)
          (a.counter name +ℤ counts name)
          (update_mount prefix kv from_human_size q counts (name, some mc) a).1
  unfolding update_mount add_count
  update_mount-Restored name p v mc vol a keyed parts found free h =
      let a' : Host Store = record a { counter = (add_count a.counter name (counts name)).0 } in
      let (mounts, chans, count) =
        of_parts-Restored name p v mc vol a' keyed found free (rw (update_mount, parts) at h) in
      rw parts (mounts, chans, count ∙ rw (text_eq_refl name) refl)

  next_mount_reached :
      (P : Host Store → Type 0)
      → (k : Host Store → Turn × Host Store) → (r : Turn × Host Store)
      → ((b : Host Store) → r ≡ (goes_on, b) → (k b).0 ≡ goes_on → P (k b).1)
      → (next_mount prefix kv from_human_size r k).0 ≡ goes_on
      → P (next_mount prefix kv from_human_size r k).1
  next_mount_reached P k (goes_on, b) reach h = reach b refl h
  next_mount_reached P k (exits, b) reach h = cc
  next_mount_reached P k (crashes, b) reach h = cc

  -- When the loop comes to its end, a volume that is mounted on the host and stands in the intent store, and that
  -- the collection did not have, is in the collection with its mount, its counter is up by the containers that use
  -- it, and a goroutine refreshes its lock: that of this host, or of no host when the volume is in unlocked
  -- mode. The entries have distinct names, and a mount that a driver has found stands under its volume's name.
  pub update_each_restores :
      (name p v : Text)
      → (mc : Mount) → (vol : Volume) → (before after : Entries) → (a : Host Store)
      → mc.volume.name ≡ name
      → two_parts (split slash name) ≡ some (p, v)
      → q.volume p v ≡ ok vol
      → All (Entry name) before
      → All (Entry name) after
      → a.collection name ≡ none
      → (update_each prefix kv from_human_size q counts (before ++ (name, some mc) ∷ after) a).0
        ≡ goes_on
      → Restored name mc
          (lock_of q.hostname name vol)
          (a.counter name +ℤ counts name)
          (update_each prefix kv from_human_size q counts (before ++ (name, some mc) ∷ after) a).1
  unfolding update_each
  update_each_restores name p v mc vol [] after a keyed parts found all later free h =
      next_mount_reached
        (Restored name mc (lock_of q.hostname name vol) (a.counter name +ℤ counts name))
        (update_each prefix kv from_human_size q counts after)
        (update_mount prefix kv from_human_size q counts (name, some mc) a)
        (λ b eq ended.
          let there =
            update_mount-Restored name p v mc vol a keyed parts found free
              (ap (λ (r : Turn × Host Store). r.0) eq) in
          let (mounts, chans, count) = (rw eq at there) in
          let (mounts', chans', count') =
            update_each-Same prefix kv from_human_size q counts name after b later in
          (mounts' ∙ mounts, chans' ∙ chans, count' ∙ count))
        h
  update_each_restores name p v mc vol (e ∷ before) after a keyed parts found (entry, all) later
        free h =
      next_mount_reached
        (Restored name mc (lock_of q.hostname name vol) (a.counter name +ℤ counts name))
        (update_each prefix kv from_human_size q counts (before ++ (name, some mc) ∷ after))
        (update_mount prefix kv from_human_size q counts e a)
        (λ b eq ended.
          let passed = update_mount-Same prefix kv from_human_size q counts name e a entry in
          let (mounts, chans, count) = (rw eq at passed) in
          let (mounts', chans', count') =
            update_each_restores name p v mc vol before after b keyed parts found all later
              (mounts ∙ free) ended in
          (mounts', chans', count' ∙ ap (λ n. n +ℤ counts name) count))
        h

-- The wait for Docker has no end when the timeout is not negative: each turn that is not answered is followed by
-- the next.
poll_asks :
    (timeout since : ℕ)
    → (turns : List Docker)
    → poll (pos timeout) (unanswered since ∷ turns) ≡ poll (pos timeout) turns
unfolding poll ◌-ℤ◌
poll_asks timeout zero turns = ground (arith)
poll_asks timeout (suc since) turns = ground (arith)
