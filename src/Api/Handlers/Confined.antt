-- ===== src/Api/Handlers/Confined.antt =====
-- What an unmount request changes, on every branch of `Unmount` in api/handlers.go.
use mathlib.Core.Path.{subst}
use volplugin.Base.{
  ℕ, ◌≡◌, ◌≢◌, ◌⊎◌, inl, inr, refl, sym, ap, ◌∙◌, ◌-ℤ◌, update_self, Bool, true, false, Option,
  none, some, ◌∷◌, Text, ℤ, pos, ltb_ℤ, Bool-cases, update_ne,
}
use volplugin.Errors.{Result, ok, err, panic, Error}
use volplugin.Etcd.{Etcd}
use volplugin.Config.Types.{Volume}
use volplugin.Config.Use.{UseLocker}
use volplugin.Storage.Driver.{Mount, MountDriver, DriverOptions}
use volplugin.Api.Mounts.{sub, remove_mount}
use volplugin.Api.State.{
  Host, Request, Reply, VolumeName, DriverCall, get_storage_parameters, remove_stop_chan, signal,
}
use volplugin.Api.Handlers.{
  mount_lock, vol_name_of, unmount, take_lock, count_unmount, unmount_with, unmount_named,
  uncounted, driver_unmounted, stop_refreshing,
}

-- The mounts, the counts and the stop channels of the other volumes are as before.
abbrev pub KeepsOthers : {S : Type 0} → Text → Host S → Host S → Type 0
KeepsOthers vol b a =
    (k : Text)
    → vol ≢ k
    → (b.collection k ≡ a.collection k)
      × (b.counter k ≡ a.counter k)
      × (b.stop_chans k ≡ a.stop_chans k)

-- The volume's mount and its stop channel are as before, and the driver was not asked to unmount it, or failed.
abbrev pub StaysMounted : {S : Type 0} → Text → Option Error → Host S → Host S → Type 0
StaysMounted vol answer b a =
    (b.collection vol ≡ a.collection vol)
    × (b.stop_chans vol ≡ a.stop_chans vol)
    × ((b.calls ≡ a.calls) ⊎ ((b.calls ≡ DriverCall.unmount vol ∷ a.calls) × (answer ≢ none)))

-- The volume has no mount any more, and the driver has unmounted it.
abbrev pub IsUnmounted : {S : Type 0} → Text → Option Error → Host S → Host S → Type 0
IsUnmounted vol answer b a =
    (b.collection vol ≡ none) × (b.calls ≡ DriverCall.unmount vol ∷ a.calls) × (answer ≡ none)

abbrev pub IsConfined : {S : Type 0} → Text → Option Error → Host S → Host S → Type 0
IsConfined vol answer b a =
    KeepsOthers vol b a × (StaysMounted vol answer b a ⊎ IsUnmounted vol answer b a)

module _ (prefix : Text) (kv : Etcd UseLocker) (from_human_size : Text → Result ℕ)
    (q : Request (kv.Store)) where
  open kv use {Store}

  -- A signal on the volume's channel leaves all but its own channel alone.
  abbrev Signals : Text → Host Store → Host Store → Type 0
  Signals vol b a =
      (b.collection ≡ a.collection)
      × (b.counter ≡ a.counter)
      × (b.calls ≡ a.calls)
      × ((k : Text) → vol ≢ k → b.stop_chans k ≡ a.stop_chans k)

  signal-Signals :
      (vol : Text) (o : Option UseLocker) (a : Host Store) → Signals vol (signal vol o a) a
  signal-Signals vol none a = (refl, refl, refl, λ k other. refl)
  signal-Signals vol (some u) a =
      (refl, refl, refl, λ k other. update_ne a.stop_chans vol k none other)

  stop_refreshing-Signals :
      (vol : Text) (unlocked : Bool) (a : Host Store)
      → Signals vol (stop_refreshing prefix kv from_human_size unlocked vol a) a
  unfolding remove_stop_chan
  stop_refreshing-Signals vol true a = (refl, refl, refl, λ k other. refl)
  stop_refreshing-Signals vol false a = signal-Signals vol (a.stop_chans vol) a

  driver_unmounted-IsConfined :
      (vol : Text) (unlocked : Bool) (o : Option Error) (a : Host Store)
      → IsConfined vol o
          (driver_unmounted prefix kv from_human_size q vol unlocked o
            (record a { calls = DriverCall.unmount vol ∷ a.calls })).1
          a
  unfolding remove_mount
  driver_unmounted-IsConfined vol unlocked (some e) a =
      (λ k other. (refl, refl, refl), inl (refl, refl, inr (refl, λ e. cc)))
  driver_unmounted-IsConfined vol unlocked none a =
      let c : Host Store = record a {
        calls = DriverCall.unmount vol ∷ a.calls;
        collection = remove_mount a.collection vol;
      } in
      let (mounts, count, calls, chans) = stop_refreshing-Signals vol unlocked c in
      (
        (λ k other. (
          ap (λ (f : Text → Option Mount). f k) mounts ∙ update_ne a.collection vol k none other,
          ap (λ (f : Text → ℤ). f k) count,
          chans k other,
        )),
        inr (
          ap (λ (f : Text → Option Mount). f vol) mounts ∙ update_self a.collection vol none,
          calls,
          refl,
        ),
      )

  uncounted-IsConfined :
      (vol : Text) (unlocked : Bool) (r : Result ℤ) (a : Host Store)
      → IsConfined vol q.unmount_answer (uncounted prefix kv from_human_size q vol unlocked r a).1 a
  uncounted-IsConfined vol unlocked (ok n) a = elim (Bool-cases (ltb_ℤ (pos 0) n)) [
    | inl more ↦ rw more (λ k other. (refl, refl, refl), inl (refl, refl, inl refl))
    | inr last ↦ rw last (driver_unmounted-IsConfined vol unlocked q.unmount_answer a)
  ]
  uncounted-IsConfined vol unlocked (err e) a =
      (λ k other. (refl, refl, refl), inl (refl, refl, inl refl))
  uncounted-IsConfined vol unlocked panic a =
      (λ k other. (refl, refl, refl), inl (refl, refl, inl refl))

  -- The lock and the count of the volume itself are not looked at.
  abbrev Alike : Text → Host Store → Host Store → Type 0
  Alike vol b a =
      (b.collection ≡ a.collection)
      × (b.stop_chans ≡ a.stop_chans)
      × (b.calls ≡ a.calls)
      × ((k : Text) → vol ≢ k → b.counter k ≡ a.counter k)

  Alike-IsConfined :
      (vol : Text) (o : Option Error) (c b a : Host Store)
      → Alike vol b a
      → IsConfined vol o c b
      → IsConfined vol o c a
  Alike-IsConfined vol o c b a (mounts, chans, calls, count) (others, ends) = (
    (λ k other.
        let (m, n, s) = others k other in
        (
          m ∙ ap (λ (f : Text → Option Mount). f k) mounts,
          n ∙ count k other,
          s ∙ ap (λ (f : Text → Option UseLocker). f k) chans,
        )),
    ended ends,
  )
    where
      same_calls :
          (c.calls ≡ b.calls) ⊎ ((c.calls ≡ DriverCall.unmount vol ∷ b.calls) × (o ≢ none))
          → (c.calls ≡ a.calls) ⊎ ((c.calls ≡ DriverCall.unmount vol ∷ a.calls) × (o ≢ none))
      same_calls (inl e) = inl (e ∙ calls)
      same_calls (inr (e, failed)) = inr (e ∙ ap (λ l. DriverCall.unmount vol ∷ l) calls, failed)

      ended :
          StaysMounted vol o c b ⊎ IsUnmounted vol o c b
          → StaysMounted vol o c a ⊎ IsUnmounted vol o c a
      ended (inl (m, s, l)) = inl (
        m ∙ ap (λ (f : Text → Option Mount). f vol) mounts,
        s ∙ ap (λ (f : Text → Option UseLocker). f vol) chans,
        same_calls l,
      )
      ended (inr (gone, l, fine)) = inr (gone, l ∙ ap (λ l. DriverCall.unmount vol ∷ l) calls, fine)

  count_unmount-IsConfined :
      (vol : Text) (unlocked : Bool) (o : Option Error × Host Store) (a : Host Store)
      → Alike vol o.1 a
      → IsConfined vol q.unmount_answer
          (count_unmount prefix kv from_human_size q vol unlocked o).1
          a
  unfolding sub
  count_unmount-IsConfined vol unlocked (some e, b) a (mounts, chans, calls, count) =
      Alike-IsConfined vol q.unmount_answer b b a (mounts, chans, calls, count)
        (λ k other. (refl, refl, refl), inl (refl, refl, inl refl))
  count_unmount-IsConfined vol unlocked (none, b) a (mounts, chans, calls, count) =
      let (c, n) = sub b.counter vol in
      let b' : Host Store = record b { counter = c } in
      Alike-IsConfined vol q.unmount_answer
        (uncounted prefix kv from_human_size q vol unlocked n b').1 b' a
        (
          mounts,
          chans,
          calls,
          λ k other. update_ne b.counter vol k (b.counter vol -ℤ pos 1) other ∙ count k other,
        )
        (uncounted-IsConfined vol unlocked n b')

  take_lock-Alike :
      (vol : Text) (unlocked : Bool) (ut : UseLocker) (a : Host Store)
      → Alike vol (take_lock prefix kv from_human_size unlocked ut a).1 a
  take_lock-Alike vol true ut a = (refl, refl, refl, λ k other. refl)
  take_lock-Alike vol false ut a = (refl, refl, refl, λ k other. refl)

  -- An unmount request whose volume can be read leaves the mounts, the counts and the stop channels of all
  -- other volumes alone, on every branch. The mount of the volume itself is given up exactly when the driver was
  -- asked to unmount it and did: otherwise its mount and its stop channel stay, and the driver was not asked
  -- or has failed.
  pub unmount-IsConfined :
      (uc : VolumeName) (driver : MountDriver) (cfg : Volume) (options : DriverOptions)
      → q.body ≡ ok uc
      → get_storage_parameters from_human_size q uc ≡ ok (driver, cfg, options)
      → (a : Host Store)
      → IsConfined (vol_name_of cfg) q.unmount_answer (unmount prefix kv from_human_size q a).1 a
  unfolding unmount
  unmount-IsConfined uc driver cfg options named found a =
      subst (λ (o : Reply × Host Store). IsConfined (vol_name_of cfg) q.unmount_answer o.1 a)
        (sym (
          ap (λ r. unmount_named prefix kv from_human_size q r a) named
          ∙ ap (λ p. unmount_with prefix kv from_human_size q p a) found))
        (count_unmount-IsConfined (vol_name_of cfg) cfg.unlocked
          (take_lock prefix kv from_human_size cfg.unlocked
            (mount_lock (vol_name_of cfg) q.hostname) a)
          a
          (take_lock-Alike (vol_name_of cfg) cfg.unlocked (mount_lock (vol_name_of cfg) q.hostname)
            a))
