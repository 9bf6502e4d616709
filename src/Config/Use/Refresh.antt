-- ===== src/Config/Use/Refresh.antt =====
-- `PublishUseWithTTL`: a compare and swap, and a lock made anew where none is.
use volplugin.Base.{
  ◌≡◌, ◌≢◌, ◌↔◌, ◌⊎◌, inl, inr, ℕ, Option, none, some, Text, arith, Option-cases, pos,
}
use volplugin.Errors.{Error, etcd_to_errored}
use volplugin.Etcd.{Etcd, Node}
use volplugin.Config.Use.Defs.{
  UseLocker, UseLocker-discrete, lock_key, publish_use_with_ttl, refresh_options, expiring_options,
}
use volplugin.Config.Use.Publish.{held_at}

module _ (prefix : Text) (kv : Etcd UseLocker) where
  open kv use {Store, read, set, set-answer, read-set_self, read-set_ne}

  module _ (s : Store) (ut : UseLocker) (ttl : ℕ) where
    abbrev swapped : Store
    swapped = (set s (lock_key prefix ut) ut (refresh_options prefix kv ut ttl)).1

    -- The lock is free, or it holds these very contents.
    abbrev pub Refreshable : Type 0
    Refreshable =
        (held_at prefix kv s ut ≡ none)
        ⊎ ((n : Node UseLocker) × (held_at prefix kv s ut ≡ some n) × (n.value ≡ ut))

    swapped_free : held_at prefix kv s ut ≡ none → held_at prefix kv swapped ut ≡ none
    swapped_free free = ground (
      arith,
      set-answer s (lock_key prefix ut) ut (refresh_options prefix kv ut ttl),
      read-set_self s (lock_key prefix ut) ut (refresh_options prefix kv ut ttl),
    )

    refresh_free :
        held_at prefix kv s ut ≡ none
        → let (e, s') = publish_use_with_ttl prefix kv s ut (pos ttl) in
          (e ≡ none) × (held_at prefix kv s' ut ≡ some (record { value = ut; ttl = ttl }))
    unfolding publish_use_with_ttl etcd_to_errored
    refresh_free free = ground (
      arith,
      swapped_free free,
      set-answer s (lock_key prefix ut) ut (refresh_options prefix kv ut ttl),
      set-answer swapped (lock_key prefix ut) ut (expiring_options prefix kv ttl),
      read-set_self swapped (lock_key prefix ut) ut (expiring_options prefix kv ttl),
    )

    refresh_same :
        (n : Node UseLocker)
        → held_at prefix kv s ut ≡ some n
        → n.value ≡ ut
        → let (e, s') = publish_use_with_ttl prefix kv s ut (pos ttl) in
          (e ≡ none) × (held_at prefix kv s' ut ≡ some (record { value = ut; ttl = ttl }))
    unfolding publish_use_with_ttl etcd_to_errored
    refresh_same n h same = ground (
      arith,
      set-answer s (lock_key prefix ut) ut (refresh_options prefix kv ut ttl),
      read-set_self s (lock_key prefix ut) ut (refresh_options prefix kv ut ttl),
    )

    refresh_other :
        (n : Node UseLocker)
        → held_at prefix kv s ut ≡ some n
        → n.value ≢ ut
        → let (e, s') = publish_use_with_ttl prefix kv s ut (pos ttl) in
          (e ≢ none) × (held_at prefix kv s' ut ≡ some n)
    unfolding publish_use_with_ttl etcd_to_errored
    refresh_other n h differs = ground (
      arith,
      set-answer s (lock_key prefix ut) ut (refresh_options prefix kv ut ttl),
      read-set_self s (lock_key prefix ut) ut (refresh_options prefix kv ut ttl),
    )

    refresh_elsewhere :
        (k : Text)
        → (lock_key prefix ut ≡ k → ⊥)
        → read (publish_use_with_ttl prefix kv s ut (pos ttl)).1 k ≡ read s k
    unfolding publish_use_with_ttl
    refresh_elsewhere k ne = ground (
      arith,
      read-set_ne s (lock_key prefix ut) k ut (refresh_options prefix kv ut ttl) ne,
      read-set_ne swapped (lock_key prefix ut) k ut (expiring_options prefix kv ttl) ne,
    )

    record IsRefreshed (e : Option Error) (s' : Store) : Type 0 where
      granted : (e ≡ none) ↔ Refreshable
      stands : e ≡ none → held_at prefix kv s' ut ≡ some (record { value = ut; ttl = ttl })
      left : e ≢ none → held_at prefix kv s' ut ≡ held_at prefix kv s ut

    granted_IsRefreshed :
        (e : Option Error) (s' : Store)
        → Refreshable
        → (e ≡ none) × (held_at prefix kv s' ut ≡ some (record { value = ut; ttl = ttl }))
        → IsRefreshed e s'
    granted_IsRefreshed e s' g (ok, h) = record {
      granted = (λ _. g, λ _. ok);
      stands = λ _. h;
      left = λ bad. absurd (bad ok);
    }

    refused_IsRefreshed :
        (e : Option Error) (s' : Store) (n : Node UseLocker)
        → held_at prefix kv s ut ≡ some n
        → n.value ≢ ut
        → (e ≢ none) × (held_at prefix kv s' ut ≡ some n)
        → IsRefreshed e s'
    refused_IsRefreshed e s' n was differs (bad, h) = record {
      granted = (λ ok. absurd (bad ok), λ g. absurd (refused g));
      stands = λ ok. absurd (bad ok);
      left = λ _. cc;
    }
      where
        refused : Refreshable → ⊥
        refused (inl free) = cc
        refused (inr (m, h', same)) = differs (cc)

    publish_use_with_ttl-IsRefreshed :
        let (e, s') = publish_use_with_ttl prefix kv s ut (pos ttl) in IsRefreshed e s'
    publish_use_with_ttl-IsRefreshed = elim (Option-cases (held_at prefix kv s ut)) [
      | inl free ↦ granted_IsRefreshed _ _ (inl free) (refresh_free free)
      | inr (n, h) ↦ elim (UseLocker-discrete n.value ut) [
        | yes same ↦ granted_IsRefreshed _ _ (inr (n, h, same)) (refresh_same n h same)
        | no differs ↦ refused_IsRefreshed _ _ n h differs (refresh_other n h differs)
      ]
    ]

    -- Publishing with a time to live that is not negative succeeds exactly when the key is free or
    -- holds this very lock, whatever its type; then the lock stands with that time to live, and
    -- otherwise the key is left as it was. No other key is changed.
    pub publish_use_with_ttl_refreshes :
        let (e, s') = publish_use_with_ttl prefix kv s ut (pos ttl) in
        ((e ≡ none) ↔ Refreshable)
        × (e ≡ none → held_at prefix kv s' ut ≡ some (record { value = ut; ttl = ttl }))
        × (e ≢ none → held_at prefix kv s' ut ≡ held_at prefix kv s ut)
        × ((k : Text) → (lock_key prefix ut ≡ k → ⊥) → read s' k ≡ read s k)
    publish_use_with_ttl_refreshes =
        let p = publish_use_with_ttl-IsRefreshed in (p.granted, p.stands, p.left, refresh_elsewhere)
