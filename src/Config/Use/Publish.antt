-- ===== src/Config/Use/Publish.antt =====
-- What publishing and removing a use lock does, by what is stored at its key.
use volplugin.Base.{
  ◌≡◌, ◌≢◌, Option, none, some, true, false, [], ◌∷◌, Text, arith, ◌⊎◌, ◌↔◌, inl, inr, Option-cases,
  Bool-cases,
}
use volplugin.Errors.{
  Error, combine, sentinel, etcd, errored, exists, lock_failed, node_exist, etcd_to_errored,
}
use volplugin.Etcd.{Etcd, Node}
use volplugin.Config.Use.Defs.{
  UseLocker, UseLocker-discrete, may_exist, lock_key, publish_use, create_options, same_options,
}

module _ (prefix : Text) (kv : Etcd UseLocker) where
  open kv use {Store, read, set, delete, set-answer, read-set_self, read-set_ne, V-discrete}
  open kv use {delete-answer, read-delete_self, read-delete_ne}

  abbrev pub held_at : Store → UseLocker → Option (Node UseLocker)
  held_at s ut = read s (lock_key prefix ut)

  module _ (s : Store) (ut : UseLocker) where
    -- The state after the first Set, which asks for no node.
    abbrev tried : Store
    tried = (set s (lock_key prefix ut) ut (create_options prefix kv)).1

    pub publish_use_free :
        held_at s ut ≡ none
        → let (e, s') = publish_use prefix kv s ut in
          (e ≡ none) × (held_at s' ut ≡ some (record { value = ut; ttl = 0 }))
    unfolding publish_use
    publish_use_free free = ground (
      arith,
      set-answer s (lock_key prefix ut) ut (create_options prefix kv),
      read-set_self s (lock_key prefix ut) ut (create_options prefix kv),
    )

    tried_held : (n : Node UseLocker) → held_at s ut ≡ some n → held_at tried ut ≡ some n
    tried_held n h = ground (
      arith,
      set-answer s (lock_key prefix ut) ut (create_options prefix kv),
      read-set_self s (lock_key prefix ut) ut (create_options prefix kv),
    )

    pub publish_use_again :
        (n : Node UseLocker)
        → held_at s ut ≡ some n
        → n.value ≡ ut
        → may_exist ut ≡ true
        → let (e, s') = publish_use prefix kv s ut in
          (e ≡ none) × (held_at s' ut ≡ some (record { value = ut; ttl = 0 }))
    unfolding publish_use
    publish_use_again n h same may = ground (
      arith,
      tried_held n h,
      set-answer s (lock_key prefix ut) ut (create_options prefix kv),
      set-answer tried (lock_key prefix ut) ut (same_options prefix kv ut),
      read-set_self tried (lock_key prefix ut) ut (same_options prefix kv ut),
    )

    pub publish_use_other :
        (n : Node UseLocker)
        → held_at s ut ≡ some n
        → n.value ≢ ut
        → may_exist ut ≡ true
        → let (e, s') = publish_use prefix kv s ut in
          (e ≡ some (sentinel lock_failed)) × (held_at s' ut ≡ some n)
    unfolding publish_use etcd_to_errored
    publish_use_other n h differs may = ground (
      arith,
      tried_held n h,
      set-answer s (lock_key prefix ut) ut (create_options prefix kv),
      set-answer tried (lock_key prefix ut) ut (same_options prefix kv ut),
      read-set_self tried (lock_key prefix ut) ut (same_options prefix kv ut),
    )

    publish_use_taken :
        (n : Node UseLocker)
        → held_at s ut ≡ some n
        → may_exist ut ≡ false
        → let (e, s') = publish_use prefix kv s ut in
          (e ≡ some (errored (exists ∷ etcd node_exist ∷ []))) × (held_at s' ut ≡ some n)
    unfolding publish_use etcd_to_errored combine
    publish_use_taken n h may =
        ground
          (arith, tried_held n h, set-answer s (lock_key prefix ut) ut (create_options prefix kv))

    pub publish_use_elsewhere :
        (k : Text) → (lock_key prefix ut ≡ k → ⊥) → read (publish_use prefix kv s ut).1 k ≡ read s k
    unfolding publish_use
    publish_use_elsewhere k ne = ground (
      arith,
      read-set_ne s (lock_key prefix ut) k ut (create_options prefix kv) ne,
      read-set_ne tried (lock_key prefix ut) k ut (same_options prefix kv ut) ne,
    )

    -- The lock is free, or it is already this one and may be there.
    abbrev pub Grantable : Type 0
    Grantable =
        (held_at s ut ≡ none)
        ⊎ ((n : Node UseLocker) × (held_at s ut ≡ some n) × (n.value ≡ ut) × (may_exist ut ≡ true))

    -- An answer and the store it leaves, for a lock that could be had and for one that could not.
    record IsPublished (e : Option Error) (s' : Store) : Type 0 where
      pub granted : (e ≡ none) ↔ Grantable
      pub stands : e ≡ none → held_at s' ut ≡ some (record { value = ut; ttl = 0 })
      pub left : e ≢ none → held_at s' ut ≡ held_at s ut

    granted_IsPublished :
        (e : Option Error) (s' : Store)
        → Grantable
        → (e ≡ none) × (held_at s' ut ≡ some (record { value = ut; ttl = 0 }))
        → IsPublished e s'
    granted_IsPublished e s' g (ok, h) = record {
      granted = (λ _. g, λ _. ok);
      stands = λ _. h;
      left = λ bad. absurd (bad ok);
    }

    refused_IsPublished :
        (e : Option Error) (s' : Store) (n : Node UseLocker) (x : Error)
        → held_at s ut ≡ some n
        → (n.value ≡ ut → may_exist ut ≡ true → ⊥)
        → (e ≡ some x) × (held_at s' ut ≡ some n)
        → IsPublished e s'
    refused_IsPublished e s' n x was no_grant (bad, h) = record {
      granted = (λ ok. cc, λ g. absurd (refused g));
      stands = λ ok. cc;
      left = λ _. cc;
    }
      where
        refused : Grantable → ⊥
        refused (inl free) = cc
        refused (inr (m, h', same, may)) = no_grant (cc) may

    publish_use-IsPublished :
        IsPublished (publish_use prefix kv s ut).0 (publish_use prefix kv s ut).1
    publish_use-IsPublished = elim (Option-cases (held_at s ut)) [
      | inl free ↦ granted_IsPublished _ _ (inl free) (publish_use_free free)
      | inr (n, h) ↦ elim (Bool-cases (may_exist ut)) [
        | inl may ↦ elim (UseLocker-discrete n.value ut) [
          | yes same ↦
              granted_IsPublished _ _ (inr (n, h, same, may)) (publish_use_again n h same may)
          | no differs ↦
              refused_IsPublished _ _ n _ h (λ e _. differs e) (publish_use_other n h differs may)
        ]
        | inr may ↦ refused_IsPublished _ _ n _ h (λ _ e. cc) (publish_use_taken n h may)
      ]
    ]

    -- Publishing succeeds exactly when the lock is free, or is already this one and of a type that may
    -- exist; then the lock stands at its key with no expiry, and otherwise the key is left as it was.
    -- No other key is changed.
    pub publish_use_grants :
        let (e, s') = publish_use prefix kv s ut in
        ((e ≡ none) ↔ Grantable)
        × (e ≡ none → held_at s' ut ≡ some (record { value = ut; ttl = 0 }))
        × (e ≢ none → held_at s' ut ≡ held_at s ut)
        × ((k : Text) → (lock_key prefix ut ≡ k → ⊥) → read s' k ≡ read s k)
    publish_use_grants =
        let p = publish_use-IsPublished in (p.granted, p.stands, p.left, publish_use_elsewhere)
