-- ===== src/Lock/Acquire.antt =====
-- What `acquire` and `ClearLock` have done when they return.
use volplugin.Base.{
  ℕ, zero, suc, ◌≡◌, ◌≢◌, ◌≤◌, ◌⊎◌, inl, inr, refl, Option, none, some, false, List, [], ◌∷◌, ◌++◌,
  ℤ, pos, All, Text,
}
use volplugin.Errors.{Error, sentinel, lock_failed}
use volplugin.Etcd.{Etcd}
use volplugin.Config.Use.{UseLocker, remove_use}
use volplugin.Config.Use.Publish.{held_at, publish_use_grants}
use volplugin.Config.Use.Refresh.{publish_use_with_ttl_refreshes}
use volplugin.Config.Use.Remove.{remove_use_done}
use volplugin.Lock.Defs.{Round, returned, waiting, acquire, clear, publish_attempt}
use volplugin.Lock.Wait.{IsMonotone, retry_returns, retry_ends}

module _ (prefix : Text) (kv : Etcd UseLocker) where
  open kv use {Store}

  attempt_stands :
      (uc : UseLocker) (ttl : ℕ) (t : Store)
      → (publish_attempt prefix kv uc (pos ttl) t).0 ≡ none
      → held_at prefix kv (publish_attempt prefix kv uc (pos ttl) t).1 uc
        ≡ some (record { value = uc; ttl = ttl })
  attempt_stands uc zero t h = (publish_use_grants prefix kv t uc).1 h
  attempt_stands uc (suc ttl) t h = (publish_use_with_ttl_refreshes prefix kv t uc (suc ttl)).1 h

  -- With a clock that does not run backwards, when `acquire` returns nil, the lock stands at its key with the time to live that was asked for,
  -- also after any number of attempts; the only error that it returns is the failed lock.
  pub acquire_returns :
      (uc : UseLocker) (ttl : ℕ) (timeout : ℤ) (rs : List (Round Store)) (s : Store)
      {e : Option Error} {s' : Store}
      → All IsMonotone rs
      → acquire prefix kv uc (pos ttl) timeout rs s ≡ returned e s'
      → ((e ≡ none) × (held_at prefix kv s' uc ≡ some (record { value = uc; ttl = ttl })))
        ⊎ (e ≡ some (sentinel lock_failed))
  unfolding acquire
  acquire_returns uc ttl timeout rs s m h =
      let (t, last, how) =
        retry_returns (publish_attempt prefix kv uc (pos ttl)) timeout rs s m h in
      elim how [
        | inl (ok, got) ↦ inl (ok, rw last (attempt_stands uc ttl t got))
        | inr (bad, _) ↦ inr bad
      ]

  -- `acquire` with a timeout of at least zero has returned once the clock has passed the timeout,
  -- whatever the other clients do.
  pub acquire_ends :
      (uc : UseLocker) (ttl : ℤ) (t : ℕ) (rs : List (Round Store)) (last : Round Store)
      (s s' : Store)
      → t ≤ last.since
      → IsMonotone last
      → acquire prefix kv uc ttl (pos t) (rs ++ last ∷ []) s ≢ waiting s'
  unfolding acquire
  acquire_ends uc ttl t rs last s s' h m =
      retry_ends (publish_attempt prefix kv uc ttl) (pos t) t refl rs last s h m s'

  -- With a clock that does not run backwards, when `ClearLock` returns nil the key of the lock is free;
  -- the only error that it returns is the failed lock.
  clear_returns :
      (uc : UseLocker) (timeout : ℤ) (rs : List (Round Store)) (s : Store) {e : Option Error}
      {s' : Store}
      → All IsMonotone rs
      → clear prefix kv uc timeout rs s ≡ returned e s'
      → ((e ≡ none) × (held_at prefix kv s' uc ≡ none)) ⊎ (e ≡ some (sentinel lock_failed))
  unfolding clear
  clear_returns uc timeout rs s m h =
      let (t, last, how) = retry_returns (λ t. remove_use prefix kv t uc false) timeout rs s m h in
      elim how [
        | inl (ok, got) ↦ inl (ok, rw last (remove_use_done prefix kv t uc got).1)
        | inr (bad, _) ↦ inr bad
      ]
