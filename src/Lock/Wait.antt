-- ===== src/Lock/Wait.antt =====
-- `lockWait` and the retry loop: when a call returns, and with what.
use mathlib.Core.Path.{subst}
use volplugin.Base.{
  ℕ, zero, suc, ◌≡◌, ◌≢◌, ◌≤◌, ◌⊎◌, inl, inr, Option, none, some, Bool, true, false, List, [], ◌∷◌,
  ◌++◌, ℤ, pos, negsuc, arith, Option-cases, All,
}
use volplugin.Errors.{Error, sentinel, lock_failed}
use volplugin.Lock.Defs.{
  Round, Progress, returned, waiting, after_wait, after_attempt, lock_wait, retry,
}

-- The clock does not run backwards between the two readings.
abbrev pub IsMonotone : {S : Type 0} → Round S → Type 0
IsMonotone r = r.since ≤ r.since'

-- With a clock that does not run backwards, the wait ends in another attempt or in an error: the
-- fall-through that would let `acquire` return nil without the lock is not reached.
lock_wait_decides :
    (timeout : ℤ) (since since' : ℕ)
    → since ≤ since'
    → (lock_wait timeout since since' ≡ (true, none))
      ⊎ (lock_wait timeout since since' ≡ (false, some (sentinel lock_failed)))
unfolding lock_wait
lock_wait_decides (pos zero) since since' h = ground arith
lock_wait_decides (pos (suc t)) since since' h = ground arith
lock_wait_decides (negsuc zero) since since' h = ground arith
lock_wait_decides (negsuc (suc t)) since since' h = ground arith

lock_wait_expired :
    (t since since' : ℕ)
    → t ≤ since
    → since ≤ since'
    → lock_wait (pos t) since since' ≡ (false, some (sentinel lock_failed))
unfolding lock_wait
lock_wait_expired zero since since' h m = ground arith
lock_wait_expired (suc t) since since' h m = ground arith

module _ {S : Type 0} (attempt : S → Option Error × S) (timeout : ℤ) where
  -- A loop that returns has a nil error only from an attempt that gave one, and otherwise the error
  -- of the wait, after an attempt that failed.
  pub retry_returns :
      (rs : List (Round S)) (s : S) {e : Option Error} {s' : S}
      → All IsMonotone rs
      → retry attempt timeout rs s ≡ returned e s'
      → (t : S) × (s' ≡ (attempt t).1)
        × (((e ≡ none) × ((attempt t).0 ≡ none))
            ⊎ ((e ≡ some (sentinel lock_failed)) × ((attempt t).0 ≢ none)))
  unfolding retry
  retry_returns [] s m h = cc
  retry_returns (r ∷ rs) s m h = elim (Option-cases (attempt (r.others s)).0) [
    | inl done ↦ (r.others s, ground arith, inl (ground arith, done))
    | inr (x, failed) ↦ elim (lock_wait_decides timeout r.since r.since' m.0) [
      | inl again ↦ retry_returns rs (attempt (r.others s)).1 m.1 (ground arith)
      | inr out ↦ (r.others s, ground arith, inr (ground arith, ground arith))
    ]
  ]

  -- Once the clock has passed a timeout that is not negative, the loop has returned.
  pub retry_ends :
      (t : ℕ)
      → timeout ≡ pos t
      → (rs : List (Round S)) (last : Round S) (s : S) → t ≤ last.since
      → IsMonotone last
      → (s' : S) → retry attempt timeout (rs ++ last ∷ []) s ≢ waiting s'
  unfolding retry
  retry_ends t e [] last s h m s' = ground (arith, lock_wait_expired t last.since last.since' h m)
  retry_ends t e (r ∷ rs) last s h m s' = elim (Option-cases (attempt (r.others s)).0) [
    | inl done ↦ ground arith
    | inr (x, failed) ↦ ground (arith, retry_ends t e rs last (attempt (r.others s)).1 h m s')
  ]

  returned_state : {e f : Option Error} {t u : S} → returned e t ≡ returned f u → t ≡ u
  returned_state h = cc

  after_wait_keeps {κ} :
      (P : S → Type κ) (w : Bool × Option Error) (t : S) (again : Progress S) {e : Option Error}
      {s' : S}
      → P t
      → (again ≡ returned e s' → P s')
      → after_wait w t again ≡ returned e s'
      → P s'
  after_wait_keeps P (true, none) t again h ih r = ih r
  after_wait_keeps P (true, some x) t again h ih r = subst P (returned_state r) h
  after_wait_keeps P (false, some x) t again h ih r = subst P (returned_state r) h
  after_wait_keeps P (false, none) t again h ih r = subst P (returned_state r) h

  after_attempt_keeps {κ} :
      (P : S → Type κ) (o : Option Error) (w : Bool × Option Error) (t : S) (again : Progress S)
      {e : Option Error} {s' : S}
      → P t
      → (again ≡ returned e s' → P s')
      → after_attempt o w t again ≡ returned e s'
      → P s'
  after_attempt_keeps P none w t again h ih r = subst P (returned_state r) h
  after_attempt_keeps P (some x) w t again h ih r = after_wait_keeps P w t again h ih r

  -- What the other clients and the attempts leave alone, the loop leaves alone.
  pub retry_keeps {κ} :
      (P : S → Type κ)
      → ((t : S) → P t → P (attempt t).1)
      → (rs : List (Round S)) → All (λ r. (t : S) → P t → P (r.others t)) rs
      → (s : S) → P s
      → {e : Option Error} {s' : S} → retry attempt timeout rs s ≡ returned e s'
      → P s'
  unfolding retry
  retry_keeps P keep [] quiet s h r = cc
  retry_keeps P keep (x ∷ rs) quiet s h r =
      let next = keep (x.others s) (quiet.0 s h) in
      after_attempt_keeps P (attempt (x.others s)).0 (lock_wait timeout x.since x.since') _ _ next
        (retry_keeps P keep rs quiet.1 _ next) r
