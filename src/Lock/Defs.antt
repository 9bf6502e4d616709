-- ===== src/Lock/Defs.antt =====
-- `Driver.lockWait`, `acquire`, `clear`, `ExecuteWithUseLock` and `ExecuteWithMultiUseLock`.
-- A call that retries is read over a schedule: one round for each attempt, with what other clients
-- did to the store before it, and what `time.Since(now)` gave the two times that it is read after it.
use volplugin.Base.{
  ℕ, zero, Option, none, some, Bool, true, false, ◌&&◌, ◌||◌, not, List, [], ◌∷◌, Text, ℤ, pos,
  negsuc, ltb_ℤ, leb_ℤ, if◌then◌else◌,
}
use volplugin.Errors.{Error, sentinel, lock_failed, lock_publish}
use volplugin.Etcd.{Etcd}
use volplugin.Config.Use.{UseLocker, publish_use, publish_use_with_ttl, remove_use}

abbrev pub is_zero : ℤ → Bool
is_zero (pos zero) = true
is_zero _ = false

abbrev pub is_minus_one : ℤ → Bool
is_minus_one (negsuc zero) = true
is_minus_one _ = false

-- Whether to try again, and the error; the log lines and the sleep have no result.
unfoldable pub lock_wait : ℤ → ℕ → ℕ → Bool × Option Error
lock_wait timeout since since' =
    if not (is_zero timeout) && (is_minus_one timeout || ltb_ℤ (pos since) timeout)
    then (true, none)
    else if leb_ℤ timeout (pos since')
    then (false, some (sentinel lock_failed))
    else (false, none)

pub record Round (S : Type 0) : Type 0 where
  pub others : S → S
  pub since : ℕ
  pub since' : ℕ

-- A call that has returned with a nil error or an error, or that waits for its next attempt.
pub data Progress (S : Type 0) : Type 0 where
  returned : Option Error → S → Progress S
  waiting : S → Progress S

module _ {S : Type 0} where
  -- After a failed attempt: again, or out by one of the two returns.
  abbrev pub after_wait : Bool × Option Error → S → Progress S → Progress S
  after_wait (true, none) s again = again
  after_wait (true, some e) s again = returned (some e) s
  after_wait (false, some e) s again = returned (some e) s
  after_wait (false, none) s again = returned none s

  abbrev pub after_attempt : Option Error → Bool × Option Error → S → Progress S → Progress S
  after_attempt none wait s again = returned none s
  after_attempt (some e) wait s again = after_wait wait s again

  -- The loop of `acquire` and `clear` around one attempt.
  unfoldable pub retry : (S → Option Error × S) → ℤ → List (Round S) → S → Progress S
  retry attempt timeout [] s = waiting s
  retry attempt timeout (r ∷ rs) s =
      let (e, s') = attempt (r.others s) in
      let again = retry attempt timeout rs s' in
      after_attempt e (lock_wait timeout r.since r.since') s' again

module _ (prefix : Text) (kv : Etcd UseLocker) where
  open kv use {Store}

  abbrev pub publish_attempt : UseLocker → ℤ → Store → Option Error × Store
  publish_attempt uc ttl s =
      if is_zero ttl then publish_use prefix kv s uc else publish_use_with_ttl prefix kv s uc ttl

  unfoldable pub acquire : UseLocker → ℤ → ℤ → List (Round Store) → Store → Progress Store
  acquire uc ttl timeout = retry (publish_attempt uc ttl) timeout

  -- `clear`, which `ClearLock` calls.
  unfoldable pub clear : UseLocker → ℤ → List (Round Store) → Store → Progress Store
  clear uc timeout = retry (λ s. remove_use prefix kv s uc false) timeout

  -- The deferred removal: its error is logged.
  abbrev pub release : UseLocker → Store → Store
  release uc s = (remove_use prefix kv s uc false).1

  unfoldable pub execute_with_use_lock :
      UseLocker → (Store → Option Error × Store) → Store → Option Error × Store
  execute_with_use_lock uc run s =
      let (e, s') = publish_use prefix kv s uc in
      elim e [
        | some _ ↦ (some (sentinel lock_publish), s')
        | none ↦ let (r, s'') = run s' in (r, release uc s'')
      ]

  unfoldable pub release_all : List UseLocker → Store → Store
  release_all [] s = s
  release_all (uc ∷ ucs) s = release_all ucs (release uc s)

  -- The rounds that each of the acquisitions takes.
  abbrev pub Schedule : Type 0
  Schedule = List (UseLocker × List (Round Store))

  abbrev pub lockers : Schedule → List UseLocker
  lockers [] = []
  lockers ((uc, rs) ∷ l) = uc ∷ lockers l

  abbrev continue_with : Progress Store → (Store → Progress Store) → Progress Store
  continue_with (returned none s) k = k s
  continue_with (returned (some e) s) k = returned (some e) s
  continue_with (waiting s) k = waiting s

  -- The first loop: it returns at the first error, and releases nothing.
  unfoldable pub acquire_all : Schedule → ℤ → Store → Progress Store
  acquire_all [] timeout s = returned none s
  acquire_all ((uc, rs) ∷ l) timeout s =
      continue_with (acquire uc (pos 0) timeout rs s) (λ s'. acquire_all l timeout s')

  abbrev run_and_release : List UseLocker → (Store → Option Error × Store) → Store → Progress Store
  run_and_release ucs run s = let (r, s') = run s in returned r (release_all ucs s')

  unfoldable pub execute_with_multi_use_lock :
      Schedule → ℤ → (Store → Option Error × Store) → Store → Progress Store
  execute_with_multi_use_lock l timeout run s =
      continue_with (acquire_all l timeout s) (run_and_release (lockers l) run)
