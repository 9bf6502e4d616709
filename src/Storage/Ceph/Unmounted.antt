-- ===== src/Storage/Ceph/Unmounted.antt =====
-- The loop of `Unmount`: when it ends, and when it does not.
use volplugin.Base.{
  ℕ, zero, suc, ◌≡◌, ◌≤◌, ◌+◌, ◌∙◌, ap, refl, ◌⊎◌, Option, none, some, Text, ltb, arith, Bool-cases,
  inl, inr,
}
use volplugin.Errors.{sentinel, message}
use volplugin.Storage.Ceph.Machine.{
  Machine, Errno, enoent, einval, eexist, eio, ebusy, errno, Outcome, done, failed, running, Action,
}
use volplugin.Storage.Ceph.Mounts.{unmount_loop, unmounted}

module _ (m : Machine) (mountpath : Text) where
  open m use {Host}

  -- An answer of unmounting that the loop passes over: a success, or ENOENT or EINVAL, which is the answer
  -- for a path that is no mount point.
  abbrev pub Passes : Option Errno → Type 0
  Passes none = Unit
  Passes (some enoent) = Unit
  Passes (some einval) = Unit
  Passes (some e) = ⊥

  passed_over :
      (retry goes_on : Action Host (Unit {0})) (a : Option Errno) (h : Host)
      → Passes a
      → unmounted m mountpath retry goes_on a h ≡ goes_on h
  passed_over retry goes_on none h p = refl
  passed_over retry goes_on (some enoent) h p = refl
  passed_over retry goes_on (some einval) h p = refl
  passed_over retry goes_on (some eexist) h p = absurd p
  passed_over retry goes_on (some eio) h p = absurd p
  passed_over retry goes_on (some ebusy) h p = absurd p
  passed_over retry goes_on (some (errno n)) h p = absurd p

  -- Where each unmounting succeeds or answers ENOENT or EINVAL, as for a path that is no mount point any
  -- more, and each removal of the directory fails with EBUSY, the loop has not ended after any number of
  -- turns: the retries are counted only for the unmounting.
  pub unmount_loop-running :
      (path : Text)
      → ((h : Host) → Passes (m.unmount path h).0)
      → ((h : Host) → (m.remove path h).0 ≡ some ebusy)
      → (n : ℕ) (h : Host) → (unmount_loop m mountpath n 0 path h).0 ≡ running
  unfolding unmount_loop
  unmount_loop-running path passes busy zero h = refl
  unmount_loop-running path passes busy (suc n) h =
      ap (λ r. r.0) (passed_over _ _ (m.unmount path h).0 (m.unmount path h).1 (passes h))
      ∙ rw (busy (m.unmount path h).1) (unmount_loop-running path passes busy n _)

  abbrev pub Ended : Outcome (Unit {0}) → Type 0
  Ended o = (o ≡ done tt) ⊎ (o ≡ failed (sentinel message))

  -- An unmounting is tried again or goes on, whatever its answer.
  unmounted_cases :
      (retry goes_on : Action Host (Unit {0})) (a : Option Errno) (h : Host)
      → Ended (goes_on h).0
      → Ended (retry h).0
      → Ended (unmounted m mountpath retry goes_on a h).0
  unmounted_cases retry goes_on none h g r = g
  unmounted_cases retry goes_on (some enoent) h g r = g
  unmounted_cases retry goes_on (some einval) h g r = g
  unmounted_cases retry goes_on (some eexist) h g r = r
  unmounted_cases retry goes_on (some eio) h g r = r
  unmounted_cases retry goes_on (some ebusy) h g r = r
  unmounted_cases retry goes_on (some (errno n)) h g r = r

  -- Where the removal of the directory does not fail, the loop ends whatever the unmounting answers: four
  -- turns are enough, less those that were already taken.
  unmount_loop_ends :
      (path : Text)
      → ((h : Host) → (m.remove path h).0 ≡ none)
      → (n retries : ℕ) (h : Host) → 4 ≤ n + retries
      → retries ≤ 3
      → Ended (unmount_loop m mountpath n retries path h).0
  unfolding unmount_loop
  unmount_loop_ends path removes zero retries h enough few = absurd (omega arith)
  unmount_loop_ends path removes (suc n) retries h enough few = elim (Bool-cases (ltb retries 3)) [
    | inl more ↦ rw more (
        unmounted_cases _ _ (m.unmount path h).0 (m.unmount path h).1
          (rw (removes (m.unmount path h).1) (inl refl))
          (unmount_loop_ends path removes n (suc retries) (m.unmount path h).1 (omega arith)
            (ground (arith, more))))
    | inr enough_tries ↦ rw enough_tries (inr refl)
  ]
