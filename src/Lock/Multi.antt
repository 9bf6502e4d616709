-- ===== src/Lock/Multi.antt =====
-- Several locks around one call: `ExecuteWithMultiUseLock` and `ExecuteWithUseLock`.
use volplugin.Base.{
  ◌≡◌, ◌∙◌, sym, refl, Option, none, some, false, List, [], ◌∷◌, ℤ, pos, All, Text,
}
use volplugin.Errors.{Error}
use volplugin.Etcd.{Etcd, Node}
use volplugin.Config.Use.{UseLocker, publish_use, lock_key}
use volplugin.Config.Use.Publish.{held_at, publish_use_elsewhere}
use volplugin.Config.Use.Remove.{remove_use_own, remove_use_elsewhere}
use volplugin.Lock.Defs.{
  Round, returned, acquire, release, release_all, lockers, Schedule, acquire_all,
  execute_with_multi_use_lock,
}
use volplugin.Lock.Wait.{retry_keeps}

module _ (prefix : Text) (kv : Etcd UseLocker) where
  open kv use {Store, read}

  -- The lock stands at its key, with any time to live; nothing stands there.
  abbrev pub Owns : Store → UseLocker → Type 0
  Owns s uc = (n : Node UseLocker) × (held_at prefix kv s uc ≡ some n) × (n.value ≡ uc)

  abbrev pub IsFree : Store → UseLocker → Type 0
  IsFree s uc = held_at prefix kv s uc ≡ none

  -- No two of the locks share a key.
  abbrev pub Differs : UseLocker → UseLocker → Type 0
  Differs u w = lock_key prefix u ≡ lock_key prefix w → ⊥

  abbrev pub AllDiffer : List UseLocker → Type 0
  AllDiffer [] = Unit
  AllDiffer (u ∷ us) = All (Differs u) us × AllDiffer us

  release-Owns :
      (u : UseLocker) (s : Store) (us : List UseLocker)
      → All (Differs u) us
      → All (Owns s) us
      → All (Owns (release prefix kv u s)) us
  release-Owns u s [] d o = tt
  release-Owns u s (w ∷ us) (d, ds) ((n, h, e), os) = (
    (n, remove_use_elsewhere prefix kv s u false (lock_key prefix w) d ∙ h, e),
    release-Owns u s us ds os,
  )

  release_all_IsFree_other :
      (k : Text) (us : List UseLocker) (s : Store)
      → All (λ u. lock_key prefix u ≡ k → ⊥) us
      → read (release_all prefix kv us s) k ≡ read s k
  unfolding release_all
  release_all_IsFree_other k [] s d = refl
  release_all_IsFree_other k (u ∷ us) s (d, ds) =
      release_all_IsFree_other k us (release prefix kv u s) ds
      ∙ remove_use_elsewhere prefix kv s u false k d

  flip_Differs :
      (u : UseLocker) (us : List UseLocker) → All (Differs u) us → All (λ w. Differs w u) us
  flip_Differs u [] d = tt
  flip_Differs u (w ∷ us) (d, ds) = ((λ e. d (sym e)), flip_Differs u us ds)

  -- Releasing locks of different keys, all of them there, leaves every one of the keys free.
  release_all-IsFree :
      (us : List UseLocker) (s : Store)
      → AllDiffer us
      → All (Owns s) us
      → All (IsFree (release_all prefix kv us s)) us
  unfolding release_all
  release_all-IsFree [] s d o = tt
  release_all-IsFree (u ∷ us) s (d, ds) ((n, h, e), os) = (
    release_all_IsFree_other (lock_key prefix u) us (release prefix kv u s) (flip_Differs u us d)
        ∙ (remove_use_own prefix kv s u n h e).1,
    release_all-IsFree us (release prefix kv u s) ds (release-Owns u s us d os),
  )

  -- When all the locks were acquired, at different keys, and the function left them in place, the call returns what the
  -- function returned, whether an error or nil, and every lock is free.
  pub execute_with_multi_use_lock_releases :
      (l : Schedule prefix kv) (timeout : ℤ) (run : Store → Option Error × Store) (s s' : Store)
      → acquire_all prefix kv l timeout s ≡ returned none s'
      → AllDiffer (lockers prefix kv l)
      → All (Owns (run s').1) (lockers prefix kv l)
      → (t : Store) × (execute_with_multi_use_lock prefix kv l timeout run s
          ≡ returned (run s').0 t)
        × All (IsFree t) (lockers prefix kv l)
  unfolding execute_with_multi_use_lock
  execute_with_multi_use_lock_releases l timeout run s s' got d o = (
    release_all prefix kv (lockers prefix kv l) (run s').1,
    rw got refl,
    release_all-IsFree (lockers prefix kv l) (run s').1 d o,
  )

  -- When the first lock was acquired and the second was not, the call returns the error and the
  -- first lock still stands: nothing releases it. The other clients are assumed not to touch it.
  pub execute_with_multi_use_lock_leaks :
      (u w : UseLocker) (rs qs : List (Round Store)) (timeout : ℤ)
      (run : Store → Option Error × Store) (s s' t : Store) (e : Error)
      → Differs w u
      → acquire prefix kv u (pos 0) timeout rs s ≡ returned none s'
      → Owns s' u
      → All (λ r. (x : Store) → Owns x u → Owns (r.others x) u) qs
      → acquire prefix kv w (pos 0) timeout qs s' ≡ returned (some e) t
      → (execute_with_multi_use_lock prefix kv ((u, rs) ∷ (w, qs) ∷ []) timeout run s
          ≡ returned (some e) t)
        × Owns t u
  unfolding execute_with_multi_use_lock acquire_all
  execute_with_multi_use_lock_leaks u w rs qs timeout run s s' t e d got held quiet failed = (
    rw (got, failed) refl,
    unfold acquire in retry_keeps _ timeout (λ x. Owns x u) keep qs quiet s' held failed,
  )
    where
      keep : (x : Store) → Owns x u → Owns (publish_use prefix kv x w).1 u
      keep x (n, h, same) = (n, publish_use_elsewhere prefix kv x w (lock_key prefix u) d ∙ h, same)
