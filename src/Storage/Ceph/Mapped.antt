-- ===== src/Storage/Ceph/Mapped.antt =====
-- The retries of the mapping of an image.
use volplugin.Base.{
  ℕ, zero, suc, ◌≡◌, ◌≤◌, ◌⊎◌, inl, inr, refl, ◌∙◌, Bool, true, false, none, some, Text, arith,
  Bool-cases,
}
use volplugin.Storage.Ceph.Machine.{Machine, Command, Answer, done, Action}
use volplugin.Storage.Ceph.Mapping.{map_loop, retried}

abbrev pub has_error : Answer → Bool
has_error (r, none) = false
has_error (r, some e) = true

module _ (m : Machine) where
  open m use {Host}

  -- The host after a number of runs of `rbd map`, and whether they all had an error.
  abbrev pub attempts : Text → Text → ℕ → Host → Host
  attempts name pool zero h = h
  attempts name pool (suc k) h = attempts name pool k (m.run (Command.rbd_map name pool) h).1

  abbrev pub AllErred : Text → Text → ℕ → Host → Type 0
  AllErred name pool zero h = Unit
  AllErred name pool (suc k) h =
      (has_error (m.run (Command.rbd_map name pool) h).0 ≡ true)
      × AllErred name pool k (m.run (Command.rbd_map name pool) h).1

  retried_error :
      (again : Action Host Answer) (a : Answer) (h : Host)
      → has_error a ≡ true
      → retried m again a h ≡ again h
  retried_error again (r, none) h e = cc
  retried_error again (r, some x) h e = refl

  retried_fine :
      (again : Action Host Answer) (a : Answer) (h : Host)
      → has_error a ≡ false
      → retried m again a h ≡ (done a, h)
  retried_fine again (r, none) h e = refl
  retried_fine again (r, some x) h e = cc

  -- An image is mapped by at least one run of the command and by at most one more than the retries that are left: every
  -- run but the last had an error, the last is the answer, and it has an error only if all retries were used.
  map_loop_bounded :
      (n : ℕ) (name pool : Text) (h : Host)
      → (k : ℕ) × (a : Answer) × (k ≤ n)
        × (map_loop m n name pool h ≡ (done a, attempts name pool (suc k) h))
        × AllErred name pool k h
        × ((has_error a ≡ false) ⊎ (k ≡ n))
  unfolding map_loop
  map_loop_bounded zero name pool h =
      (0, (m.run (Command.rbd_map name pool) h).0, omega arith, refl, tt, inr refl)
  map_loop_bounded (suc n) name pool h =
      let a = (m.run (Command.rbd_map name pool) h).0 in
      let h' = (m.run (Command.rbd_map name pool) h).1 in
      elim (Bool-cases (has_error a)) [
        | inl erred ↦
            let (k, b, le, e, all, last) = map_loop_bounded n name pool h' in
            (
              suc k,
              b,
              omega arith,
              retried_error (map_loop m n name pool) a h' erred ∙ e,
              (erred, all),
              elim last [ inl fine ↦ inl fine | inr used ↦ inr (omega arith) ],
            )
        | inr fine ↦
            (0, a, omega arith, retried_fine (map_loop m n name pool) a h' fine, tt, inl fine)
      ]
