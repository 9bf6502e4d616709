-- ===== src/Supervisor/Prune.antt =====
-- Which snapshots a pruning removes.
use volplugin.Base.{
  ℕ, zero, suc, ◌+◌, ◌-◌, ◌≡◌, ◌≤◌, ◌<◌, refl, true, false, none, some, List, [], ◌∷◌, map, Text,
  codes, pos, negsuc, length, leb, Bool-cases, inl, inr, get_elem?, take, drop, arith, ap, ◌∙◌,
}
use Prim.Native.Nat.{min}
use volplugin.Config.Global.{two_63}
use volplugin.Errors.{ok}
use volplugin.Supervisor.Defs.{
  remove_snapshot, Trace, to_delete_count, remove_from, removals, held, prune_snapshots,
}

get_elem?-drop :
    (l : List Text) (i : ℕ)
    → i < length l
    → (x : Text) × (get_elem? l i ≡ some x) × (drop i l ≡ x ∷ drop (suc i) l)
get_elem?-drop [] i h = absurd (omega arith)
get_elem?-drop (x ∷ l) zero h = (x, refl, refl)
get_elem?-drop (x ∷ l) (suc i) h = get_elem?-drop l i (omega arith)

remove_from_lem :
    (l : List Text) (i n : ℕ)
    → i + n ≤ length l
    → remove_from l i n ≡ (map remove_snapshot (take n (drop i l)), false)
unfolding remove_from
remove_from_lem l i zero h = refl
remove_from_lem l i (suc n) h =
    let (x, at, dropped) = get_elem?-drop l i (omega arith) in
    rw (at, dropped, remove_from_lem l (suc i) n (omega arith)) refl

length-drop : (l : List Text) (n : ℕ) → length (drop n l) ≡ length l - n
length-drop l zero = omega arith
length-drop [] (suc n) = omega arith
length-drop (x ∷ l) (suc n) = omega (arith, length-drop l n)

removal_run : List Text → ℕ → Trace
removal_run l n = record {
  calls = map remove_snapshot (take n l);
  locked = true;
  stopped = true;
  crashed = false;
}

count_more :
    (n keep : ℕ) → n < two_63 → keep < two_63 → keep ≤ n → to_delete_count n keep ≡ pos (n - keep)
unfolding to_delete_count
count_more n keep s h k = ground arith

count_fewer :
    (n keep : ℕ)
    → n < two_63
    → keep < two_63
    → n < keep
    → to_delete_count n keep ≡ negsuc (keep - n - 1)
unfolding to_delete_count
count_fewer n keep s h k = ground arith

zero_left : (n keep : ℕ) → n < keep → 0 ≡ n - keep
zero_left n keep h = omega arith

removals_lem :
    (l : List Text) (keep : ℕ)
    → length l < two_63
    → keep < two_63
    → held (removals l (to_delete_count (length l) keep)) ≡ removal_run l (length l - keep)
unfolding removal_run
removals_lem l keep s h = elim (Bool-cases (leb keep (length l))) [
  | inl more ↦
      ap (λ c. held (removals l c)) (count_more (length l) keep s h (ground arith))
      ∙ ap held (remove_from_lem l 0 (length l - keep) (ground arith))
  | inr fewer ↦
      ap (λ c. held (removals l c)) (count_fewer (length l) keep s h (ground arith))
      ∙ ap (λ n. removal_run l n) (zero_left (length l) keep (ground arith))
]

-- Pruning a volume of the ceph driver, once its lock is taken and its snapshots are listed, where `keep` and
-- the number of the snapshots are below 2 ^ 63, removes, in the order of the driver's list, the snapshots at
-- its front that are more than `keep`, and no other: as many as `keep` are left, or all if there are
-- fewer. Under these bounds it does not panic, and it tells the goroutine of its lock to stop.
pub prune_snapshots_keeps :
    (l : List Text) (keep : ℕ)
    → length l < two_63
    → keep < two_63
    → (prune_snapshots (codes "ceph") none (ok l) keep ≡ record {
      calls = map remove_snapshot (take (length l - keep) l);
      locked = true;
      stopped = true;
      crashed = false;
    })
      × (length (drop (length l - keep) l) ≡ min (length l) keep)
unfolding prune_snapshots removal_run
prune_snapshots_keeps l keep s h =
    (removals_lem l keep s h, omega (arith, length-drop l (length l - keep)))
