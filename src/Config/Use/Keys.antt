-- ===== src/Config/Use/Keys.antt =====
-- The keys of the locks: two locks meet at one key only if they have one type and one volume.
use volplugin.Base.{◌≡◌, [], ◌∷◌, ◌++◌, Text, codes, arith, Lacks, cut, cut_complete, ap}
use volplugin.Config.Use.Defs.{
  UseLocker, use_mount, use_snapshot, use_volsupervisor, use_type, get_volume, use_key, lock_key,
}

use_type-Lacks : (u : UseLocker) → Lacks 0x2f (use_type u)
unfolding use_type
use_type-Lacks (use_mount v h r) = omega arith
use_type-Lacks (use_snapshot v r) = omega arith
use_type-Lacks (use_volsupervisor h) = omega arith

append_cancel : (p a b : Text) → p ++ a ≡ p ++ b → a ≡ b
append_cancel [] a b e = e
append_cancel (c ∷ p) a b e = append_cancel p a b (ground arith)

-- Locks of different types or volumes never share a key.
pub lock_key_injective :
    (prefix : Text) (u w : UseLocker)
    → lock_key prefix u ≡ lock_key prefix w
    → (use_type u ≡ use_type w) × (get_volume u ≡ get_volume w)
unfolding use_key
lock_key_injective prefix u w e =
    let rest : use_type u ++ 0x2f ∷ get_volume u ≡ use_type w ++ 0x2f ∷ get_volume w =
      append_cancel (codes "/users/") _ _ (append_cancel prefix _ _ e) in
    let cuts : cut 0x2f (use_type u ++ 0x2f ∷ get_volume u)
        ≡ cut 0x2f (use_type w ++ 0x2f ∷ get_volume w) =
      ap (cut 0x2f) rest in
    ground (
      arith,
      cuts,
      cut_complete 0x2f (use_type u) (get_volume u) (use_type-Lacks u),
      cut_complete 0x2f (use_type w) (get_volume w) (use_type-Lacks w),
    )
