-- ===== src/Base/Maps.antt =====
-- Go maps with string keys, as total functions into what a missing key reads.
use mathlib.Core.Path.{◌≡◌, refl}
use mathlib.Core.Logic.{◌≢◌}
use native.Mathlib.Omega.{arith}
use volplugin.Base.Tests.{if◌then◌else◌}
use volplugin.Base.Strings.{Text, text_eq, text_eq_iff, text_eq_refl}

module _ {ℓ} {A : Type ℓ} where
  -- `m[k] = v`, and `delete(m, k)` with what a missing key reads for `v`.
  abbrev pub update : (Text → A) → Text → A → Text → A
  update m k v j = if text_eq k j then v else m j

  pub update_self : (m : Text → A) (k : Text) (v : A) → update m k v k ≡ v
  update_self m k v = rw (text_eq_refl k) refl

  pub update_ne : (m : Text → A) (k j : Text) (v : A) → k ≢ j → update m k v j ≡ m j
  update_ne m k j v h = ground (arith, text_eq_iff k j)
