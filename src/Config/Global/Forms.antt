-- ===== src/Config/Global/Forms.antt =====
-- How the published form and the internal form correspond.
use volplugin.Base.{
  ℕ, ◌*◌, ◌≡◌, ap, ◌∙◌, sym, ◌≢◌, ◌≤◌, ◌<◌, refl, true, Option, none, [], ◌∷◌, Text, arith, ◌==◌,
  if◌then◌else◌, if_true, if_false,
}
use volplugin.Storage.Name.{is_empty}
use volplugin.Errors.{ok}
use volplugin.Config.Global.Defs.{
  Global, published, canonical, set_empty, publish_global, get_global, less, times, divided,
  ttl_fix_base, timeout_fix_base, default_ttl, default_timeout, default_mount_path, two_63,
}

-- A whole number of seconds and of minutes, neither of them zero, that fits; the limit on the seconds
-- is the factor itself, from which on the internal form is taken to be published already.
pub record IsWhole (g : Global) (seconds minutes : ℕ) : Type 0 where
  pub ttl : g.ttl ≡ seconds * ttl_fix_base
  pub timeout : g.timeout ≡ minutes * timeout_fix_base
  pub some_seconds : 0 < seconds
  pub few_seconds : seconds < ttl_fix_base
  pub some_minutes : 0 < minutes
  pub few_minutes : minutes < 153722868
  pub path : g.mount_path ≢ []

divided_seconds : (n : ℕ) → n * ttl_fix_base < two_63 → divided (n * ttl_fix_base) ttl_fix_base ≡ n
unfolding divided
divided_seconds n small = ground arith

divided_minutes :
    (n : ℕ) → n * timeout_fix_base < two_63 → divided (n * timeout_fix_base) timeout_fix_base ≡ n
unfolding divided
divided_minutes n small = ground arith

times_whole : (n b : ℕ) → n * b < two_63 → times n b ≡ n * b
unfolding times
times_whole n b small = ground arith

less_small : (n b : ℕ) → n < b → b < two_63 → less n b ≡ true
unfolding less
less_small n b h k = ground arith

durations_kept :
    (g : Global) (t u : ℕ) → t ≡ g.timeout → u ≡ g.ttl → record g { timeout = t; ttl = u } ≡ g
durations_kept g t u e f =
    ap (λ t. record g { timeout = t; ttl = u }) e ∙ ap (λ u. record g { ttl = u }) f

scaled :
    (n b : ℕ) → n < b → n * b < two_63 → b < two_63 → (if less n b then times n b else n) ≡ n * b
scaled n b h k l = if_true _ _ (less_small n b h l) ∙ times_whole n b k

unscaled : (n b : ℕ) → b ≤ n → n < two_63 → (if less n b then times n b else n) ≡ n
unfolding less
unscaled n b h k = ground arith

filled : (p q : Text) → p ≢ [] → (if is_empty p then q else p) ≡ p
filled [] q h = absurd (h refl)
filled (c ∷ p) q h = refl

module _ (g : Global) (seconds minutes : ℕ) (w : IsWhole g seconds minutes) where
  published_ttl : (published g).ttl ≡ seconds
  unfolding published
  published_ttl = rw w.ttl (divided_seconds seconds (omega (arith, w.few_seconds)))

  published_timeout : (published g).timeout ≡ minutes
  unfolding published
  published_timeout = rw w.timeout (divided_minutes minutes (omega (arith, w.few_minutes)))

  -- A configuration in whole seconds and minutes comes back from its published form.
  canonical-published : canonical (published g) ≡ g
  unfolding canonical published
  canonical-published =
      durations_kept g _ _
        (rw published_timeout (
          scaled minutes timeout_fix_base (omega (arith, w.few_minutes))
            (omega (arith, w.few_minutes)) (omega arith)
          ∙ sym w.timeout))
        (rw published_ttl (
          scaled seconds ttl_fix_base w.few_seconds (omega (arith, w.few_seconds)) (omega arith)
          ∙ sym w.ttl))

  set_empty_kept : set_empty g ≡ g
  unfolding set_empty
  set_empty_kept =
      ap
        (λ p. record g {
          timeout = if g.timeout == 0 then default_timeout else g.timeout;
          ttl = if g.ttl == 0 then default_ttl else g.ttl;
          mount_path = p;
        })
        (filled g.mount_path default_mount_path w.path)
      ∙ durations_kept g _ _
          (if_false {b = g.timeout == 0} _ _ (ground (arith, w.timeout, w.some_minutes)))
          (if_false {b = g.ttl == 0} _ _ (ground (arith, w.ttl, w.some_seconds)))

  -- What is published is read back: when the write goes through, publishing the published form of a
  -- configuration with a mount path and with whole seconds and minutes, none of them zero and
  -- within their limits, gives no error, and reading gives the configuration.
  pub get_global-publish_global :
      (key : Option Global)
      → let (e, key') = publish_global none (published g) key in
        (e ≡ none) × (get_global key' ≡ ok g)
  unfolding get_global publish_global
  get_global-publish_global key =
      (refl, ap (λ g. ok (set_empty g)) canonical-published ∙ ap ok set_empty_kept)

  -- The conversion to the internal form leaves a configuration with a mount path and with whole
  -- seconds and minutes, none of them zero and within their limits, as it is.
  canonical_idempotent : canonical g ≡ g
  unfolding canonical
  canonical_idempotent =
      durations_kept g _ _
        (unscaled g.timeout timeout_fix_base (omega (arith, w.timeout, w.some_minutes))
          (omega (arith, w.timeout, w.few_minutes)))
        (unscaled g.ttl ttl_fix_base (omega (arith, w.ttl, w.some_seconds))
          (omega (arith, w.ttl, w.few_seconds)))
