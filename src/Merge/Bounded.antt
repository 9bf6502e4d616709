-- ===== src/Merge/Bounded.antt =====
-- Merging keeps what all the setters of a struct keep, and the bounds of a policy's numbers.
use volplugin.Base.{
  ℕ, ◌≡◌, ◌<◌, ◌^◌, Bool, Option, none, some, List, [], ◌∷◌, Text, text_eq, ltb, arith, Bool-cases,
  inl, inr,
}
use volplugin.Errors.{Result, ok, err, panic}
use volplugin.Config.Types.{Policy}
use volplugin.MountScan.{parse_uint}
use volplugin.Merge.{
  Fields, nested, leaf, no_fields, field, set_key, or_else, opts, parse_bits, parse_bool, in_bits,
  set_with,
}
use volplugin.Merge.Policies.{policy_fields}

module _ {S : Type 0} (P : S → Type 0) where
  abbrev pub KeepsOk : Result S → Type 0
  KeepsOk (ok s) = P s
  KeepsOk (err e) = Unit
  KeepsOk panic = Unit

  -- Every setter of a struct keeps the property.
  abbrev pub AllKeep : Fields S → Type 0
  AllKeep no_fields = Unit
  AllKeep (field (nested inner) rest) = AllKeep inner × AllKeep rest
  AllKeep (field (leaf tag set) rest) =
      ((v : Text) (s : S) → P s → KeepsOk (set v s)) × AllKeep rest

  or_else_keeps : (r r' : Result S) → KeepsOk r → KeepsOk r' → KeepsOk (or_else r r')
  or_else_keeps (ok s) r' h h' = h
  or_else_keeps (err e) r' h h' = h'
  or_else_keeps panic r' h h' = tt

  set_key_keeps :
      (fs : Fields S) (key v : Text) (s : S) → AllKeep fs → P s → KeepsOk (set_key fs key v s)
  unfolding set_key
  set_key_keeps no_fields key v s k p = tt
  set_key_keeps (field (nested inner) rest) key v s (i, k) p =
      or_else_keeps (set_key inner key v s) (set_key rest key v s) (set_key_keeps inner key v s i p)
        (set_key_keeps rest key v s k p)
  set_key_keeps (field (leaf tag set) rest) key v s (h, k) p = elim (Bool-cases (text_eq tag key)) [
    | inl same ↦ rw same (h v s p)
    | inr other ↦ rw other (set_key_keeps rest key v s k p)
  ]

  after_key :
      (fs : Fields S) (os : List (Text × Text)) (r : Result S)
      → ((s : S) → P s → KeepsOk (opts fs os s))
      → KeepsOk r
      → KeepsOk (elim r [ ok s ↦ opts fs os s | err e ↦ err e | panic ↦ panic ])
  after_key fs os (ok s) rest h = rest s h
  after_key fs os (err e) rest h = tt
  after_key fs os panic rest h = tt

  pub opts_keep :
      (fs : Fields S) (os : List (Text × Text)) (s : S) → AllKeep fs → P s → KeepsOk (opts fs os s)
  unfolding opts
  opts_keep fs [] s k p = p
  opts_keep fs ((key, v) ∷ os) s k p =
      after_key fs os (set_key fs key v s) (λ t q. opts_keep fs os t k q)
        (set_key_keeps fs key v s k p)

-- The numbers of a policy fit into their fields: 32 bits that the cast allows, and 64.
abbrev pub IsBounded : Policy → Type 0
IsBounded p =
    (p.runtime_options.snapshot.keep < 2 ^ 32)
    × (p.runtime_options.rate_limit.write_bps < 2 ^ 64)
    × (p.runtime_options.rate_limit.read_bps < 2 ^ 64)

-- A number that is parsed fits into its bits.
set_bits :
    {S : Type 0} (P : S → Type 0) (bits : ℕ) (put : ℕ → S → S) (o : Option ℕ) (s : S)
    → ((n : ℕ) → n < 2 ^ bits → P (put n s))
    → KeepsOk P (set_with put (in_bits bits o) s)
set_bits P bits put none s h = tt
set_bits P bits put (some n) s h = elim (Bool-cases (ltb n (2 ^ bits))) [
  | inl fits ↦ rw fits (h n (ground (arith, fits)))
  | inr big ↦ rw big tt
]

set_bool :
    {S : Type 0} (P : S → Type 0) (put : Bool → S → S) (r : Result Bool) (s : S)
    → ((b : Bool) → P (put b s))
    → KeepsOk P (set_with put r s)
set_bool P put (ok b) s h = h b
set_bool P put (err e) s h = tt
set_bool P put panic s h = tt

policy_fields_keep : AllKeep IsBounded policy_fields
unfolding policy_fields parse_bits
policy_fields_keep = (
  λ v p b. b,
  (
    λ v p b. set_bool IsBounded _ (parse_bool v) p (λ x. b),
    (
      (λ v p b. b, (λ v p b. b, tt)),
      (
        (
          λ v p b. set_bool IsBounded _ (parse_bool v) p (λ x. b),
          (
            (
              λ v p b. b,
              (λ v p b. set_bits IsBounded 32 _ (parse_uint v) p (λ n h. (h, b.1, b.2)), tt),
            ),
            (
              (
                λ v p b. set_bits IsBounded 64 _ (parse_uint v) p (λ n h. (b.0, h, b.2)),
                (λ v p b. set_bits IsBounded 64 _ (parse_uint v) p (λ n h. (b.0, b.1, h)), tt),
              ),
              tt,
            ),
          ),
        ),
        (λ v p b. tt, (λ v p b. tt, (λ v p b. tt, (λ v p b. b, tt)))),
      ),
    ),
  ),
)

-- Options that are merged into a policy leave its numbers within their bounds: the number of snapshots to
-- keep below 2 ^ 32, and the limits of the rates below 2 ^ 64, whatever texts the options hold.
pub opts-IsBounded :
    (os : List (Text × Text)) (p r : Policy)
    → IsBounded p
    → opts policy_fields os p ≡ ok r
    → IsBounded r
opts-IsBounded os p r b h =
    let kept : KeepsOk IsBounded (opts policy_fields os p) =
      opts_keep IsBounded policy_fields os p policy_fields_keep b in
    rw h at kept
