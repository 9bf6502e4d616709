-- ===== src/Base/Split.antt =====
-- `strings.Split`, `strings.SplitN` with 2, `strings.Join`, `strings.Count` and `strings.Trim` for a
-- separator of one byte.
use Prim.Native.Nat.{ℕ, suc, ◌+◌}
use mathlib.Core.Path.{◌≡◌, refl, ap}
use mathlib.Core.Logic.{◌≢◌, ◌↔◌, inl, inr}
use mathlib.Core.Option.{Option, none, some}
use mathlib.Core.List.{List, [], ◌∷◌, ◌++◌}
use native.Mathlib.Omega.{arith}
use volplugin.Base.Tests.{◌==◌, if◌then◌else◌, Bool-cases}
use volplugin.Base.Lists.{All}
use volplugin.Base.Strings.{Text, Lacks}

abbrev pub cons_first : ℕ → List Text → List Text
cons_first c [] = (c ∷ []) ∷ []
cons_first c (p ∷ ps) = (c ∷ p) ∷ ps

-- `strings.Split(s, sep)`: there is always at least one part.
unfoldable pub split : ℕ → Text → List Text
split sep [] = [] ∷ []
split sep (c ∷ s) = let rest = split sep s in if c == sep then [] ∷ rest else cons_first c rest

-- `strings.Join(parts, sep)`.
abbrev pub join : ℕ → List Text → Text
join sep [] = []
join sep (p ∷ []) = p
join sep (p ∷ q ∷ ps) = p ++ sep ∷ join sep (q ∷ ps)

abbrev cut_cons : ℕ → Option (Text × Text) → Option (Text × Text)
cut_cons c none = none
cut_cons c (some (a, b)) = some (c ∷ a, b)

-- The text before and after the first separator.
unfoldable pub cut : ℕ → Text → Option (Text × Text)
cut sep [] = none
cut sep (c ∷ s) = let rest = cut sep s in if c == sep then some ([], s) else cut_cons c rest

abbrev pub parts_of_cut : Text → Option (Text × Text) → List Text
parts_of_cut s none = s ∷ []
parts_of_cut s (some (a, b)) = a ∷ b ∷ []

-- `strings.SplitN(s, sep, 2)`.
unfoldable pub split_two : ℕ → Text → List Text
split_two sep s = parts_of_cut s (cut sep s)

-- `strings.Count(s, sep)`.
unfoldable pub count_byte : ℕ → Text → ℕ
count_byte sep [] = 0
count_byte sep (c ∷ s) = if c == sep then suc (count_byte sep s) else count_byte sep s

module _ (sep : ℕ) where
  pub count_byte-Lacks : (s : Text) → (count_byte sep s ≡ 0) ↔ Lacks sep s
  unfolding count_byte
  count_byte-Lacks [] = (λ _. tt, λ _. refl)
  count_byte-Lacks (c ∷ s) =
      let (to, from) = count_byte-Lacks s in
      (λ h. (ground arith, to (ground arith)), λ (n, l). ground (arith, from l))

  pub count_byte-append :
      (s t : Text) → count_byte sep (s ++ t) ≡ count_byte sep s + count_byte sep t
  unfolding count_byte
  count_byte-append [] t = omega arith
  count_byte-append (c ∷ s) t = ground (arith, count_byte-append s t)

  -- What a cut says of its text: it is two parts around the first separator, or has none.
  abbrev pub CutOf : Text → Option (Text × Text) → Type 0
  CutOf s none = Lacks sep s
  CutOf s (some (a, b)) = (s ≡ a ++ sep ∷ b) × Lacks sep a

  CutOf-cons :
      (c : ℕ) (s : Text) (o : Option (Text × Text))
      → c ≢ sep
      → CutOf s o
      → CutOf (c ∷ s) (cut_cons c o)
  CutOf-cons c s none n l = (n, l)
  CutOf-cons c s (some (a, b)) n (e, l) = (ap (λ t. c ∷ t) e, (n, l))

  pub cut-CutOf : (s : Text) → CutOf s (cut sep s)
  unfolding cut
  cut-CutOf [] = tt
  cut-CutOf (c ∷ s) = elim (Bool-cases (c == sep)) [
    | inl e ↦ rw e (ap (λ d. d ∷ s) (ground arith), tt)
    | inr e ↦ rw e (CutOf-cons c s (cut sep s) (ground arith) (cut-CutOf s))
  ]

  pub cut_complete : (a b : Text) → Lacks sep a → cut sep (a ++ sep ∷ b) ≡ some (a, b)
  unfolding cut
  cut_complete [] b l = ground arith
  cut_complete (c ∷ a) b (n, l) = ground (arith, cut_complete a b l)

  pub cut-Lacks : (s : Text) → Lacks sep s → cut sep s ≡ none
  unfolding cut
  cut-Lacks [] l = refl
  cut-Lacks (c ∷ s) (n, l) = ground (arith, cut-Lacks s l)

  pub split-Lacks : (s : Text) → Lacks sep s → split sep s ≡ s ∷ []
  unfolding split
  split-Lacks [] l = refl
  split-Lacks (c ∷ s) (n, l) = ground (arith, split-Lacks s l)

  pub split-append : (a b : Text) → Lacks sep a → split sep (a ++ sep ∷ b) ≡ a ∷ split sep b
  unfolding split
  split-append [] b l = ground arith
  split-append (c ∷ a) b (n, l) = ground (arith, split-append a b l)

  pub split-ne-nil : (s : Text) → split sep s ≢ []
  unfolding split
  split-ne-nil [] = ground arith
  split-ne-nil (c ∷ s) = ground (arith, split-ne-nil s)

  -- Splitting a join gives the parts back, if there is a part and none holds the separator.
  pub split-join : (ps : List Text) → ps ≢ [] → All (Lacks sep) ps → split sep (join sep ps) ≡ ps
  split-join [] h _ = absurd (h refl)
  split-join (p ∷ []) h (l, _) = split-Lacks p l
  split-join (p ∷ q ∷ ps) h (l, ls) =
      rw (split-append p (join sep (q ∷ ps)) l) (ap (λ r. p ∷ r) (split-join (q ∷ ps) (cc) ls))

  All-Lacks-cons_first :
      (c : ℕ) (ps : List Text) → c ≢ sep → All (Lacks sep) ps → All (Lacks sep) (cons_first c ps)
  All-Lacks-cons_first c [] n _ = ((n, tt), tt)
  All-Lacks-cons_first c (p ∷ ps) n (l, ls) = ((n, l), ls)

  -- Every part of a split lacks the separator.
  split-All-Lacks : (s : Text) → All (Lacks sep) (split sep s)
  unfolding split
  split-All-Lacks [] = (tt, tt)
  split-All-Lacks (c ∷ s) = elim (Bool-cases (c == sep)) [
    | inl e ↦ rw e (tt, split-All-Lacks s)
    | inr e ↦ rw e (All-Lacks-cons_first c (split sep s) (ground arith) (split-All-Lacks s))
  ]

  join-cons_first : (c : ℕ) (ps : List Text) → join sep (cons_first c ps) ≡ c ∷ join sep ps
  join-cons_first c [] = refl
  join-cons_first c (p ∷ []) = refl
  join-cons_first c (p ∷ q ∷ ps) = refl

  join-nil_first : (ps : List Text) → ps ≢ [] → join sep ([] ∷ ps) ≡ sep ∷ join sep ps
  join-nil_first [] h = absurd (h refl)
  join-nil_first (p ∷ ps) h = refl

  -- Joining the parts of a split gives the text back.
  pub join-split : (s : Text) → join sep (split sep s) ≡ s
  unfolding split
  join-split [] = refl
  join-split (c ∷ s) = elim (Bool-cases (c == sep)) [
    | inl e ↦
        rw (e, join-nil_first (split sep s) (split-ne-nil s), join-split s)
          (ap (λ d. d ∷ s) (ground arith))
    | inr e ↦ rw (e, join-cons_first c (split sep s)) (ap (λ t. c ∷ t) (join-split s))
  ]
