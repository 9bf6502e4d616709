-- ===== src/Storage/Name.antt =====
-- storage/utils.go: the two parts of a volume's name.
use volplugin.Base.{
  ap, Bool-cases, ℕ, ◌+◌, ◌≡◌, ◌≢◌, ◌↔◌, inl, inr, Bool, true, false, ◌||◌, List, [], ◌∷◌, ◌++◌,
  Option, none, some, arith, ltb, if◌then◌else◌, Text, Lacks, split_two, parts_of_cut, cut, CutOf,
  cut-CutOf, cut_complete, count_byte, count_byte-Lacks, count_byte-append,
}
use volplugin.Errors.{Result, ok, err, errored, invalid_volume, message}

abbrev pub is_empty : Text → Bool
is_empty [] = true
is_empty (c ∷ s) = false

abbrev pub slash : ℕ
slash = 0x2f

-- The guards after `SplitN`, by the parts that it returned.
abbrev pair_of_parts : List Text → Result (Text × Text)
pair_of_parts (p ∷ v ∷ []) =
    if is_empty p || is_empty v then err (errored (invalid_volume ∷ message ∷ [])) else ok (p, v)
pair_of_parts _ = err (errored (invalid_volume ∷ message ∷ []))

unfoldable pub split_name : Text → Result (Text × Text)
unfolding split_two
split_name name =
    if ltb 1 (count_byte slash name)
    then err (errored (invalid_volume ∷ message ∷ []))
    else pair_of_parts (split_two slash name)

-- A policy and a volume name are accepted if both are there and neither holds a slash.
pub record IsNamePart (p : Text) : Type 0 where
  pub filled : p ≢ []
  pub one_part : Lacks slash p

pair_of_parts_some :
    (q w p v : Text)
    → pair_of_parts (q ∷ w ∷ []) ≡ ok (p, v)
    → (q ≡ p) × (w ≡ v) × (p ≢ []) × (v ≢ [])
pair_of_parts_some [] w p v h = cc
pair_of_parts_some (c ∷ q) [] p v h = cc
pair_of_parts_some (c ∷ q) (d ∷ w) p v h = (ground arith, ground arith, ground arith, ground arith)

abbrev pub Splits : Text → Text → Text → Type 0
Splits name p v = (name ≡ p ++ slash ∷ v) × IsNamePart p × IsNamePart v

count_of_pair :
    (a b : Text) → count_byte slash (a ++ slash ∷ b) ≡ count_byte slash a + count_byte slash b + 1
count_of_pair a b = rw (count_byte-append slash a (slash ∷ b)) (unfold count_byte in ground arith)

parts_sound :
    (name p v : Text)
    → ltb 1 (count_byte slash name) ≡ false
    → (o : Option (Text × Text)) → CutOf slash name o
    → pair_of_parts (parts_of_cut name o) ≡ ok (p, v)
    → Splits name p v
parts_sound name p v few none l h = cc
parts_sound name p v few (some (a, b)) (e, l) h =
    let (ea, eb, ne, nf) = pair_of_parts_some a b p v h in
    let few_left : count_byte slash v ≡ 0 =
      rw (← eb) (ground (arith, count_of_pair a b, ap (count_byte slash) e)) in
    (
      rw (← ea, ← eb) e,
      record { filled = ne; one_part = rw ea at l },
      record { filled = nf; one_part = (count_byte-Lacks slash v).0 few_left },
    )

-- A name is split exactly when it is two parts, each with some text and no slash, around a slash.
split_name_iff : (name p v : Text) → (split_name name ≡ ok (p, v)) ↔ Splits name p v
unfolding split_name
split_name_iff name p v = (to, from)
  where
    to : split_name name ≡ ok (p, v) → Splits name p v
    to h = elim (Bool-cases (ltb 1 (count_byte slash name))) [
      | inl many ↦ cc (h, many)
      | inr few ↦ parts_sound name p v few (cut slash name) (cut-CutOf slash name) (rw few at h)
    ]

    from : Splits name p v → split_name name ≡ ok (p, v)
    from (e, np, nv) =
        rw (e, cut_complete slash p v np.one_part)
          (ground (
            arith,
            count_of_pair p v,
            (count_byte-Lacks slash p).1 np.one_part,
            (count_byte-Lacks slash v).1 nv.one_part,
            np.filled,
            nv.filled,
          ))
