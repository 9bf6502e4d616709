-- ===== src/Storage/Ceph/Names.antt =====
-- `internalName` and `externalName` of storage/backend/ceph/ceph.go: the name of the image of a volume.
use volplugin.Base.{
  ℕ, ◌≡◌, Option, none, some, List, [], ◌∷◌, ◌++◌, Text, Lacks, cut, cut_complete, cut-CutOf, CutOf,
  parts_of_cut, split_two, join, contains_byte, contains_byte-Lacks, if◌then◌else◌, arith,
  Bool-cases, inl, inr, sym,
}
use volplugin.Errors.{Result, ok, err, sentinel, message}

abbrev pub dot : ℕ
dot = 0x2e

abbrev pub slash : ℕ
slash = 0x2f

abbrev pub internal_of_parts : List Text → Result Text
internal_of_parts (policy ∷ volume ∷ []) =
    if contains_byte dot policy
    then err (sentinel message)
    else if contains_byte slash volume
    then err (sentinel message)
    else ok (join dot (policy ∷ volume ∷ []))
internal_of_parts _ = err (sentinel message)

-- `strings.Contains(strs[0], ".")` and `strings.Contains(strs[1], "/")` are tests for one byte.
unfoldable pub internal_name : Text → Result Text
unfolding split_two
internal_name s = internal_of_parts (split_two slash s)

unfoldable pub external_name : Text → Text
unfolding split_two
external_name s = join slash (split_two dot s)

-- The two parts of a name that has an image.
abbrev pub IsPair : Text → Text → Text → Text → Type 0
IsPair s i policy volume =
    (s ≡ policy ++ slash ∷ volume)
    × (i ≡ policy ++ dot ∷ volume)
    × Lacks dot policy
    × Lacks slash policy
    × Lacks slash volume

internal_of_cut :
    (s i : Text) (o : Option (Text × Text))
    → CutOf slash s o
    → internal_of_parts (parts_of_cut s o) ≡ ok i
    → (policy : Text) × (volume : Text) × IsPair s i policy volume
internal_of_cut s i none l h = cc
internal_of_cut s i (some (policy, volume)) (e, l) h =
    elim (Bool-cases (contains_byte dot policy)) [
      | inl dotted ↦ ground (arith, dotted)
      | inr plain ↦ elim (Bool-cases (contains_byte slash volume)) [
        | inl deep ↦ ground (arith, plain, deep)
        | inr flat ↦ (
          policy,
          volume,
          (
            e,
            ground (arith, plain, flat),
            (contains_byte-Lacks dot policy).0 plain,
            l,
            (contains_byte-Lacks slash volume).0 flat,
          ),
        )
      ]
    ]

pub internal_name_parts :
    (s i : Text)
    → internal_name s ≡ ok i
    → (policy : Text) × (volume : Text) × IsPair s i policy volume
unfolding internal_name
internal_name_parts s i h = internal_of_cut s i (cut slash s) (cut-CutOf slash s) h

-- The name of a volume comes back from the name of its image.
pub external_name-internal_name : (s i : Text) → internal_name s ≡ ok i → external_name i ≡ s
unfolding internal_name external_name
external_name-internal_name s i h =
    let (policy, volume, (e, f, plain, _, _)) = internal_name_parts s i h in
    rw (f, cut_complete dot policy volume plain) (sym e)
