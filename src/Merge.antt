-- ===== src/Merge.antt =====
-- merge/merge.go and merge/casts.go: flat options are set in the fields of a struct that carry their tags.
-- Reflection is read over a description of the struct: its fields in order, with their tags.
pub mod Policies
pub mod Bounded
use volplugin.Base.{
  ℕ, ◌==◌, ◌^◌, Bool, true, false, Option, none, some, List, [], ◌∷◌, Text, codes, text_eq, ltb,
  if◌then◌else◌, ◌||◌,
}
use volplugin.Errors.{Result, ok, err, panic, Error, plain, sentinel, message}
use volplugin.MountScan.{parse_uint}

-- A field that is a struct with fields of its own, or any other field: its tag, which is empty where it
-- has none, and what setting it to a text does.
mutual
  pub data Field (S : Type 0) : Type 0 where
    nested : Fields S → Field S
    leaf : (tag : Text) (set : Text → S → Result S) → Field S

  pub data Fields (S : Type 0) : Type 0 where
    no_fields : Fields S
    field : Field S → Fields S → Fields S

-- `setKey`: an error of a nested struct is dropped, and the walk goes on.
abbrev pub or_else : {S : Type 0} → Result S → Result S → Result S
or_else (ok s) rest = ok s
or_else (err e) rest = rest
or_else panic rest = panic

unfoldable pub set_key : {S : Type 0} → Fields S → Text → Text → S → Result S
set_key no_fields key v s = err (sentinel message)
set_key (field (nested inner) rest) key v s = or_else (set_key inner key v s) (set_key rest key v s)
set_key (field (leaf tag set) rest) key v s =
    let later = set_key rest key v s in if text_eq tag key then set v s else later

-- `Opts`, for the options in one order of the map.
unfoldable pub opts : {S : Type 0} → Fields S → List (Text × Text) → S → Result S
opts fs [] s = ok s
opts fs ((key, v) ∷ os) s = elim (set_key fs key v s) [
  | ok s' ↦ opts fs os s'
  | err e ↦ err e
  | panic ↦ panic
]

-- `strconv.ParseUint(val, 10, bits)`, and `strconv.ParseBool`.
abbrev pub in_bits : ℕ → Option ℕ → Result ℕ
in_bits bits none = err (plain message)
in_bits bits (some n) = if ltb n (2 ^ bits) then ok n else err (plain message)

unfoldable pub parse_bits : ℕ → Text → Result ℕ
parse_bits bits v = in_bits bits (parse_uint v)

abbrev any_of : Text → List Text → Bool
any_of t [] = false
any_of t (u ∷ us) = text_eq t u || any_of t us

unfoldable pub parse_bool : Text → Result Bool
parse_bool v =
    if any_of v
      (codes "1" ∷ codes "t" ∷ codes "T" ∷ codes "TRUE" ∷ codes "true" ∷ codes "True" ∷ [])
    then ok true
    else if any_of v
        (codes "0" ∷ codes "f" ∷ codes "F" ∷ codes "FALSE" ∷ codes "false" ∷ codes "False" ∷ [])
    then ok false
    else err (plain message)

abbrev pub set_with : {S A : Type 0} → (A → S → S) → Result A → S → Result S
set_with put (ok a) s = ok (put a s)
set_with put (err e) s = err e
set_with put panic s = panic

-- `castString`, `castUint32`, `castUint64` and `castBool`, with the assignment of the field.
abbrev pub cast_string : {S : Type 0} → (Text → S → S) → Text → S → Result S
cast_string put v s = ok (put v s)

abbrev pub cast_uint32 : {S : Type 0} → (ℕ → S → S) → Text → S → Result S
cast_uint32 put v s = set_with put (parse_bits 32 v) s

abbrev pub cast_uint64 : {S : Type 0} → (ℕ → S → S) → Text → S → Result S
cast_uint64 put v s = set_with put (parse_bits 64 v) s

abbrev pub cast_bool : {S : Type 0} → (Bool → S → S) → Text → S → Result S
cast_bool put v s = set_with put (parse_bool v) s
