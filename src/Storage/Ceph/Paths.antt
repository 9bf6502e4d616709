-- ===== src/Storage/Ceph/Paths.antt =====
-- The paths of package filepath that storage/backend/ceph computes: `Clean`, `Join` and `Rel`, and
-- `mkMountPath` and `MountPath` with them.
use volplugin.Base.{
  ◌==◌, Bool, true, false, not, ◌&&◌, ◌||◌, ◌≡◌, refl, sym, ap, ◌∙◌, Option, none, some, List, [],
  ◌∷◌, ◌++◌, Text, split, join, text_eq, text_eq_sound, if◌then◌else◌, arith, append-nil,
  Bool-cases, inl, inr,
}
use volplugin.Errors.{Result, ok, err, ◌>>=◌, combine, plain, mount_failed, message}
use volplugin.Storage.Name.{is_empty}
use volplugin.Storage.Driver.{DriverOptions}
use volplugin.Storage.Ceph.Names.{internal_name, slash, dot}
use volplugin.Storage.Ceph.Machine.{mkpool, pool_of}

-- A clean path: whether it starts at the root, and its elements.
pub record CleanPath : Type 0 where
  pub rooted : Bool
  pub elements : List Text

abbrev pub dot_dot : Text
dot_dot = dot ∷ dot ∷ []

-- An element that is read, and the elements so far, the last one first.
abbrev push_up : Bool → List Text → List Text
push_up rooted [] = if rooted then [] else dot_dot ∷ []
push_up rooted (e ∷ es) = if text_eq e dot_dot then dot_dot ∷ e ∷ es else es

abbrev push : Bool → List Text → Text → List Text
push rooted es e =
    if is_empty e || text_eq e (dot ∷ [])
    then es
    else if text_eq e dot_dot
    then push_up rooted es
    else e ∷ es

abbrev reverse_onto : List Text → List Text → List Text
reverse_onto [] es = es
reverse_onto (x ∷ xs) es = reverse_onto xs (x ∷ es)

abbrev clean_elements : Bool → List Text → List Text → List Text
clean_elements rooted es [] = reverse_onto es []
clean_elements rooted es (p ∷ ps) = clean_elements rooted (push rooted es p) ps

abbrev is_rooted : Text → Bool
is_rooted [] = false
is_rooted (c ∷ s) = c == slash

-- `filepath.Clean`, and the text of its result.
unfoldable pub clean : Text → CleanPath
clean s = record {
  rooted = is_rooted s;
  elements = clean_elements (is_rooted s) [] (split slash s);
}

abbrev relative_text : List Text → Text
relative_text [] = dot ∷ []
relative_text (e ∷ es) = join slash (e ∷ es)

abbrev pub path_text : CleanPath → Text
path_text p = if p.rooted then slash ∷ join slash p.elements else relative_text p.elements

-- `filepath.Join`: empty elements are left out.
abbrev filled : List Text → List Text
filled [] = []
filled (p ∷ ps) = if is_empty p then filled ps else p ∷ filled ps

unfoldable pub join_paths : List Text → CleanPath
join_paths ps = clean (join slash (filled ps))

-- The two lists without the elements that both start with.
abbrev without_common : List Text → List Text → List Text × List Text
without_common [] ts = ([], ts)
without_common (b ∷ bs) [] = (b ∷ bs, [])
without_common (b ∷ bs) (t ∷ ts) =
    let rest = without_common bs ts in if text_eq b t then rest else (b ∷ bs, t ∷ ts)

abbrev ups : List Text → List Text → List Text
ups [] ts = ts
ups (b ∷ bs) ts = dot_dot ∷ ups bs ts

abbrev relative_of : List Text × List Text → Option Text
relative_of ([], ts) = some (relative_text ts)
relative_of (b ∷ bs, ts) =
    if text_eq b dot_dot then none else some (relative_text (ups (b ∷ bs) ts))

abbrev same_root : Bool → Bool → Bool
same_root true b = b
same_root false b = not b

-- `filepath.Rel`: `none` is its error.
unfoldable pub rel : CleanPath → CleanPath → Option Text
rel base targ =
    if same_root base.rooted targ.rooted
    then relative_of (without_common base.elements targ.elements)
    else none

-- `strings.Contains(s, "..")`.
abbrev pub contains_dots : Text → Bool
contains_dots [] = false
contains_dots (c ∷ []) = false
contains_dots (c ∷ d ∷ s) = (c == dot && d == dot) || contains_dots (d ∷ s)

abbrev jailed : CleanPath → Option Text → Result CleanPath
jailed p none = err (combine (mount_failed ∷ []) (plain message))
jailed p (some r) =
    if contains_dots r then err (combine (mount_failed ∷ []) (plain message)) else ok p

-- `mkMountPath`.
unfoldable pub mk_mount_path : Text → Text → Text → Result CleanPath
mk_mount_path mountpath pool int_name =
    let p = join_paths (mountpath ∷ mkpool pool int_name ∷ []) in jailed p (rel (clean mountpath) p)

-- `MountPath`.
unfoldable pub mount_path : Text → DriverOptions → Result CleanPath
mount_path mountpath d = do
  name ← internal_name d.volume.name
  ok (join_paths (mountpath ∷ pool_of d ∷ name ∷ []))

without_common_lem :
    (bs ts : List Text)
    → let (b, t) = without_common bs ts in
      (common : List Text) × (bs ≡ common ++ b) × (ts ≡ common ++ t)
without_common_lem [] ts = ([], refl, refl)
without_common_lem (b ∷ bs) [] = ([], refl, refl)
without_common_lem (b ∷ bs) (t ∷ ts) = elim (Bool-cases (text_eq b t)) [
  | inl same ↦
      let (common, eb, et) = without_common_lem bs ts in
      let heads : b ≡ t = text_eq_sound b t same in
      rw same (
        b ∷ common,
        ap (λ r. b ∷ r) eb,
        ap (λ r. t ∷ r) et ∙ ap (λ c. c ∷ common ++ (without_common bs ts).1) (sym heads),
      )
  | inr other ↦ rw other ([], refl, refl)
]

dots_of_ups :
    (bs ts : List Text) (b : Text) → contains_dots (relative_text (ups (b ∷ bs) ts)) ≡ true
dots_of_ups [] [] b = refl
dots_of_ups [] (t ∷ ts) b = refl
dots_of_ups (c ∷ bs) ts b = refl

-- What is left of the base is nothing, if the relative path has no two dots.
nothing_left :
    (p q : CleanPath) (b t : List Text) → jailed p (relative_of (b, t)) ≡ ok q → (b ≡ []) × (p ≡ q)
nothing_left p q [] t h = (refl, ground arith)
nothing_left p q (b ∷ bs) t h = elim (Bool-cases (text_eq b dot_dot)) [
  | inl up ↦ ground (arith, up)
  | inr down ↦ ground (arith, down, dots_of_ups bs t b)
]

same_root_lem : (a b : Bool) → same_root a b ≡ true → a ≡ b
same_root_lem true b h = sym h
same_root_lem false true h = cc
same_root_lem false false h = refl

-- `q` is the path `p` with further elements.
abbrev pub IsInside : CleanPath → CleanPath → Type 0
IsInside p q = (p.rooted ≡ q.rooted) × ((rest : List Text) × (q.elements ≡ p.elements ++ rest))

jailed-IsInside : (base p q : CleanPath) → jailed p (rel base p) ≡ ok q → IsInside base q
unfolding rel
jailed-IsInside base p q h = elim (Bool-cases (same_root base.rooted p.rooted)) [
  | inl same ↦
      let (common, eb, ep) = without_common_lem base.elements p.elements in
      let (b, t) = without_common base.elements p.elements in
      let (none_left, e) = nothing_left p q b t (rw same at h) in
      let whole : base.elements ≡ common =
        eb ∙ (ap (λ r. common ++ r) none_left ∙ append-nil common) in
      (
        same_root_lem base.rooted p.rooted same ∙ ap (λ r. r.rooted) e,
        (t, ap (λ r. r.elements) (sym e) ∙ (ep ∙ ap (λ c. c ++ t) (sym whole))),
      )
  | inr other ↦ cc (rw other at h)
]

-- A volume's mount path, where it is given, is the cleaned mount path of the driver with further elements:
-- no pool name and no image name leads out of it.
pub mk_mount_path-IsInside :
    (mountpath pool int_name : Text) (p : CleanPath)
    → mk_mount_path mountpath pool int_name ≡ ok p
    → IsInside (clean mountpath) p
unfolding mk_mount_path
mk_mount_path-IsInside mountpath pool int_name p h = jailed-IsInside (clean mountpath) _ p h
