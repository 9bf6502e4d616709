-- ===== src/Storage/Ceph/Listed.antt =====
-- The names of images that `rbd ls` lists, and the names of volumes.
use volplugin.Base.{
  ℕ, ◌≡◌, ◌≢◌, refl, Option, none, some, List, [], ◌∷◌, ◌++◌, Text, map, text_eq, text_eq_refl,
  text_eq_sound, Lacks, All, cut, cut-CutOf, CutOf, cut_complete, contains_byte-Lacks, parts_of_cut,
  join, arith, Bool-cases, inl, inr,
}
use volplugin.Errors.{ok}
use volplugin.Storage.Ceph.Names.{
  internal_name, external_name, slash, dot, external_name-internal_name,
}
use volplugin.Storage.Ceph.Machine.{trim_space}
use volplugin.Storage.Ceph.Images.{listed_volume, any_named}
use volplugin.Storage.Ceph.Pool.{any_text, IsImageName}

pub internal_name-pair :
    (p v : Text)
    → Lacks dot p
    → Lacks slash p
    → Lacks slash v
    → internal_name (p ++ slash ∷ v) ≡ ok (p ++ dot ∷ v)
unfolding internal_name
internal_name-pair p v d l k =
    rw (cut_complete slash p v l)
      (ground (arith, (contains_byte-Lacks dot p).1 d, (contains_byte-Lacks slash v).1 k))

-- Names of volumes are told apart as the names of their images are.
pub text_eq-pair :
    (p q v w : Text)
    → Lacks dot p
    → Lacks slash p
    → Lacks dot q
    → Lacks slash q
    → text_eq (p ++ slash ∷ v) (q ++ slash ∷ w) ≡ text_eq (p ++ dot ∷ v) (q ++ dot ∷ w)
text_eq-pair [] [] v w _ _ _ _ = refl
text_eq-pair [] (y ∷ q) v w _ _ (d, _) (s, _) = ground arith
text_eq-pair (x ∷ p) [] v w (d, _) (s, _) _ _ = ground arith
text_eq-pair (x ∷ p) (y ∷ q) v w (_, d) (_, s) (_, e) (_, t) =
    ground (arith, text_eq-pair p q v w d s e t)

same_pair :
    (a b p v : Text)
    → Lacks slash a
    → Lacks slash p
    → a ++ slash ∷ b ≡ p ++ slash ∷ v
    → (a ≡ p) × (b ≡ v)
same_pair [] b [] v _ _ e = (refl, ground (arith, e))
same_pair [] b (y ∷ p) v _ (n, _) e = ground (arith, e)
same_pair (x ∷ a) b [] v (n, _) _ e = ground (arith, e)
same_pair (x ∷ a) b (y ∷ p) v (_, l) (_, k) e =
    let tails : a ++ slash ∷ b ≡ p ++ slash ∷ v = ground (arith, e) in
    let (ea, eb) = same_pair a b p v l k tails in (ground (arith, e, ea), eb)

left_part : (a b : Text) (c : ℕ) → Lacks slash (a ++ c ∷ b) → Lacks slash a
left_part [] b c l = tt
left_part (x ∷ a) b c (n, l) = (n, left_part a b c l)

Lacks-join : (a b : Text) → Lacks slash a → Lacks slash b → Lacks slash (a ++ dot ∷ b)
Lacks-join [] b _ l = (ground arith, l)
Lacks-join (x ∷ a) b (n, k) l = (n, Lacks-join a b k l)

no_pair : (n p v : Text) → Lacks slash n → n ≢ p ++ slash ∷ v
no_pair n [] v l e = absurd ((rw e at l).0 refl)
no_pair n (x ∷ p) v l e = no_pair _ p v (rw e at l).1 refl

injective_of_cut :
    (n p v : Text) (o : Option (Text × Text))
    → CutOf dot n o
    → Lacks slash n
    → Lacks slash p
    → join slash (parts_of_cut n o) ≡ p ++ slash ∷ v
    → n ≡ p ++ dot ∷ v
injective_of_cut n p v none c l k h = absurd (no_pair n p v l h)
injective_of_cut n p v (some (a, b)) (e, c) l k h =
    let (ea, eb) = same_pair a b p v (left_part a b dot (rw e at l)) k h in rw (e, ea, eb) refl

-- An image's name without a slash is the one that the volume's name came from.
external_name_injective :
    (n p v : Text)
    → Lacks slash n
    → Lacks slash p
    → external_name n ≡ p ++ slash ∷ v
    → n ≡ p ++ dot ∷ v
unfolding external_name
external_name_injective n p v l k h = injective_of_cut n p v (cut dot n) (cut-CutOf dot n) l k h

module _ (p v : Text) (d : Lacks dot p) (k : Lacks slash p) (l : Lacks slash v) where
  abbrev named : Text
  named = p ++ slash ∷ v

  abbrev imaged : Text
  imaged = p ++ dot ∷ v

  listed_iff :
      (n : Text) → IsImageName n → text_eq (external_name (trim_space n)) named ≡ text_eq imaged n
  listed_iff n (no_slash, trimmed) = elim (Bool-cases (text_eq imaged n)) [
    | inl same ↦
        let e : imaged ≡ n = text_eq_sound imaged n same in
        let back : external_name imaged ≡ named =
          external_name-internal_name named imaged (internal_name-pair p v d k l) in
        rw (same, trimmed, ← e, back) (text_eq_refl named)
    | inr other ↦ elim (Bool-cases (text_eq (external_name n) named)) [
      | inl listed ↦
          let e : n ≡ imaged =
            external_name_injective n p v no_slash k
              (text_eq_sound (external_name n) named listed) in
          ground (arith, other, e, text_eq_refl imaged)
      | inr unlisted ↦ rw (other, trimmed) unlisted
    ]
  ]

  pub any_named-map :
      (pool : Text) (names : List Text)
      → All IsImageName names
      → any_named named (map (listed_volume pool) names) ≡ any_text imaged names
  any_named-map pool [] _ = refl
  any_named-map pool (n ∷ names) (i, is) =
      ground (arith, listed_iff n i, any_named-map pool names is)

  imaged-Lacks : Lacks slash imaged
  imaged-Lacks = Lacks-join p v k l

  pub imaged-IsImageName : trim_space imaged ≡ imaged → IsImageName imaged
  imaged-IsImageName t = (imaged-Lacks, t)
