-- ===== src/Storage/Ceph/Memory.antt =====
-- A pool in memory, whose names are kept in a list: the documented behaviour can be met.
use volplugin.Base.{
  ℕ, ◌≡◌, refl, ap, inl, Bool, true, false, not, ◌||◌, ◌&&◌, Option, none, some, List, [], ◌∷◌,
  Text, codes, text_eq, text_eq_iff, Lacks, All, contains_byte, contains_byte-Lacks, split, join,
  split-join, drop, update, arith, if◌then◌else◌,
}
use volplugin.Errors.{ok, plain, message}
use volplugin.Storage.Ceph.Names.{slash}
use volplugin.Storage.Ceph.Machine.{Machine, Command, Answer, trim_space}
use volplugin.Storage.Ceph.Pool.{any_text, IsImageName, ok_result, Images}

-- The names of the images of the pool "rbd".
abbrev pub Pool : Type 0
Pool = (names : List Text) × All IsImageName names

abbrev is_image_name : Text → Bool
is_image_name n = not (contains_byte slash n) && text_eq (trim_space n) n

pub is_image_name_lem : (n : Text) → is_image_name n ≡ true → IsImageName n
is_image_name_lem n h = (
  (contains_byte-Lacks slash n).0 (ground arith),
  (text_eq_iff (trim_space n) n).0 (ground arith),
)

pub accepted_name : (n : Text) → IsImageName n → is_image_name n ≡ true
accepted_name n (l, t) =
    ground (arith, (contains_byte-Lacks slash n).1 l, (text_eq_iff (trim_space n) n).1 t)

-- A name that cannot be an image's is not added.
abbrev add_if : (n : Text) (b : Bool) → is_image_name n ≡ b → Pool → Pool
add_if n true e (names, all) = (n ∷ names, (is_image_name_lem n e, all))
add_if n false e pool = pool

abbrev add : Text → Pool → Pool
add n pool = add_if n (is_image_name n) refl pool

abbrev keep_if : (b : Bool) (x : Text) → IsImageName x → Pool → Pool
keep_if true x i (names, all) = (x ∷ names, (i, all))
keep_if false x i pool = pool

abbrev without : Text → (names : List Text) → All IsImageName names → Pool
without n [] _ = ([], tt)
without n (x ∷ names) (i, all) = keep_if (not (text_eq n x)) x i (without n names all)

abbrev encode : List Text → Text
encode [] = []
encode (n ∷ names) = 0x2f ∷ join slash (n ∷ names)

abbrev decode : Text → Option (List Text)
decode [] = some []
decode (c ∷ s) = some (split slash s)

abbrev status : ℕ → Answer
status n = (some (record { exit_status = n; stdout = [] }), some (plain message))

abbrev without_pool : Text → Text
without_pool image = drop 4 image

-- Somebody watches this image all the time.
abbrev is_watched : Text → Bool
is_watched n = text_eq n (codes "tenant.busy")

abbrev pub run_pool : Command → Pool → Answer × Pool
run_pool (Command.rbd_create image size) p =
    if any_text (without_pool image) p.0
    then (status 17, p)
    else (ok_result [], add (without_pool image) p)
run_pool (Command.rbd_snap_purge image) p =
    if any_text (without_pool image) p.0 then (ok_result [], p) else (status 2, p)
run_pool (Command.rbd_rm image) p =
    if any_text (without_pool image) p.0
    then (if is_watched (without_pool image)
        then (status 16, p)
        else (ok_result [], without (without_pool image) p.0 p.1))
    else (status 2, p)
run_pool (Command.rbd_ls pool) p = (ok_result (encode p.0), p)
run_pool _ p = (ok_result [], p)

abbrev pub pool_machine : Machine
pool_machine = record {
  Host = Pool;
  run = run_pool;
  mkdir_all = λ path p. (none, p);
  stat = λ path p. none;
  mount = λ device path type p. (none, p);
  unmount = λ path p. (none, p);
  remove = λ path p. (none, p);
  devices = λ p. ok [];
  mountinfo = λ p. ok [];
  decode_names = decode;
  decode_mapped = λ s. none;
}

text_eq_comm : (s t : Text) → text_eq s t ≡ text_eq t s
text_eq_comm [] [] = refl
text_eq_comm [] (y ∷ t) = refl
text_eq_comm (x ∷ s) [] = refl
text_eq_comm (x ∷ s) (y ∷ t) = ground (arith, text_eq_comm s t)

pub any_text-add_if :
    (n : Text) (b : Bool) (e : is_image_name n ≡ b) (p : Pool) (k : Text)
    → b ≡ true
    → any_text k (add_if n b e p).0 ≡ update (λ j. any_text j p.0) n true k
any_text-add_if n true e p k h = ground (arith, text_eq_comm k n)
any_text-add_if n false e p k h = cc

any_text-keep_if :
    (b : Bool) (x : Text) (i : IsImageName x) (p : Pool) (k : Text)
    → any_text k (keep_if b x i p).0 ≡ (if b then text_eq k x || any_text k p.0 else any_text k p.0)
any_text-keep_if true x i p k = refl
any_text-keep_if false x i p k = refl

pub any_text-without :
    (n : Text) (names : List Text) (all : All IsImageName names) (k : Text)
    → any_text k (without n names all).0 ≡ update (λ j. any_text j names) n false k
any_text-without n [] _ k = ground arith
any_text-without n (x ∷ names) (i, all) k = ground (
  arith,
  any_text-keep_if (not (text_eq n x)) x i (without n names all) k,
  any_text-without n names all k,
  text_eq_iff k x,
  text_eq_iff n x,
  text_eq_iff n k,
)

slashless : (names : List Text) → All IsImageName names → All (Lacks slash) names
slashless [] _ = tt
slashless (n ∷ names) ((l, t), all) = (l, slashless names all)

pub decode-encode : (names : List Text) → All IsImageName names → decode (encode names) ≡ some names
decode-encode [] _ = refl
decode-encode (n ∷ names) all =
    ap some (split-join slash (n ∷ names) (λ e. cc) (slashless (n ∷ names) all))

unfoldable pub pool_images : Images pool_machine (codes "rbd")
pool_images = record {
  has = λ p n. any_text n p.0;
  create_fresh = λ h n size i free.
      rw free (([], refl), λ k. any_text-add_if n (is_image_name n) refl h k (accepted_name n i));
  create_taken = λ h n size taken. rw taken (([], plain message, refl), λ k. refl);
  blocked = λ p n. is_watched n;
  purge_free = λ h n there free. rw there (([], refl), λ k. refl);
  purge_blocked = λ h n there watched. rw there (inl ([], refl), (λ k. refl), watched);
  purge_missing = λ h n missing. rw missing (([], plain message, refl), λ k. refl);
  rm_purged =
      λ h n there free. rw (there, there, free) (([], refl), λ k. any_text-without n h.0 h.1 k);
  rm_blocked = λ h n there watched. rw (there, watched) ((15, [], plain message, refl), λ k. refl);
  ls_names = λ h. ((encode h.0, h.0, refl, decode-encode h.0 h.1, h.1, λ k. refl), λ k. refl);
}

pub has-empty : (n : Text) → pool_images.has ([], tt) n ≡ false
unfolding pool_images
has-empty n = refl
