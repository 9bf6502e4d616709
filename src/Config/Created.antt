-- ===== src/Config/Created.antt =====
-- `CreateVolume` of config/volume.go: a volume is made of a policy and of the options of a request.
mod Tests
use volplugin.Base.{
  ℕ, ◌<◌, ◌^◌, ◌∙◌, sym, ◌≡◌, ◌≢◌, refl, ap, Bool, true, false, not, Option, none, some, List, [],
  ◌∷◌, Text, codes, text_eq, arith, if◌then◌else◌, Bool-cases, inl, inr,
}
use volplugin.Errors.{Result, ok, err, panic, Error, ◌>>=◌, ◌>>◌}
use volplugin.Config.Types.{Volume, Policy, Options, RuntimeOptions}
use volplugin.Config.Policy.Stored.{validate_policy-Completes}
use volplugin.Config.Policy.{validate_policy, with_filesystems, sized_by, default_drivers}
use volplugin.Merge.{opts}
use volplugin.Merge.Policies.{policy_fields}
use volplugin.Merge.Bounded.{IsBounded, opts-IsBounded}
use volplugin.Storage.Name.{is_empty}

-- `delete(m, k)`, and `m[k]`.
abbrev pub without : Text → Options → Options
without k [] = []
without k ((j, v) ∷ m) = let rest = without k m in if text_eq j k then rest else (j, v) ∷ rest

abbrev pub value_of : Text → Options → Text
value_of k [] = []
value_of k ((j, v) ∷ m) = if text_eq j k then v else value_of k m

abbrev pub with_driver_options : Policy → Policy
with_driver_options p = elim p.driver_options [
  | none ↦ record p { driver_options = some [] }
  | some m ↦ p
]

abbrev pub volume_of : Text → Text → Text → Policy → Volume
volume_of policy name mount p = record {
  policy_name = policy;
  volume_name = name;
  unlocked = p.unlocked;
  driver_options = p.driver_options;
  mount_source = mount;
  create_options = p.create_options;
  runtime_options = p.runtime_options;
  backends = p.backends;
}

abbrev pub with_filesystem : Volume → Volume
with_filesystem v =
    if is_empty v.create_options.file_system
    then record v {
      create_options = record { size = v.create_options.size; file_system = codes "ext4" };
    }
    else v

-- The policy that was read, the schema of policies, and the validation of volumes.
module _ (from_human_size : Text → Result ℕ) (schema : Policy → Option Error)
    (validate : Volume → Result (Unit {0})) where
  abbrev pub finished : Text → Text → Text → Policy → Result Volume
  finished policy name mount valid = do
    validate (volume_of policy name mount valid)
    ok (with_filesystem (volume_of policy name mount valid))

  abbrev pub of_merged : Text → Text → Text → Policy → Result Volume
  of_merged policy name mount merged = do
    valid ← validate_policy from_human_size schema (with_driver_options merged)
    finished policy name mount valid

  -- `CreateVolume`.
  unfoldable pub config_create_volume : Result Policy → Text → Text → Options → Result Volume
  config_create_volume read policy name options = do
    p ← read
    merged ← opts policy_fields (without (codes "mount") options) p
    of_merged policy name (value_of (codes "mount") options) merged

bind_ok :
    {A B : Type 0} (r : Result A) (f : A → Result B) (b : B)
    → (r >>= f) ≡ ok b
    → (a : A) × (r ≡ ok a) × (f a ≡ ok b)
bind_ok (ok a) f b h = (a, refl, h)
bind_ok (err e) f b h = cc
bind_ok panic f b h = cc

with_driver_options_runtime :
    (p : Policy) (o : Option Options)
    → p.driver_options ≡ o
    → (with_driver_options p).runtime_options ≡ p.runtime_options
with_driver_options_runtime p none e = ground (arith, e)
with_driver_options_runtime p (some m) e = ground (arith, e)

-- What a volume keeps of its request, and that it has a filesystem.
abbrev pub IsSettled : Text → Text → Options → Volume → Type 0
IsSettled policy name options v =
    (v.policy_name ≡ policy)
    × (v.volume_name ≡ name)
    × (v.mount_source ≡ value_of (codes "mount") options)
    × (is_empty v.create_options.file_system ≡ false)

with_filesystem-IsSettled :
    (policy name : Text) (options : Options) (p : Policy)
    → let v = with_filesystem (volume_of policy name (value_of (codes "mount") options) p) in
      IsSettled policy name options v × (v.runtime_options ≡ p.runtime_options)
with_filesystem-IsSettled policy name options p =
    elim (Bool-cases (is_empty p.create_options.file_system)) [
      | inl blank ↦ rw blank ((refl, refl, refl, refl), refl)
      | inr named ↦ rw named ((refl, refl, refl, named), refl)
    ]

-- The numbers of a volume fit into their fields.
abbrev pub AreBounded : RuntimeOptions → Type 0
AreBounded r =
    (r.snapshot.keep < 2 ^ 32)
    × (r.rate_limit.write_bps < 2 ^ 64)
    × (r.rate_limit.read_bps < 2 ^ 64)

-- A volume that is made of a policy, whose numbers fit into their fields, and of the options of a request has
-- the names of the request, its option "mount" as mount source, a filesystem, and numbers that fit into
-- their fields.
pub config_create_volume-IsSettled :
    (from_human_size : Text → Result ℕ) (schema : Policy → Option Error)
    (validate : Volume → Result (Unit {0})) (p : Policy) (policy name : Text) (options : Options)
    (v : Volume)
    → IsBounded p
    → config_create_volume from_human_size schema validate (ok p) policy name options ≡ ok v
    → IsSettled policy name options v × AreBounded v.runtime_options
unfolding config_create_volume
config_create_volume-IsSettled from_human_size schema validate p policy name options v bounded h =
    let mount : Text = value_of (codes "mount") options in
    let (merged, em, h1) =
      bind_ok (opts policy_fields (without (codes "mount") options) p)
        (of_merged from_human_size schema validate policy name mount) v h in
    let (valid, ev, h2) =
      bind_ok (validate_policy from_human_size schema (with_driver_options merged))
        (finished from_human_size schema validate policy name mount) v h1 in
    let (_, ew, h3) =
      bind_ok (validate (volume_of policy name mount valid))
        (λ _. ok (with_filesystem (volume_of policy name mount valid))) v h2 in
    let (c, _, kept) =
      validate_policy-Completes from_human_size schema (with_driver_options merged) valid ev in
    let same : v ≡ with_filesystem (volume_of policy name mount valid) = ground (arith, h3) in
    let (settled, runtime) = with_filesystem-IsSettled policy name options valid in
    let options_kept : v.runtime_options ≡ merged.runtime_options =
      ap (λ x. x.runtime_options) same
      ∙ (runtime ∙ (kept ∙ with_driver_options_runtime merged merged.driver_options refl)) in
    let fits : IsBounded merged =
      opts-IsBounded (without (codes "mount") options) p merged bounded em in
    (rw same settled, rw options_kept fits)
