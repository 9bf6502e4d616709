-- ===== src/Storage/Ceph/Template.antt =====
-- `templateFSCmd` of storage/backend/ceph/util.go: the device goes where the command has a percent sign,
-- and a doubled sign is left alone.
use volplugin.Base.{
  ℕ, zero, suc, ◌≡◌, ◌≢◌, ◌≤◌, refl, sym, ◌∙◌, ap, Option, none, some, [], ◌∷◌, ◌++◌, Text, Lacks,
  ◌==◌, append_assoc, append-nil, if◌then◌else◌, arith, Bool-cases, inl, inr, if_true, if_false,
}

abbrev pub percent : ℕ
percent = 0x25

-- The index goes past the first byte of what stands after it.
abbrev pub advance : Text → Text → Text × Text
advance before [] = (before, [])
advance before (c ∷ rest) = (before ++ c ∷ [], rest)

-- A turn of the loop: the text before the index, and the text from it on. After a substitution the
-- index goes past the first byte of what now stands there, the device, and the loop reads on in it.
abbrev pub template_turn : Text → Text → Text → Text × Text
template_turn device before [] = (before, [])
template_turn device before (c ∷ []) =
    if c == percent then advance before device else (before ++ c ∷ [], [])
template_turn device before (c ∷ d ∷ rest) =
    if c == percent
    then (if d == percent
        then (before ++ c ∷ d ∷ [], rest)
        else advance before (device ++ d ∷ rest))
    else (before ++ c ∷ [], d ∷ rest)

-- The loop from an index on, with fuel; `none` is a loop that goes on.
unfoldable pub template_from : ℕ → Text → Text → Text → Option Text
template_from zero device before rest = none
template_from (suc n) device before [] = some before
template_from (suc n) device before (c ∷ rest) =
    let p = template_turn device before (c ∷ rest) in template_from n device p.0 p.1

unfoldable pub template_fs_cmd : ℕ → Text → Text → Option Text
unfolding template_from
template_fs_cmd fuel fscmd device = template_from fuel device [] fscmd

-- The command that is meant.
abbrev pub expand : Text → Text → Text
expand device [] = []
expand device (c ∷ []) = if c == percent then device else c ∷ []
expand device (c ∷ d ∷ rest) =
    let after_two = expand device rest in
    let after_one = expand device (d ∷ rest) in
    if c == percent
    then (if d == percent then c ∷ d ∷ after_two else device ++ after_one)
    else c ∷ after_one

-- The turns that the loop takes to pass a text without a percent sign, and to pass a whole command.
abbrev turns_past : Text → ℕ → ℕ
turns_past [] n = n
turns_past (c ∷ s) n = suc (turns_past s n)

turn_plain :
    (device before : Text) (c : ℕ) (s : Text)
    → c ≢ percent
    → template_turn device before (c ∷ s) ≡ (before ++ c ∷ [], s)
turn_plain device before c [] h = ground arith
turn_plain device before c (d ∷ s) h = ground arith

-- The loop copies a text without a percent sign.
template_from_past :
    (n : ℕ) (device before plain rest : Text)
    → Lacks percent plain
    → template_from (turns_past plain n) device before (plain ++ rest)
      ≡ template_from n device (before ++ plain) rest
unfolding template_from
template_from_past n device before [] rest l = rw (append-nil before) refl
template_from_past n device before (c ∷ plain) rest (ne, l) =
    ap (λ p. template_from (turns_past plain n) device p.0 p.1)
      (turn_plain device before c (plain ++ rest) ne)
    ∙ (template_from_past n device (before ++ c ∷ []) plain rest l
        ∙ ap (λ b. template_from n device b rest) (append_assoc before (c ∷ []) plain))

template_from_more :
    (n k : ℕ) (device before rest r : Text)
    → n ≤ k
    → template_from n device before rest ≡ some r
    → template_from k device before rest ≡ some r
unfolding template_from
template_from_more zero k device before rest r le h = cc
template_from_more (suc n) zero device before rest r le h = absurd (omega arith)
template_from_more (suc n) (suc k) device before [] r le h = h
template_from_more (suc n) (suc k) device before (c ∷ rest) r le h =
    template_from_more n k device _ _ r (omega arith) h

-- The loop ends with some fuel, and with what is meant.
abbrev Ends : Text → Text → Text → Type 0
Ends device before rest =
    (n : ℕ) × (template_from n device before rest ≡ some (before ++ expand device rest))

module _ (x : ℕ) (tail : Text) (lacks : Lacks percent (x ∷ tail)) where
  abbrev pub device : Text
  device = x ∷ tail

  -- A turn, the rest of the loop, and the text that the turn stands for.
  after_turn :
      (n : ℕ) (before : Text) (c : ℕ) (s b r : Text) (w v : Text)
      → template_turn device before (c ∷ s) ≡ (b, r)
      → template_from n device b r ≡ some w
      → w ≡ before ++ v
      → v ≡ expand device (c ∷ s)
      → Ends device before (c ∷ s)
  unfolding template_from
  after_turn n before c s b r w v turned h e f = (
    suc n,
    ap (λ p. template_from n device p.0 p.1) turned
        ∙ (h ∙ (ap some e ∙ ap (λ t. some (before ++ t)) f)),
  )

  -- The device is copied, and the loop goes on behind it.
  put_device :
      (before rest : Text)
      → Ends device (before ++ device) rest
      → (n : ℕ) × (template_from n device (before ++ x ∷ []) (tail ++ rest)
          ≡ some (before ++ (device ++ expand device rest)))
  put_device before rest (n, h) = (
    turns_past tail n,
    template_from_past n device (before ++ x ∷ []) tail rest lacks.1
        ∙ (ap (λ b. template_from n device b rest) (append_assoc before (x ∷ []) tail)
            ∙ (h ∙ ap some (append_assoc before device (expand device rest)))),
  )

  template-Ends : (before rest : Text) → Ends device before rest
  unfolding template_from
  template-Ends before [] = (1, rw (append-nil before) refl)
  template-Ends before (c ∷ []) = elim (Bool-cases (c == percent)) [
    | inl sign ↦
        let (n, h) = put_device before [] (1, rw (append-nil (before ++ device)) refl) in
        after_turn n before c [] (before ++ x ∷ []) (tail ++ []) _ (device ++ [])
          (if_true _ _ sign ∙ ap (λ t. (before ++ x ∷ [], t)) (sym (append-nil tail))) h refl
          (append-nil device ∙ sym (if_true _ _ sign))
    | inr plain ↦
        after_turn 1 before c [] (before ++ c ∷ []) [] _ (c ∷ []) (if_false _ _ plain) refl refl
          (sym (if_false _ _ plain))
  ]
  template-Ends before (c ∷ d ∷ rest) =
      let two = template-Ends (before ++ c ∷ d ∷ []) rest in
      let one = template-Ends (before ++ c ∷ []) (d ∷ rest) in
      let put = put_device before (d ∷ rest) (template-Ends (before ++ device) (d ∷ rest)) in
      elim (Bool-cases (c == percent)) [
        | inl sign ↦ elim (Bool-cases (d == percent)) [
          | inl doubled ↦
              after_turn two.0 before c (d ∷ rest) (before ++ c ∷ d ∷ []) rest _
                (c ∷ d ∷ expand device rest) (if_true _ _ sign ∙ if_true _ _ doubled) two.1
                (append_assoc before (c ∷ d ∷ []) (expand device rest))
                (sym (if_true _ _ sign ∙ if_true _ _ doubled))
          | inr single ↦
              after_turn put.0 before c (d ∷ rest) (before ++ x ∷ []) (tail ++ d ∷ rest) _
                (device ++ expand device (d ∷ rest)) (if_true _ _ sign ∙ if_false _ _ single) put.1
                refl (sym (if_true _ _ sign ∙ if_false _ _ single))
        ]
        | inr plain ↦
            after_turn one.0 before c (d ∷ rest) (before ++ c ∷ []) (d ∷ rest) _
              (c ∷ expand device (d ∷ rest)) (if_false _ _ plain) one.1
              (append_assoc before (c ∷ []) (expand device (d ∷ rest))) (sym (if_false _ _ plain))
      ]

  -- For a device that is not empty and has no percent sign the loop ends, with any fuel from some number
  -- of turns on, and the command is the one that is meant: each single percent sign is the device, and a
  -- doubled one is kept as it is.
  pub template_fs_cmd-expand :
      (fscmd : Text)
      → (n : ℕ) × ((k : ℕ) → n ≤ k → template_fs_cmd k fscmd device ≡ some (expand device fscmd))
  unfolding template_fs_cmd
  template_fs_cmd-expand fscmd =
      let (n, h) = template-Ends [] fscmd in
      (n, λ k le. template_from_more n k device [] fscmd _ le h)
