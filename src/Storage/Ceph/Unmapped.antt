-- ===== src/Storage/Ceph/Unmapped.antt =====
-- What a successful unmapping of an image has seen.
use volplugin.Base.{
  ℕ, zero, suc, ◌≡◌, ◌⊎◌, inl, inr, refl, sym, ap, ◌∙◌, Bool, true, false, Option, none, some, List,
  [], ◌∷◌, Text, All, arith, if◌then◌else◌, Bool-cases, ◌==◌,
}
use volplugin.Errors.{ok}
use volplugin.Storage.Driver.{DriverOptions}
use volplugin.Storage.Ceph.Names.{internal_name}
use volplugin.Storage.Ceph.Machine.{
  Machine, Command, ExecResult, Answer, Rbd, Outcome, done, failed, crashed, running, pool_of, next,
  give,
}
use volplugin.Storage.Ceph.Mapping.{
  is_image, any_image, unmapped, show_mapped, unmap_entries, do_unmap, unmap_loop, unmap_image,
}

module _ (m : Machine) where
  open m use {Host}

  -- A run with a status other than zero has an error.
  abbrev pub Reports : Type 0
  Reports =
      (c : Command) (h : Host) (r : ExecResult) → (m.run c h).0 ≡ (some r, none) → r.exit_status ≡ 0

  -- None of the listed devices of an image has a node.
  abbrev pub NoNodes : Text → Text → List Rbd → Host → Type 0
  NoNodes name pool rs h = All (λ r. is_image name pool r ≡ true → m.stat r.device h ≡ none) rs

  -- The last listing of the mapped images is without the image.
  abbrev pub Unlisted : ℕ → Text → Text → Host → Type 0
  Unlisted fuel name pool h' =
      (h : Host) × (rs : List Rbd) × (show_mapped m fuel h ≡ (done rs, h'))
      × (any_image name pool rs ≡ false)

  abbrev pub Gone : ℕ → Text → Text → List Rbd → Host → Type 0
  Gone fuel name pool rs h = NoNodes name pool rs h ⊎ Unlisted fuel name pool h

  listed-Unlisted :
      (fuel : ℕ) (name pool : Text) (h h' : Host) (p : Outcome (List Rbd) × Host)
      → show_mapped m fuel h ≡ p
      → next (λ rs. give (done (any_image name pool rs))) p ≡ (done false, h')
      → Unlisted fuel name pool h'
  listed-Unlisted fuel name pool h h' (done rs, g) e u =
      (h, rs, ground (arith, e, u), ground (arith, u))
  listed-Unlisted fuel name pool h h' (failed x, g) e u = cc
  listed-Unlisted fuel name pool h h' (crashed, g) e u = cc
  listed-Unlisted fuel name pool h h' (running, g) e u = cc

  unmapped-Unlisted :
      (fuel : ℕ) (name pool : Text) (a : Answer) (h h' : Host)
      → ((r : ExecResult) → a ≡ (some r, none) → r.exit_status ≡ 0)
      → unmapped m fuel name pool a h ≡ (done false, h')
      → Unlisted fuel name pool h'
  unmapped-Unlisted fuel name pool (none, e) h h' z u = cc
  unmapped-Unlisted fuel name pool (some r, some e) h h' z u =
      elim (Bool-cases (r.exit_status == 16)) [
        | inl busy ↦ ground (arith, busy, u)
        | inr other ↦ ground (arith, other, u)
      ]
  unmapped-Unlisted fuel name pool (some r, none) h h' z u =
      listed-Unlisted fuel name pool h h' (show_mapped m fuel h) refl (rw (z r refl) at u)

  -- Entries that are passed over leave the host as it is.
  passed_over :
      (fuel : ℕ) (name pool : Text) (r : Rbd) (rs : List Rbd) (h h' : Host)
      → (is_image name pool r ≡ true → m.stat r.device h ≡ none)
      → (NoNodes name pool rs h' × (h ≡ h')) ⊎ Unlisted fuel name pool h'
      → (NoNodes name pool (r ∷ rs) h' × (h ≡ h')) ⊎ Unlisted fuel name pool h'
  passed_over fuel name pool r rs h h' p (inl (all, e)) =
      inl ((λ i. ap (m.stat r.device) (sym e) ∙ p i, all), e)
  passed_over fuel name pool r rs h h' p (inr gone) = inr gone

  noded_entry :
      (fuel : ℕ) (name pool : Text) (r : Rbd) (rs : List Rbd) (h h' : Host) (node : Option ℕ)
      → Reports
      → m.stat r.device h ≡ node
      → is_image name pool r ≡ true
      → unmap_entries m fuel name pool (r ∷ rs) h ≡ (done false, h')
      → ((unmap_entries m fuel name pool rs h ≡ (done false, h')) × (m.stat r.device h ≡ none))
        ⊎ Unlisted fuel name pool h'
  unfolding unmap_entries
  noded_entry fuel name pool r rs h h' none z e i u = inl (ground (arith, i, e, u), e)
  noded_entry fuel name pool r rs h h' (some n) z e i u = inr (
      unmapped-Unlisted fuel name pool (m.run (Command.rbd_unmap r.device) h).0
        (m.run (Command.rbd_unmap r.device) h).1 h' (z (Command.rbd_unmap r.device) h)
        (rw (i, e) at u))

  passed_entries :
      (fuel : ℕ) (name pool : Text) (rs : List Rbd) (h h' : Host)
      → Reports
      → unmap_entries m fuel name pool rs h ≡ (done false, h')
      → (NoNodes name pool rs h' × (h ≡ h')) ⊎ Unlisted fuel name pool h'
  unfolding unmap_entries
  passed_entries fuel name pool [] h h' z u = inl (tt, ap (λ q. q.1) u)
  passed_entries fuel name pool (r ∷ rs) h h' z u = elim (Bool-cases (is_image name pool r)) [
    | inl i ↦ elim (noded_entry fuel name pool r rs h h' (m.stat r.device h) z refl i u) [
      | inl (v, e) ↦
          passed_over fuel name pool r rs h h' (λ _. e) (passed_entries fuel name pool rs h h' z v)
      | inr gone ↦ inr gone
    ]
    | inr n ↦
        passed_over fuel name pool r rs h h' (λ i. cc)
          (passed_entries fuel name pool rs h h' z (rw n at u))
  ]

  -- The turns of the loop, for the answer of one of them.
  turn-Gone :
      (fuel n : ℕ) (d : DriverOptions) (name : Text) (rs : List Rbd) (h' : Host)
      (p : Outcome Bool × Host)
      → ((g : Host) → unmap_loop m fuel n d rs g ≡ (done tt, h') → Gone fuel name (pool_of d) rs h')
      → ((g : Host) → p ≡ (done false, g) → Gone fuel name (pool_of d) rs g)
      → next (λ again. if again then unmap_loop m fuel n d rs else give (done tt)) p ≡ (done tt, h')
      → Gone fuel name (pool_of d) rs h'
  turn-Gone fuel n d name rs h' (done true, g) loop one u = loop g u
  turn-Gone fuel n d name rs h' (done false, g) loop one u = one h' (ground (arith, u))
  turn-Gone fuel n d name rs h' (failed x, g) loop one u = cc
  turn-Gone fuel n d name rs h' (crashed, g) loop one u = cc
  turn-Gone fuel n d name rs h' (running, g) loop one u = cc

  forget :
      (fuel : ℕ) (name pool : Text) (rs : List Rbd) (h h' : Host)
      → (NoNodes name pool rs h' × (h ≡ h')) ⊎ Unlisted fuel name pool h'
      → Gone fuel name pool rs h'
  forget fuel name pool rs h h' (inl (all, e)) = inl all
  forget fuel name pool rs h h' (inr gone) = inr gone

  module _ (fuel : ℕ) (d : DriverOptions) (name : Text)
      (named : internal_name d.volume.name ≡ ok name) (reports : Reports) where
    loop-Gone :
        (n : ℕ) (rs : List Rbd) (h h' : Host)
        → unmap_loop m fuel n d rs h ≡ (done tt, h')
        → Gone fuel name (pool_of d) rs h'
    unfolding unmap_loop do_unmap
    loop-Gone zero rs h h' u = cc
    loop-Gone (suc n) rs h h' u =
        turn-Gone fuel n d name rs h' (unmap_entries m fuel name (pool_of d) rs h)
          (λ g v. loop-Gone n rs g h' v)
          (λ g e.
            forget fuel name (pool_of d) rs h g
              (passed_entries fuel name (pool_of d) rs h g reports e))
          (rw named at u)

    listing-Gone :
        (h h' : Host) (p : Outcome (List Rbd) × Host)
        → show_mapped m fuel h ≡ p
        → next (unmap_loop m fuel 10 d) p ≡ (done tt, h')
        → (rs : List Rbd) × (g : Host) × (show_mapped m fuel h ≡ (done rs, g))
          × Gone fuel name (pool_of d) rs h'
    listing-Gone h h' (done rs, g) e u = (rs, g, e, loop-Gone 10 rs g h' u)
    listing-Gone h h' (failed x, g) e u = cc
    listing-Gone h h' (crashed, g) e u = cc
    listing-Gone h h' (running, g) e u = cc

    -- Where a run with a status other than zero has an error, an unmapping that succeeds has
    -- seen its image go: the last listing of the mapped images is without it, or none of the devices that
    -- were listed for it at the start has a node any more.
    pub unmap_image-Gone :
        (h h' : Host)
        → unmap_image m fuel d h ≡ (done tt, h')
        → (rs : List Rbd) × (g : Host) × (show_mapped m fuel h ≡ (done rs, g))
          × Gone fuel name (pool_of d) rs h'
    unfolding unmap_image
    unmap_image-Gone h h' u = listing-Gone h h' (show_mapped m fuel h) refl u
