-- ===== src/Storage/Ceph/Copied.antt =====
-- The cleaning up after a failed formatting and after a failed copy of a snapshot, and the guard of the copy.
use volplugin.Base.{
  ℕ, ◌≡◌, ◌≢◌, ◌⊎◌, inl, inr, refl, sym, ◌∙◌, true, false, Option, none, some, List, [], ◌∷◌, ◌++◌,
  Text, codes, map, text_eq, text_eq_sound, Lacks, cut, cut-CutOf, CutOf, parts_of_cut, join, arith,
  Bool-cases, if_false,
}
use volplugin.Errors.{ok, Error}
use volplugin.Storage.Driver.{DriverOptions}
use volplugin.Storage.Ceph.Names.{internal_name, external_name, slash, dot, internal_name_parts}
use volplugin.Storage.Ceph.Machine.{
  Machine, Command, ExecResult, Answer, Outcome, done, failed, crashed, running, Action, give, next,
  call, succeeded, trim_space, mkpool, pool_of,
}
use volplugin.Storage.Ceph.Images.{list, listed_volume, any_named}
use volplugin.Storage.Ceph.Mapping.{map_image, mkfs_volume, unmap_image, format}
use volplugin.Storage.Ceph.Snapshots.{cloned, cleaned, cleanup_copy, copy_snapshot, protected}

slashless_whole : (n a b : Text) → Lacks slash n → n ≢ a ++ slash ∷ b
slashless_whole n [] b l e = (rw e at l).0 refl
slashless_whole n (x ∷ a) b l e = slashless_whole _ a b (rw e at l).1 refl

dotted_whole : (a b : Text) → Lacks dot (a ++ dot ∷ b) → ⊥
dotted_whole [] b (n, l) = n refl
dotted_whole (x ∷ a) b (n, l) = dotted_whole a b l

Lacks-join : (a b : Text) → Lacks slash a → Lacks slash b → Lacks slash (a ++ dot ∷ b)
Lacks-join [] b _ l = (ground arith, l)
Lacks-join (x ∷ a) b (n, k) l = (n, Lacks-join a b k l)

-- A volume's name that stands for an image is never the name of an image.
differs_of_cut :
    (n policy volume : Text) (o : Option (Text × Text))
    → Lacks slash policy
    → Lacks slash volume
    → CutOf dot n o
    → join slash (parts_of_cut n o) ≢ policy ++ dot ∷ volume
differs_of_cut n policy volume none k l c e = dotted_whole policy volume (rw e at c)
differs_of_cut n policy volume (some (a, b)) k l c e =
    slashless_whole (policy ++ dot ∷ volume) a b (Lacks-join policy volume k l) (sym e)

any_named-listed :
    (policy volume pool : Text) (names : List Text)
    → Lacks slash policy
    → Lacks slash volume
    → any_named (policy ++ dot ∷ volume) (map (listed_volume pool) names) ≡ false
unfolding external_name
any_named-listed policy volume pool [] k l = refl
any_named-listed policy volume pool (n ∷ names) k l =
    elim (Bool-cases (text_eq (external_name (trim_space n)) (policy ++ dot ∷ volume))) [
      | inl same ↦ absurd (
          differs_of_cut (trim_space n) policy volume (cut dot (trim_space n)) k l
            (cut-CutOf dot (trim_space n))
            (text_eq_sound (external_name (trim_space n)) (policy ++ dot ∷ volume) same))
      | inr other ↦ if_false _ _ other ∙ any_named-listed policy volume pool names k l
    ]

-- The guard of `CopySnapshot` never refuses: whatever images are listed, none of their volumes has the name
-- of the new image.
copy_guard_never :
    (new_name int_new pool : Text) (names : List Text)
    → internal_name new_name ≡ ok int_new
    → any_named int_new (map (listed_volume pool) names) ≡ false
copy_guard_never new_name int_new pool names h =
    let (policy, volume, (e, f, d, k, l)) = internal_name_parts new_name int_new h in
    rw f (any_named-listed policy volume pool names k l)

abbrev pub IsProtected : Answer → Type 0
IsProtected (r, none) = Unit
IsProtected (none, some e) = ⊥
IsProtected (some r, some e) = (r.exit_status ≡ 0) ⊎ (r.exit_status ≡ 16)

-- A command that was started.
abbrev pub HasResult : Answer → Type 0
HasResult (none, e) = ⊥
HasResult (some r, e) = Unit

protected_goes_on :
    (m : Machine) (k : Action m.Host (Unit {0})) (a : Answer) (h : m.Host)
    → IsProtected a
    → protected m k a h ≡ k h
protected_goes_on m k (r, none) h p = refl
protected_goes_on m k (none, some e) h p = absurd p
protected_goes_on m k (some r, some e) h p = ground (arith, p)

cleaned_goes_on :
    (m : Machine) (k : Action m.Host (Unit {0})) (a : Answer) (h : m.Host)
    → succeeded a ≡ true
    → cleaned m k a h ≡ k h
cleaned_goes_on m k (none, e) h s = cc
cleaned_goes_on m k (some r, some e) h s = cc
cleaned_goes_on m k (some r, none) h s = ground (arith, s)

cleaned_last :
    (m : Machine) (a : Answer) (h : m.Host)
    → HasResult a
    → cleaned m (give (done tt)) a h ≡ (done tt, h)
cleaned_last m (none, e) h p = absurd p
cleaned_last m (some r, some e) h p = refl
cleaned_last m (some r, none) h p = ground arith

module _ (m : Machine) where
  open m use {Host}

  abbrev pub after_unmap : Error → Outcome (Unit {0}) → Outcome (Unit {0})
  after_unmap e (done u) = failed e
  after_unmap e (failed x) = failed e
  after_unmap e crashed = crashed
  after_unmap e running = running

  -- A mapped image whose filesystem cannot be made is unmapped again, and the error is that of the
  -- filesystem whatever error the unmapping has.
  format_cleans_up :
      (fuel : ℕ) (d : DriverOptions) (device : Text) (e : Error) (h h1 h2 : Host)
      → map_image m fuel d h ≡ (done device, h1)
      → mkfs_volume m fuel d.fs_options.create_command device h1 ≡ (failed e, h2)
      → format m fuel d h ≡ (after_unmap e (unmap_image m fuel d h2).0, (unmap_image m fuel d h2).1)
  unfolding format
  format_cleans_up fuel d device e h h1 h2 mapped unmade = ground (arith, mapped, unmade)

  -- A copy of a snapshot between two volumes, whose listing is `names`, and whose snapshot is protected:
  -- it was not before, or the answer is EBUSY, 16.
  module _ (fuel : ℕ) (d : DriverOptions) (snap new_name orig new : Text) (names : List Text)
      (int_orig : internal_name d.volume.name ≡ ok orig) (int_new : internal_name new_name ≡ ok new)
      (h h1 h2 h3 : Host)
      (listed : list m fuel (some ((codes "pool", pool_of d) ∷ [])) h
        ≡ (done (map (listed_volume (pool_of d)) names), h1))
      (protection : Answer)
      (protects : m.run (Command.rbd_snap_protect (mkpool (pool_of d) orig) snap) h1
        ≡ (protection, h2))
      (allowed : IsProtected protection) where
    abbrev clone : Command
    clone = Command.rbd_clone (mkpool (pool_of d) orig) (mkpool (pool_of d) new) snap

    copy_snapshot-clone :
        copy_snapshot m fuel d snap new_name h
        ≡ cloned m
            (mkpool (pool_of d) orig)
            (mkpool (pool_of d) new)
            snap
            (m.run clone h2).0
            (m.run clone h2).1
    unfolding copy_snapshot
    copy_snapshot-clone =
        rw
          (
            int_orig,
            int_new,
            listed,
            copy_guard_never new_name new (pool_of d) names int_new,
            protects,
            protected_goes_on m _ protection h2 allowed,
          )
          refl

    cloned_cleans :
        (r : ExecResult) (e : Error) (g : Host)
        → r.exit_status ≢ 0
        → r.exit_status ≢ 17
        → cloned m (mkpool (pool_of d) orig) (mkpool (pool_of d) new) snap (some r, some e) g
          ≡ next
              (λ _. give (failed e))
              (call
                (m.run (Command.rbd_rm (mkpool (pool_of d) new)))
                (cleaned m (
                  call
                    (m.run (Command.rbd_snap_unprotect (mkpool (pool_of d) orig) snap))
                    (cleaned m (give (done tt)))))
                g)
    unfolding cleanup_copy
    cloned_cleans r e g failed_status other = ground (arith, failed_status, other)

    -- A copy whose guard has passed, of a snapshot that is protected, by a run of `rbd clone` that exits with a status
    -- other than zero, has the error of that run. If the status is EEXIST, 17, no further command is
    -- run. With any other status the new image is removed and, if that succeeds, the protection of
    -- the snapshot is taken back.
    pub copy_snapshot_cleans_up :
        (r : ExecResult) (e : Error)
        → m.run clone h2 ≡ ((some r, some e), h3)
        → (r.exit_status ≡ 17 → copy_snapshot m fuel d snap new_name h ≡ (failed e, h3))
          × (r.exit_status ≢ 0
              → r.exit_status ≢ 17
              → (removed unprotected : Answer) (h4 h5 : Host)
              → m.run (Command.rbd_rm (mkpool (pool_of d) new)) h3 ≡ (removed, h4)
              → succeeded removed ≡ true
              → m.run (Command.rbd_snap_unprotect (mkpool (pool_of d) orig) snap) h4
                ≡ (unprotected, h5)
              → HasResult unprotected
              → copy_snapshot m fuel d snap new_name h ≡ (failed e, h5))
    copy_snapshot_cleans_up r e answered = (
      λ taken. copy_snapshot-clone ∙ rw answered (ground (arith, taken)),
      λ failed_status other removed unprotected h4 h5 removes fine unprotects result.
          rw
            (
              copy_snapshot-clone,
              answered,
              cloned_cleans r e h3 failed_status other,
              removes,
              cleaned_goes_on m _ removed h4 fine,
              unprotects,
              cleaned_last m unprotected h5 result,
            )
            refl,
    )
