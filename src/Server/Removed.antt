-- ===== src/Server/Removed.antt =====
-- What a removal does with the driver, the intent store and the locks.
use volplugin.Base.{
  ℕ, ◌≡◌, ◌≢◌, refl, sym, append-nil, Bool, true, false, Option, none, some, [], ◌∷◌, ◌++◌, Text,
  codes, ℤ, pos_part, arith, update, update_ne, update_self, if◌then◌else◌,
}
use volplugin.Errors.{Result, ok, err, Error, sentinel, not_exists}
use volplugin.Config.Types.{Volume}
use volplugin.Storage.Driver.{DriverOptions}
use volplugin.Storage.Control
use volplugin.Storage.Control.{Crud, CrudCall, plain_options, crud_of, exists_volume}
use volplugin.Api.Create.{World}
use volplugin.Server.Defs.{VolumeRequest}
use volplugin.Server.Remove.{
  RemoveRequest, requested_name, remove_body, complete_remove, remove_volume_entry,
}

module _ (from_human_size : Text → Result ℕ) {S : Type 0} (q : RemoveRequest S)
    (req : VolumeRequest) (vc : Volume) (backend : crud_of vc.backends ≡ ok (codes "ceph"))
    (timeout : ℤ) where
  -- The options of `ExistsVolume` and of `RemoveVolume`: the timeouts differ.
  abbrev pub asked : World → DriverOptions
  asked w = plain_options from_human_size (q.crud w) vc (pos_part timeout)

  abbrev pub destroyed : World → DriverOptions
  destroyed w = plain_options from_human_size (q.crud w) vc (pos_part q.timeout)

  abbrev pub after_question : World → World
  after_question w = record w { calls = w.calls ++ CrudCall.exists (asked w) ∷ [] }

  -- The volume that the request names has no entry in the intent store, and the entries of the others are as before.
  abbrev pub IsRemoved : World → World → Type 0
  IsRemoved w w' =
      (w'.volumes (requested_name req) ≡ none)
      × (w'.runtimes (requested_name req) ≡ none)
      × ((k : Text) → requested_name req ≢ k → w'.volumes k ≡ w.volumes k)

  abbrev pub without_entry : World → World
  without_entry w = record w {
    volumes = update w.volumes (requested_name req) none;
    runtimes = update w.runtimes (requested_name req) none;
  }

  without_entry-IsRemoved : (w : World) → IsRemoved w (without_entry w)
  without_entry-IsRemoved w = (
    update_self w.volumes (requested_name req) none,
    update_self w.runtimes (requested_name req) none,
    λ k ne. update_ne w.volumes (requested_name req) k none ne,
  )

  abbrev pub after_destruction : World → World
  after_destruction w = record w {
    calls =
        (w.calls ++ CrudCall.exists (asked w) ∷ [])
        ++ CrudCall.destroy (destroyed (after_question w)) ∷ [];
  }

  body_there :
      (w : World) (a : Option Error)
      → (q.crud (after_question w)).destroy (destroyed (after_question w)) ≡ a
      → (q.crud w).exists (asked w) ≡ ok true
      → q.delete (after_destruction w) ≡ none
      → remove_body from_human_size q req timeout vc w
        ≡ (ok tt, without_entry (after_destruction w))
  unfolding remove_body complete_remove remove_volume_entry exists_volume Control.remove_volume
  body_there w none d there deletes = ground (arith, backend, there, d, deletes)
  body_there w (some e) d there deletes = ground (arith, backend, there, d, deletes)

  body_missing :
      (w : World)
      → (q.crud w).exists (asked w) ≡ ok false
      → q.delete (after_question w) ≡ none
      → remove_body from_human_size q req timeout vc w
        ≡ (err (sentinel not_exists), without_entry (after_question w))
  unfolding remove_body remove_volume_entry exists_volume
  body_missing w missing deletes = ground (arith, backend, missing, deletes)

  -- The error of a deletion that finds no entry is dropped.
  pub body_missing_twice :
      (w : World) (e : Error)
      → (q.crud w).exists (asked w) ≡ ok false
      → q.delete (after_question w) ≡ some e
      → remove_body from_human_size q req timeout vc w
        ≡ (err (sentinel not_exists), after_question w)
  unfolding remove_body remove_volume_entry exists_volume
  body_missing_twice w e missing refused = ground (arith, backend, missing, refused)

  pub remove_body_removes :
      (w : World) (there : Bool)
      → (q.crud w).exists (asked w) ≡ ok there
      → q.delete (if there then after_destruction w else after_question w) ≡ none
      → let (r, w') = remove_body from_human_size q req timeout vc w in
        IsRemoved w w'
        × (r ≡ (if there then ok tt else err (sentinel not_exists)))
        × (w'.calls
            ≡ (w.calls ++ CrudCall.exists (asked w) ∷ [])
              ++ (if there then CrudCall.destroy (destroyed (after_question w)) ∷ [] else []))
  remove_body_removes w true found deletes =
      rw (body_there w _ refl found deletes) (without_entry-IsRemoved w, refl, refl)
  remove_body_removes w false missing deletes = rw (body_missing w missing deletes) (
    without_entry-IsRemoved w,
    refl,
    sym (append-nil (w.calls ++ CrudCall.exists (asked w) ∷ [])),
  )
