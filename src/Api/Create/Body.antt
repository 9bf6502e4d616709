-- ===== src/Api/Create/Body.antt =====
-- What the creation of a volume does with its driver and with the intent store, by their answers.
use volplugin.Base.{
  ◌⊎◌, inl, inr, ℕ, ◌≡◌, Option, none, some, [], ◌∷◌, ◌++◌, Text, codes, arith, text_eq_refl,
}
use volplugin.Errors.{Result, ok, err, Error, combine, format_volume}
use volplugin.Config.Types.{Volume, Options}
use volplugin.Config.Volume.{actual_size}
use volplugin.Storage.Driver.{DriverOptions}
use volplugin.Storage.Control
use volplugin.Storage.Control.{
  Crud, CrudCall, options_for, plain_options, filesystem_command, crud_of,
}
use volplugin.Api.Create.{World, CreateRequest, name_of, create_body, publish, validate}

-- A volume that the ceph driver is to make: its filesystem's command and its size are known.
module _ (from_human_size : Text → Result ℕ) {S : Type 0} (q : CreateRequest S) (v : Volume)
    (file_systems : Option Options) (command : Text) (size : ℕ)
    (configured : q.config_volume ≡ ok v)
    (sized : actual_size from_human_size v.create_options ≡ ok size)
    (commanded : filesystem_command file_systems v.create_options.file_system ≡ ok command)
    (backend : crud_of v.backends ≡ ok (codes "ceph")) where
  abbrev pub made_with : DriverOptions
  made_with =
      options_for from_human_size q.crud v size v.create_options.file_system command
        q.driver_timeout

  pub create_body_publishes :
      (w : World)
      → q.crud.create made_with ≡ none
      → q.crud.format made_with ≡ none
      → validate from_human_size q v ≡ ok tt
      → q.runtime_schema v.runtime_options ≡ none
      → q.set_volume ≡ none
      → q.set_runtime ≡ none
      → q.write_create ≡ none
      → w.volumes (name_of v) ≡ none
      → let (r, w') = create_body from_human_size q file_systems w in
        (r ≡ ok v)
        × (w'.volumes (name_of v) ≡ some v)
        × (w'.runtimes (name_of v) ≡ some v.runtime_options)
        × (w'.calls ≡ (w.calls ++ CrudCall.create made_with ∷ []) ++ CrudCall.format made_with ∷ [])
  unfolding create_body publish Control.create_volume Control.format_volume
  create_body_publishes w made formatted valid schema stored set written fresh =
      ground (arith, configured, sized, commanded, backend, text_eq_refl (name_of v))

  -- A volume of the ceph driver, with a known size and filesystem, that is made and cannot be formatted
  -- is destroyed again, whatever its destruction answers, and the
  -- intent store is left as it was; the error is that of the formatting.
  pub create_body_cleans_up :
      (w : World) (e : Error)
      → q.crud.create made_with ≡ none
      → q.crud.format made_with ≡ some e
      → let (r, w') = create_body from_human_size q file_systems w in
        (w'.volumes ≡ w.volumes)
        × (w'.runtimes ≡ w.runtimes)
        × (w'.calls
            ≡ ((w.calls ++ CrudCall.create made_with ∷ []) ++ CrudCall.format made_with ∷ [])
              ++ CrudCall.destroy (plain_options from_human_size q.crud v q.driver_timeout) ∷ [])
        × (r ≡ err (combine (format_volume ∷ []) e))
  unfolding create_body Control.create_volume Control.format_volume Control.remove_volume
  create_body_cleans_up w e made unformatted = ground (arith, configured, sized, commanded, backend)

  -- When the write of a valid volume that the ceph driver has made and formatted fails, because its name was published meanwhile or for another
  -- reason, the intent store is left as it was, and the creation is replied to as if the volume had been
  -- stored.
  pub create_body_already :
      (w : World)
      → q.crud.create made_with ≡ none
      → q.crud.format made_with ≡ none
      → validate from_human_size q v ≡ ok tt
      → q.write_create ≡ none
      → ((old : Volume) × (w.volumes (name_of v) ≡ some old))
        ⊎ ((e : Error) × (w.volumes (name_of v) ≡ none) × (q.set_volume ≡ some e))
      → let (r, w') = create_body from_human_size q file_systems w in
        (r ≡ ok v) × (w'.volumes ≡ w.volumes) × (w'.runtimes ≡ w.runtimes)
  unfolding create_body publish Control.create_volume Control.format_volume
  create_body_already w made formatted valid written (inl (old, there)) =
      ground (arith, configured, sized, commanded, backend)
  create_body_already w made formatted valid written (inr (e, absent, refused)) =
      ground (arith, configured, sized, commanded, backend)
