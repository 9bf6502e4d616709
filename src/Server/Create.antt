-- ===== src/Server/Create.antt =====
-- `handleCreate` and its `createVolume`, which differ from those of api/handlers.go in the reading of the request, in
-- the encoding of the reply, and in that an existing volume is not looked for first.
use volplugin.Base.{ℕ, Option, none, some, [], ◌∷◌, Text, if◌then◌else◌}
use volplugin.Errors.{
  Result, ok, err, panic, Error, combine, sentinel, message, read_body, unmarshal_request,
  get_policy, get_volume, marshal_policy,
}
use volplugin.Etcd.{Etcd}
use volplugin.Config.Use.{UseLocker}
use volplugin.Storage.Name.{is_empty}
use volplugin.Api.Create.{World, CreateRequest, CreateReply, create_on}
use volplugin.Api.Create
use volplugin.Server.Defs.{VolumeRequest}

-- The error of the encoding, joined with the fault that the server gives it.
abbrev marshal_error : Option Error → Option Error
marshal_error none = none
marshal_error (some e) = some (combine (marshal_policy ∷ []) e)

module _ (prefix : Text) (kv : Etcd UseLocker) (from_human_size : Text → Result ℕ) where
  open kv use {Store}

  abbrev pub server_request : CreateRequest Store → CreateRequest Store
  server_request q = record q { write_create = marshal_error q.write_create }

  abbrev refuse : Error → Store → World → Option CreateReply × Store × World
  refuse e s w = (some (Create.http_error e), s, w)

  -- `handleCreate`: `write_create` of the request is the error of the encoding of the reply.
  unfoldable pub handle_create :
      Result Text
      → (Text → Result VolumeRequest)
      → CreateRequest Store
      → Store
      → World
      → Option CreateReply × Store × World
  handle_create read decode q s w = elim read [
    | err e ↦ refuse (combine (read_body ∷ []) e) s w
    | panic ↦ (some Create.panicked, s, w)
    | ok body ↦ elim (decode body) [
      | err e ↦ refuse (combine (unmarshal_request ∷ []) e) s w
      | panic ↦ (some Create.panicked, s, w)
      | ok req ↦
          if is_empty req.policy
          then refuse (combine (get_policy ∷ []) (sentinel message)) s w
          else if is_empty req.name
          then refuse (combine (get_volume ∷ []) (sentinel message)) s w
          else create_on prefix kv from_human_size (server_request q)
              (record { policy = req.policy; name = req.name }) s w
    ]
  ]
