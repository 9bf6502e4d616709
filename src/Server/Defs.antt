-- ===== src/Server/Defs.antt =====
-- Replies, requests by JSON, and what the handlers read and change.
use volplugin.Base.{Bool, true, false, none, some, List, [], ◌∷◌, ℕ, Text, if◌then◌else◌}
use volplugin.Errors.{Result, ok, err, panic, Error, sentinel, message, not_exists, errored}
use volplugin.Config.Types.{Options}
use volplugin.Storage.Control.{lookup}
use volplugin.Storage.Name.{is_empty}

-- `RESTHTTPError`, `w.WriteHeader`, `w.Write`, and a panic, which the server ends the request with.
pub data Write {ℓ} (A : Type ℓ) : Type ℓ where
  http_error : Error → Write A
  status : ℕ → Write A
  content : A → Write A
  empty_content : Write A
  panicked : Write A

abbrev pub Reply {ℓ} : Type ℓ → Type ℓ
Reply A = List (Write A)

-- `config.VolumeRequest`; a nil map reads as an empty one.
pub record VolumeRequest : Type 0 where
  pub name : Text
  pub policy : Text
  pub options : Options

-- The value of a missing option is the empty text.
abbrev pub option_of : VolumeRequest → Text → Text
option_of q k = elim (lookup q.options k) [ none ↦ [] | some v ↦ v ]

abbrev filled_in : VolumeRequest → Result VolumeRequest
filled_in q =
    if is_empty q.policy
    then err (sentinel message)
    else if is_empty q.name
    then err (sentinel message)
    else ok q

-- `unmarshalRequest`, of the body and its decoding.
unfoldable pub unmarshal_volume_request :
    Result Text → (Text → Result VolumeRequest) → Result VolumeRequest
unmarshal_volume_request read decode = elim read [
  | ok body ↦ elim (decode body) [ ok q ↦ filled_in q | err e ↦ err e | panic ↦ panic ]
  | err e ↦ err e
  | panic ↦ panic
]

-- A comparison with the variable `errors.NotExists`.
abbrev pub is_missing_error : Error → Bool
is_missing_error (errored (not_exists ∷ [])) = true
is_missing_error _ = false
