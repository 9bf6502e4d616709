-- ===== src/Storage/Nfs/Options.antt =====
-- `validateConvertOptions` and `mapOptionsToString` of storage/backend/nfs/nfs.go. A map is the list of its entries, in
-- one order of iteration.
use volplugin.Base.{
  ℕ, ◌==◌, Bool, false, ◌||◌, Option, none, some, List, [], ◌∷◌, ◌++◌, Text, text_eq, split,
  if◌then◌else◌,
}
use volplugin.Errors.{Result, ok, err, panic, ◌>>=◌, sentinel, message}
use volplugin.Storage.Name.{is_empty}
use volplugin.Storage.Ceph.Machine.{trim_space}

abbrev pub OptionMap : Type 0
OptionMap = List (Text × Text)

abbrev pub find_option : Text → OptionMap → Option Text
find_option k [] = none
find_option k ((j, v) ∷ m) = if text_eq j k then some v else find_option k m

-- `m[k] = v`.
abbrev pub put_option : Text → Text → OptionMap → OptionMap
put_option k v [] = (k, v) ∷ []
put_option k v ((j, w) ∷ m) =
    let rest = put_option k v m in if text_eq j k then (k, v) ∷ m else (j, w) ∷ rest

abbrev pub equals : ℕ
equals = 0x3d

abbrev pub comma : ℕ
comma = 0x2c

abbrev pub starts_with : ℕ → Text → Bool
starts_with b [] = false
starts_with b (c ∷ s) = c == b

abbrev pub ends_with : ℕ → Text → Bool
ends_with b [] = false
ends_with b (c ∷ []) = c == b
ends_with b (c ∷ d ∷ s) = ends_with b (d ∷ s)

abbrev pub key_value : List Text → Result (Text × Text)
key_value (k ∷ []) = ok (k, [])
key_value (k ∷ v ∷ []) = ok (k, v)
key_value _ = err (sentinel message)

-- An entry of the options, without the blanks around it.
abbrev pub entry_of : Text → Result (Text × Text)
entry_of part =
    if is_empty part
    then err (sentinel message)
    else if starts_with equals part || ends_with equals part
    then err (sentinel message)
    else key_value (split equals part)

abbrev pub convert_parts : List Text → OptionMap → Result OptionMap
convert_parts [] m = ok m
convert_parts (part ∷ parts) m =
    entry_of (trim_space part) >>= λ e. convert_parts parts (put_option e.0 e.1 m)

unfoldable pub validate_convert_options : Text → Result OptionMap
validate_convert_options options =
    if is_empty options then ok [] else convert_parts (split comma options) []

abbrev pub entry_text : Text × Text → Text
entry_text (k, v) = if is_empty v then k else k ++ equals ∷ v

-- Each entry is followed by a comma, and the last comma is cut off: of no entry there is nothing to cut.
abbrev pub entries_text : OptionMap → Text
entries_text [] = []
entries_text (e ∷ m) = entry_text e ++ comma ∷ entries_text m

abbrev pub without_last : Text → Result Text
without_last [] = panic
without_last (c ∷ []) = ok []
without_last (c ∷ d ∷ s) = without_last (d ∷ s) >>= λ t. ok (c ∷ t)

unfoldable pub map_options_to_string : OptionMap → Result Text
map_options_to_string m = without_last (entries_text m)
