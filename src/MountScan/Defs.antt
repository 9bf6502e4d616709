-- ===== src/MountScan/Defs.antt =====
-- storage/mountscan/mountscan.go. The two files are read by their reader: their contents or an error
-- is an argument.
use volplugin.Base.{
  ℕ, ◌+◌, ◌-◌, ◌*◌, ◌==◌, Bool, true, false, not, ◌&&◌, Option, none, some, List, [], ◌∷◌, Text,
  codes, ltb, leb, ◌++◌, length, drop, split, text_eq, if◌then◌else◌,
}
use volplugin.Errors.{
  Result, ok, err, panic, Error, ◌>>=◌, wrap, combine, plain, sentinel, message, dev_not_found,
  mount_scan,
}
use volplugin.Config.Volume.{is_blank}

pub record GetMountsRequest : Type 0 where
  pub driver_name : Text
  pub fs_type : Text
  pub kernel_driver : Text

pub record DeviceNumber : Type 0 where
  pub major : ℕ
  pub minor : ℕ

pub record MountInfo : Type 0 where
  pub mount_id : ℕ
  pub parent_id : ℕ
  pub device_number : DeviceNumber
  pub root : Text
  pub mount_point : Text
  pub mount_options : Text
  pub optional_fields : Text
  pub separator : Text
  pub filesystem_type : Text
  pub mount_source : Text

-- `strconv.ParseUint(raw, 10, 64)`.
abbrev is_digit : ℕ → Bool
is_digit c = leb 48 c && leb c 57

abbrev pub digits : ℕ → Text → Option ℕ
digits n [] = some n
digits n (c ∷ s) = if is_digit c then digits (n * 10 + (c - 48)) s else none

abbrev pub parse_uint : Text → Option ℕ
parse_uint [] = none
parse_uint (c ∷ s) = digits 0 (c ∷ s)

-- The text about the input, joined with the error of strconv.
abbrev bad_number : Error
bad_number = combine (message ∷ []) (plain message)

abbrev in_range : Option ℕ → Result ℕ
in_range none = err bad_number
in_range (some n) = if ltb n 18446744073709551616 then ok n else err bad_number

-- `convertToUint`.
unfoldable pub convert_to_uint : Text → Result ℕ
convert_to_uint raw = in_range (parse_uint raw)

abbrev pub has_suffix : Text → Text → Bool
has_suffix s k = leb (length k) (length s) && text_eq (drop (length s - length k) s) k

abbrev device_of : List Text → Result ℕ
device_of (n ∷ _ ∷ []) = wrap message (convert_to_uint n)
device_of _ = err (sentinel message)

-- The loop of `getDevID`: only the lines that follow the title of the block devices count.
abbrev find_device : Text → Bool → List Text → Result ℕ
find_device k in_block [] = err (combine (message ∷ []) (sentinel dev_not_found))
find_device k false (line ∷ lines) = find_device k (text_eq line (codes "Block devices:")) lines
find_device k true (line ∷ lines) =
    if has_suffix line k then device_of (split 0x20 line) else find_device k true lines

unfoldable pub get_dev_id : Result Text → Text → Result ℕ
unfolding convert_to_uint
get_dev_id device_info kernel_driver = do
  content ← device_info
  find_device kernel_driver false (split 0x0a content)

-- A missing part is an index out of range.
abbrev device_number : List Text → Result DeviceNumber
device_number [] = panic
device_number (major ∷ []) = do m ← convert_to_uint major; panic
device_number (major ∷ minor ∷ _) = do
  m ← convert_to_uint major
  n ← convert_to_uint minor
  ok (record { major = m; minor = n })

abbrev pub info_of_parts : List Text → Result MountInfo
info_of_parts
      (id ∷ parent ∷ device ∷ root ∷ point ∷ options ∷ fields ∷ separator ∷ type ∷ source ∷ _) =
    do
      i ← convert_to_uint id
      p ← convert_to_uint parent
      d ← device_number (split 0x3a device)
      ok (record {
        mount_id = i;
        parent_id = p;
        device_number = d;
        root = root;
        mount_point = point;
        mount_options = options;
        optional_fields = fields;
        separator = separator;
        filesystem_type = type;
        mount_source = source;
      })
info_of_parts _ = panic

-- `convertToMountInfo`.
unfoldable pub convert_to_mount_info : Text → Result MountInfo
unfolding convert_to_uint
convert_to_mount_info mountinfo = info_of_parts (split 0x20 mountinfo)

abbrev is_nfs : Text → Bool
is_nfs name = text_eq name (codes "nfs")

-- `getDriverMajorID`.
unfoldable pub get_driver_major_id : Result Text → GetMountsRequest → Result ℕ
get_driver_major_id device_info q =
    if is_nfs q.driver_name then ok 0 else get_dev_id device_info q.kernel_driver

-- `validateRequest`.
unfoldable pub validate_request : GetMountsRequest → Option Error
validate_request q =
    if is_blank q.driver_name
    then some (sentinel message)
    else if is_nfs q.driver_name
    then (if is_blank q.fs_type then some (sentinel message) else none)
    else (if is_blank q.kernel_driver then some (sentinel message) else none)

-- The test on a mount that was read.
abbrev pub is_wanted : GetMountsRequest → ℕ → MountInfo → Bool
is_wanted q driver_major m =
    m.device_number.major == driver_major
    && not (not (is_blank q.fs_type) && not (text_eq m.filesystem_type q.fs_type))

abbrev pub keep : GetMountsRequest → ℕ → Result MountInfo → Result (List MountInfo)
keep q major (ok m) = ok (if is_wanted q major m then m ∷ [] else [])
keep q major (err e) = ok []
keep q major panic = panic

-- What one line adds: an error in a line is only logged.
unfoldable pub scan_line : GetMountsRequest → ℕ → Text → Result (List MountInfo)
scan_line q driver_major line =
    if is_blank line
    then ok []
    else if ltb (length (split 0x20 line)) 10
    then ok []
    else keep q driver_major (convert_to_mount_info line)

unfoldable pub scan_lines : GetMountsRequest → ℕ → List Text → Result (List MountInfo)
scan_lines q driver_major [] = ok []
scan_lines q driver_major (line ∷ lines) = do
  here ← scan_line q driver_major line
  rest ← scan_lines q driver_major lines
  ok (here ++ rest)

-- `GetMounts`.
unfoldable pub get_mounts :
    (device_info mount_info : Result Text) → GetMountsRequest → Result (List MountInfo)
get_mounts device_info mount_info q = elim (validate_request q) [
  | some e ↦ err (combine (mount_scan ∷ []) e)
  | none ↦ (do
    major ← wrap mount_scan (get_driver_major_id device_info q)
    content ← wrap mount_scan mount_info
    scan_lines q major (split 0x0a content))
]
