-- ===== src/MountScan/Fields.antt =====
-- The fields of a line of the mount table.
use volplugin.Base.{
  ℕ, ◌≡◌, [], ◌∷◌, ◌++◌, Text, All, Lacks, join, split-join, split-append, split-Lacks, arith, ap,
  ◌∙◌,
}
use volplugin.Errors.{ok}
use volplugin.MountScan.Defs.{convert_to_uint, info_of_parts, convert_to_mount_info}

-- A line of ten fields without spaces, the first two of which are numbers and the third of which is two
-- numbers around a colon, is read as those fields.
convert_to_mount_info-join :
    (id parent major minor root point options fields separator type source : Text) (i p x y : ℕ)
    → convert_to_uint id ≡ ok i
    → convert_to_uint parent ≡ ok p
    → convert_to_uint major ≡ ok x
    → convert_to_uint minor ≡ ok y
    → Lacks 0x3a major
    → Lacks 0x3a minor
    → All (Lacks 0x20) (
        id
        ∷ parent
        ∷ (major ++ 0x3a ∷ minor)
        ∷ root
        ∷ point
        ∷ options
        ∷ fields
        ∷ separator
        ∷ type
        ∷ source
        ∷ [])
    → convert_to_mount_info (
        join 0x20 (
          id
          ∷ parent
          ∷ (major ++ 0x3a ∷ minor)
          ∷ root
          ∷ point
          ∷ options
          ∷ fields
          ∷ separator
          ∷ type
          ∷ source
          ∷ []))
      ≡ ok (record {
        mount_id = i;
        parent_id = p;
        device_number = record { major = x; minor = y };
        root = root;
        mount_point = point;
        mount_options = options;
        optional_fields = fields;
        separator = separator;
        filesystem_type = type;
        mount_source = source;
      })
unfolding convert_to_mount_info
convert_to_mount_info-join id parent major minor root point options fields separator type source i p
      x y ei ep ex ey lx ly lacks =
    ap info_of_parts (
      split-join 0x20
        (id
          ∷ parent
          ∷ (major ++ 0x3a ∷ minor)
          ∷ root
          ∷ point
          ∷ options
          ∷ fields
          ∷ separator
          ∷ type
          ∷ source
          ∷ [])
        (ground arith) lacks)
    ∙ simp (ei, ep, split-append 0x3a major minor lx, split-Lacks 0x3a minor ly, ex, ey)
