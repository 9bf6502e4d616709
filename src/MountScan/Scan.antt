-- ===== src/MountScan/Scan.antt =====
-- Which mounts a scan returns.
use mathlib.Core.Path.{subst}
use volplugin.Base.{
  ℕ, ◌≡◌, refl, Bool, true, false, Option, none, some, List, [], ◌∷◌, ◌++◌, Text, All, All-append,
  split, length, ltb, ap, if◌then◌else◌,
}
use volplugin.Errors.{Result, ok, err, panic, Error, ◌>>=◌, wrap, combine, mount_scan}
use volplugin.Config.Volume.{is_blank}
use volplugin.MountScan.Defs.{
  MountInfo, GetMountsRequest, is_wanted, keep, convert_to_mount_info, scan_line, scan_lines,
  get_mounts, get_driver_major_id, validate_request,
}

module _ (q : GetMountsRequest) (major : ℕ) where
  abbrev pub Wanted : MountInfo → Type 0
  Wanted m = is_wanted q major m ≡ true

  -- Every mount of a result, if it is one.
  abbrev AllWanted : Result (List MountInfo) → Type 0
  AllWanted (ok ms) = All Wanted ms
  AllWanted (err e) = Unit
  AllWanted panic = Unit

  kept :
      (m : MountInfo) (b : Bool) → is_wanted q major m ≡ b → All Wanted (if b then m ∷ [] else [])
  kept m true h = (h, tt)
  kept m false h = tt

  keep-AllWanted : (r : Result MountInfo) → AllWanted (keep q major r)
  keep-AllWanted (ok m) = kept m (is_wanted q major m) refl
  keep-AllWanted (err e) = tt
  keep-AllWanted panic = tt

  skipped :
      (b : Bool) (r : Result (List MountInfo)) → AllWanted r → AllWanted (if b then ok [] else r)
  skipped true r h = tt
  skipped false r h = h

  scan_line-AllWanted : (line : Text) → AllWanted (scan_line q major line)
  unfolding scan_line
  scan_line-AllWanted line =
      skipped (is_blank line) _ (
        skipped (ltb (length (split 0x20 line)) 10) _ (keep-AllWanted (convert_to_mount_info line)))

  both-AllWanted :
      (here rest : Result (List MountInfo))
      → AllWanted here
      → AllWanted rest
      → AllWanted (here >>= λ hs. rest >>= λ rs. ok (hs ++ rs))
  both-AllWanted (ok hs) (ok rs) f g = All-append Wanted hs rs f g
  both-AllWanted (ok hs) (err e) f g = tt
  both-AllWanted (ok hs) panic f g = tt
  both-AllWanted (err e) rest f g = tt
  both-AllWanted panic rest f g = tt

  scan_lines-AllWanted : (lines : List Text) → AllWanted (scan_lines q major lines)
  unfolding scan_lines
  scan_lines-AllWanted [] = tt
  scan_lines-AllWanted (line ∷ lines) =
      both-AllWanted (scan_line q major line) (scan_lines q major lines) (scan_line-AllWanted line)
        (scan_lines-AllWanted lines)

  alone : (r : Result (List MountInfo)) → (r >>= λ rs. ok ([] ++ rs)) ≡ r
  alone (ok rs) = refl
  alone (err e) = refl
  alone panic = refl

  -- A line that cannot be read is left out: the scan of the other lines is not affected by it.
  scan_lines_skip :
      (before after : List Text) (line : Text)
      → scan_line q major line ≡ ok []
      → scan_lines q major (before ++ line ∷ after) ≡ scan_lines q major (before ++ after)
  unfolding scan_lines
  scan_lines_skip [] after line skipped = rw skipped (alone (scan_lines q major after))
  scan_lines_skip (b ∷ before) after line skipped =
      ap (λ r. scan_line q major b >>= λ hs. r >>= λ rs. ok (hs ++ rs))
        (scan_lines_skip before after line skipped)

found :
    (q : GetMountsRequest) (ms : List MountInfo) (v : Option Error) (r : Result ℕ) (m : Result Text)
    → (elim v [
      | some e ↦ err (combine (mount_scan ∷ []) e)
      | none ↦ wrap mount_scan r >>= λ major.
          wrap mount_scan m >>= λ content. scan_lines q major (split 0x0a content)
    ])
      ≡ ok ms
    → (major : ℕ) × (r ≡ ok major) × All (Wanted q major) ms
found q ms (some e) r m h = cc
found q ms none (ok major) (ok content) h =
    (major, refl, subst (AllWanted q major) h (scan_lines-AllWanted q major (split 0x0a content)))
found q ms none (ok major) (err e) h = cc
found q ms none (ok major) panic h = cc
found q ms none (err e) m h = cc
found q ms none panic m h = cc

-- A scan that succeeds has found the major number of the driver, and returns only mounts of that device
-- and, where a filesystem was asked for, of that filesystem.
get_mounts-Wanted :
    (device_info mount_info : Result Text) (q : GetMountsRequest) (ms : List MountInfo)
    → get_mounts device_info mount_info q ≡ ok ms
    → (major : ℕ) × (get_driver_major_id device_info q ≡ ok major) × All (Wanted q major) ms
unfolding get_mounts
get_mounts-Wanted device_info mount_info q ms h =
    found q ms (validate_request q) (get_driver_major_id device_info q) mount_info h
