-- ===== src/Storage/Ceph/Table.antt =====
-- The names of snapshots in the table that `rbd snap ls` prints.
use volplugin.Base.{
  ◌≡◌, ◌≢◌, refl, ap, ◌∙◌, true, false, List, [], ◌∷◌, ◌++◌, Text, All, Lacks, join, map,
  cons_first, split-join, if_true, if_false,
}
use volplugin.Storage.Ceph.Snapshots.{
  snapshot_names, names_of_lines, third, split_blanks, is_blank_byte,
}

-- A row of the table: blanks before the number of a snapshot, its name, and what follows.
pub record Row : Type 0 where
  pub indent : Text
  pub id : Text
  pub name : Text
  pub size : Text

abbrev pub row_text : Row → Text
row_text r = r.indent ++ (r.id ++ 0x20 ∷ (r.name ++ 0x20 ∷ r.size))

abbrev pub NoBlank : Text → Type 0
NoBlank = All (λ c. is_blank_byte c ≡ false)

abbrev pub AllBlank : Text → Type 0
AllBlank = All (λ c. is_blank_byte c ≡ true)

-- The number, which is not empty, and the name hold no blank, and no part holds the end of a line.
pub record IsRow (r : Row) : Type 0 where
  pub blank : AllBlank r.indent
  pub indented : r.indent ≢ []
  pub numbered : r.id ≢ []
  pub whole_id : NoBlank r.id
  pub called : r.name ≢ []
  pub whole_name : NoBlank r.name
  pub one_line : Lacks 0x0a (row_text r)

split_blanks-rest :
    (w s : Text) → NoBlank w → split_blanks false (w ++ 0x20 ∷ s) ≡ w ∷ split_blanks true s
split_blanks-rest [] s _ = refl
split_blanks-rest (c ∷ w) s (n, ns) = if_false _ _ n ∙ ap (cons_first c) (split_blanks-rest w s ns)

split_blanks-word :
    (w s : Text) → NoBlank w → w ≢ [] → split_blanks true (w ++ 0x20 ∷ s) ≡ w ∷ split_blanks true s
split_blanks-word [] s _ h = absurd (h refl)
split_blanks-word (c ∷ w) s (n, ns) h =
    if_false _ _ n ∙ ap (cons_first c) (split_blanks-rest w s ns)

split_blanks-indent : (w s : Text) → AllBlank w → split_blanks true (w ++ s) ≡ split_blanks true s
split_blanks-indent [] s _ = refl
split_blanks-indent (c ∷ w) s (b, bs) = if_true _ _ b ∙ split_blanks-indent w s bs

third-row :
    (r : Row) (rest : List Text)
    → IsRow r
    → third (split_blanks false (row_text r)) rest ≡ r.name ∷ rest
third-row r rest i = go r.indent i.blank i.indented
  where
    tail : Text
    tail = r.id ++ 0x20 ∷ (r.name ++ 0x20 ∷ r.size)

    parts : split_blanks true tail ≡ r.id ∷ r.name ∷ split_blanks true r.size
    parts =
        split_blanks-word r.id _ i.whole_id i.numbered
        ∙ ap (λ ps. r.id ∷ ps) (split_blanks-word r.name r.size i.whole_name i.called)

    go :
        (w : Text)
        → AllBlank w
        → w ≢ []
        → third (split_blanks false (w ++ tail)) rest ≡ r.name ∷ rest
    go [] _ h = absurd (h refl)
    go (c ∷ w) (b, bs) h =
        ap (λ ps. third ps rest)
          (if_true _ _ b ∙ ap (λ ps. [] ∷ ps) (split_blanks-indent w tail bs ∙ parts))

names_of_rows :
    (rows : List Row)
    → All IsRow rows
    → names_of_lines (map row_text rows ++ [] ∷ []) ≡ map (λ r. r.name) rows
names_of_rows [] _ = refl
names_of_rows (r ∷ rows) (i, is) =
    third-row r (names_of_lines (map row_text rows ++ [] ∷ [])) i
    ∙ ap (λ ns. r.name ∷ ns) (names_of_rows rows is)

lines_of_rows : (rows : List Row) → All IsRow rows → All (Lacks 0x0a) (map row_text rows ++ [] ∷ [])
lines_of_rows [] _ = (tt, tt)
lines_of_rows (r ∷ rows) (i, is) = (i.one_line, lines_of_rows rows is)

abbrev pub table : Text → List Row → Text
table title rows = join 0x0a (title ∷ map row_text rows ++ [] ∷ [])

-- The names are read back from a table of a title and a line for each snapshot, where every line begins with a
-- blank.
pub snapshot_names-table :
    (title : Text) (rows : List Row)
    → Lacks 0x0a title
    → All IsRow rows
    → snapshot_names (table title rows) ≡ map (λ r. r.name) rows
unfolding snapshot_names
snapshot_names-table title rows l is =
    rw (split-join 0x0a (title ∷ map row_text rows ++ [] ∷ []) (λ e. cc) (l, lines_of_rows rows is))
      (names_of_rows rows is)

-- A line that begins with the number of its snapshot, as the widest numbers do, gives the word after the
-- name instead of the name.
names_of_lines-flush :
    (id name word more : Text)
    → id ≢ []
    → NoBlank id
    → name ≢ []
    → NoBlank name
    → word ≢ []
    → NoBlank word
    → names_of_lines ((id ++ 0x20 ∷ (name ++ 0x20 ∷ (word ++ 0x20 ∷ more))) ∷ []) ≡ word ∷ []
names_of_lines-flush id name word more i ni n nn w nw =
    ap (λ ps. third ps [])
      (split_blanks-rest id _ ni
        ∙ ap (λ ps. id ∷ ps)
            (split_blanks-word name _ nn n
              ∙ ap (λ ps. name ∷ ps) (split_blanks-word word more nw w)))
