-- ===== src/Table/RoundTrip.antt =====
-- What `NewTable` reads back from what `ToString` writes, and from a line with a `#`.
use opkssh.Base.{
  List, [], ◌∷◌, ◌++◌, ◌≡◌, ◌≢◌, refl, sym, ◌∙◌, ap, some, Str, nat_eq, append-nil, append_assoc,
  All,
}
use opkssh.Text.{split, trim_space}
use opkssh.Text.Split.{Lacks, split-Lacks, split_at_sep}
use opkssh.Table.{
  Shell, Row, Table, clean_row, strip_bom, columns, read_rows, new_table, write_rows, to_string,
}

-- A comment runs from the first `#` of a line, also from one that stands inside quotes.
pub clean_row_comment :
    (row comment : Str) → Lacks b'#' row → clean_row (row ++ b'#' ∷ comment) ≡ trim_space row
unfolding clean_row
clean_row_comment row comment h = rw (split_at_sep row comment b'#' h)

pub clean_row-Lacks : (row : Str) → Lacks b'#' row → clean_row row ≡ trim_space row
unfolding clean_row
clean_row-Lacks row h = rw (split-Lacks row b'#' h)

-- The line that `Join` writes for a row is one line, holds no `#`, is not blank at an end, does
-- not begin with the first byte of a byte order mark, and is read back by `Split`.
pub record Storable (sh : Shell) (row : Row) : Type 0 where
  pub one_line : Lacks b'\n' (sh.join row)
  pub no_comment : Lacks b'#' (sh.join row)
  pub trimmed : trim_space (sh.join row) ≡ sh.join row
  pub no_bom : (s : Str) → strip_bom (sh.join row ++ s) ≡ sh.join row ++ s
  pub ne_nil : sh.join row ≢ []
  pub reads_back : sh.split (sh.join row) ≡ some row

module _ (sh : Shell) where
  columns-of_ne_nil :
      (line : Str) {row : Row} → line ≢ [] → sh.split line ≡ some row → columns sh line ≡ row ∷ []
  columns-of_ne_nil [] n h = absurd (n refl)
  columns-of_ne_nil (c ∷ line) n h = rw (h, columns)

  columns-join : (row : Row) → Storable sh row → columns sh (clean_row (sh.join row)) ≡ row ∷ []
  columns-join row s =
      rw (clean_row-Lacks (sh.join row) s.no_comment, s.trimmed)
        (columns-of_ne_nil (sh.join row) s.ne_nil s.reads_back)

  -- The text of the rows, each line in front of the next.
  abbrev lines : List Row → Str
  lines [] = []
  lines (row ∷ rows) = sh.join row ++ b'\n' ∷ lines rows

  write_rows-lines : (rows : List Row) (sb : Str) → write_rows sh sb rows ≡ sb ++ lines rows
  unfolding write_rows
  write_rows-lines [] sb = sym (append-nil sb)
  write_rows-lines (row ∷ rows) sb = simp (write_rows-lines rows, append_assoc)

  read_rows_step :
      (table : List Row) (line : Str) (rest : List Str) {row : Row}
      → columns sh (clean_row line) ≡ row ∷ []
      → read_rows sh table (line ∷ rest) ≡ read_rows sh (table ++ row ∷ []) rest
  unfolding read_rows
  read_rows_step table line rest h = ap (λ cols. read_rows sh (table ++ cols) rest) h

  read_rows_nil : (table : List Row) → read_rows sh table (split [] b'\n') ≡ table
  unfolding read_rows split clean_row trim_space
  read_rows_nil table = append-nil table

  read_rows-lines :
      (rows table : List Row)
      → All (Storable sh) rows
      → read_rows sh table (split (lines rows) b'\n') ≡ table ++ rows
  read_rows-lines [] table _ = read_rows_nil table ∙ sym (append-nil table)
  read_rows-lines (row ∷ rows) table (s, h) =
      rw (split_at_sep (sh.join row) (lines rows) b'\n' s.one_line) (
        read_rows_step table (sh.join row) _ (columns-join row s)
        ∙ read_rows-lines rows _ h
        ∙ append_assoc table (row ∷ []) rows)

  strip_bom-lines : (rows : List Row) → All (Storable sh) rows → strip_bom (lines rows) ≡ lines rows
  strip_bom-lines [] _ = unfold strip_bom in refl
  strip_bom-lines (row ∷ rows) (s, h) = s.no_bom _

  -- A table whose rows are storable is read back as it was written.
  pub new_table-to_string :
      (t : Table) → All (Storable sh) t.rows → new_table sh (to_string sh t) ≡ t
  unfolding new_table to_string
  new_table-to_string t h =
      rw (write_rows-lines t.rows [], strip_bom-lines t.rows h)
        (ap (λ rows. record { rows = rows }) (read_rows-lines t.rows [] h))
