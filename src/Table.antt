-- ===== src/Table.antt =====
-- `Table` of policy/files/table.go, the text format of `/etc/opk/auth_id`, `~/.opk/auth_id` and
-- `/etc/opk/providers`: one row to a line, its columns quoted as for a shell.
pub mod RoundTrip
use opkssh.Base.{
  ℕ, Bool, true, false, ◌&&◌, List, [], ◌∷◌, ◌++◌, Option, none, some, Str, str, ◌==◌, nat_eq,
  if◌then◌else◌, head_or,
}
use opkssh.Text.{split, trim_space}

-- github.com/kballard/go-shellquote; `none` is the error of an unfinished quote or escape.
pub record Shell : Type 0 where
  pub split : Str → Option (List Str)
  pub join : List Str → Str

abbrev pub Row : Type 0
Row = List Str

pub record Table : Type 0 where
  pub rows : List Row

-- `CleanRow`
unfoldable pub clean_row : Str → Str
unfolding split trim_space
clean_row row = trim_space (head_or [] (split row b'#'))

-- A byte order mark in front of the content is dropped.
unfoldable pub strip_bom : Str → Str
strip_bom (a ∷ b ∷ c ∷ content) =
    if a == 0xEF && (b == 0xBB && c == 0xBF) then content else a ∷ b ∷ c ∷ content
strip_bom content = content

-- `Table.AddRow`
abbrev pub add_row : Table → Row → Table
add_row t row = record t { rows = t.rows ++ row ∷ [] }

module _ (sh : Shell) where
  -- One round of the loop of `NewTable`: what is appended to the table for a line.
  abbrev columns : Str → List Row
  columns [] = []
  columns (c ∷ row) = elim (sh.split (c ∷ row)) [ none ↦ [] | some cols ↦ cols ∷ [] ]

  read_rows : List Row → List Str → List Row
  read_rows table [] = table
  read_rows table (row ∷ rows) = read_rows (table ++ columns (clean_row row)) rows

  -- `NewTable`
  unfoldable pub new_table : Str → Table
  unfolding read_rows clean_row strip_bom split
  new_table content = record { rows = read_rows [] (split (strip_bom content) b'\n') }

  write_rows : Str → List Row → Str
  write_rows sb [] = sb
  write_rows sb (row ∷ rows) = write_rows (sb ++ (sh.join row ++ b'\n' ∷ [])) rows

  -- `Table.ToString`, and `ToBytes`, which is the same list of bytes.
  unfoldable pub to_string : Table → Str
  unfolding write_rows
  to_string t = write_rows [] t.rows

-- `RowDetails`; its three forms are told apart by `Empty` and `Error`.
pub data RowDetails : Type 0 where
  blank : Str → RowDetails
  unreadable : Str → RowDetails
  parsed : List Str → Str → RowDetails

module _ (sh : Shell) where
  abbrev row_details_of : Str → Str → RowDetails
  row_details_of content [] = blank content
  row_details_of content (c ∷ row) = elim (sh.split (c ∷ row)) [
    | none ↦ unreadable content
    | some cols ↦ parsed cols content
  ]

  abbrev row_details : Str → RowDetails
  row_details content = row_details_of content (clean_row content)

  details_rows : List RowDetails → List Str → List RowDetails
  details_rows out [] = out
  details_rows out (row ∷ rows) = details_rows (out ++ row_details row ∷ []) rows

  -- `ReadRowsWithDetails`
  unfoldable pub read_rows_with_details : Str → List RowDetails
  unfolding details_rows clean_row split
  read_rows_with_details content = details_rows [] (split content b'\n')
