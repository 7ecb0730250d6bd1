-- ===== src/Providers/Rows.antt =====
-- The providers that are written to a table and read from one.
use opkssh.Base.{List, [], ◌∷◌, ◌++◌, ◌≡◌, ◌∙◌, sym, Str, append-nil, append_assoc, All}
use opkssh.Table.{Shell, Row, Table, to_string, add_row}
use opkssh.Table.RoundTrip.{Storable, new_table-to_string}
use opkssh.ConfigLog.{ConfigLog}
use opkssh.Validator.{ProvidersRow}
use opkssh.Providers.{provider_table, provider_row, provider_rows, providers_from_table}

abbrev columns_of : ProvidersRow → Row
columns_of row = row.issuer ∷ row.client_id ∷ row.expiration_policy ∷ []

abbrev lines_of : List ProvidersRow → List Row
lines_of [] = []
lines_of (row ∷ rows) = columns_of row ∷ lines_of rows

provider_table_lem :
    (rows : List ProvidersRow) (t : Table) → (provider_table t rows).rows ≡ t.rows ++ lines_of rows
unfolding provider_table
provider_table_lem [] t = sym (append-nil t.rows)
provider_table_lem (row ∷ rows) t =
    provider_table_lem rows (add_row t (columns_of row))
    ∙ append_assoc t.rows (columns_of row ∷ []) (lines_of rows)

provider_rows-lines_of :
    (path : Str) (rows out : List ProvidersRow) (log : ConfigLog)
    → provider_rows path (out, log) (lines_of rows) ≡ (out ++ rows, log)
unfolding provider_rows provider_row
provider_rows-lines_of path [] out log = rw append-nil
provider_rows-lines_of path (row ∷ rows) out log =
    provider_rows-lines_of path rows (out ++ row ∷ []) log ∙ rw append_assoc

module _ (sh : Shell) (path : Str) (rows : List ProvidersRow) (log : ConfigLog) where
  -- Providers that are written to a table are read back as they were, with nothing reported, if
  -- their lines can be stored.
  pub providers_from_table-provider_table :
      All (Storable sh) (provider_table (record { rows = [] }) rows).rows
      → providers_from_table sh (to_string sh (provider_table (record { rows = [] }) rows)) path log
        ≡ (rows, log)
  unfolding providers_from_table
  providers_from_table-provider_table s =
      rw (new_table-to_string sh (provider_table (record { rows = [] }) rows) s) (
        rw (provider_table_lem rows (record { rows = [] }))
          (provider_rows-lines_of path rows [] log))
