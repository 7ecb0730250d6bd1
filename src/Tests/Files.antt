-- ===== src/Tests/Files.antt =====
-- The theorems on tables and files, on a small table and in the file system in memory.
use opkssh.Base.{[], ◌∷◌, ◌≡◌, ◌↔◌, refl, arith, str, ok}
use opkssh.Text.{trim_space, join, split}
use opkssh.Table.{Row, Table, strip_bom, new_table, to_string}
use opkssh.Table.RoundTrip.{Storable, new_table-to_string}
use opkssh.Files.{passed, check_perm}
use opkssh.Files.Perms.{IsSafe, check_perm_passed_iff}
use opkssh.Tests.Setup.{spaces, env, system_file, plain}

abbrev small_row : Row
small_row = str "root" ∷ str "me" ∷ str "you" ∷ []

abbrev small_table : Table
small_table = record { rows = small_row ∷ [] }

small_row-Storable : Storable spaces small_row
unfolding trim_space strip_bom join split
small_row-Storable = record {
  one_line = omega arith;
  no_comment = omega arith;
  trimmed = refl;
  no_bom = λ s. refl;
  ne_nil = λ e. cc;
  reads_back = refl;
}

new_table-to_string_example : new_table spaces (to_string spaces small_table) ≡ small_table
new_table-to_string_example = new_table-to_string spaces small_table (small_row-Storable, tt)

check_perm_passed_iff_example :
    (check_perm env.run_stat (ok (plain system_file)) system_file (0o640 ∷ []) (str "root") []
      ≡ passed)
    ↔ IsSafe env.run_stat (plain system_file) system_file (0o640 ∷ []) (str "root") []
check_perm_passed_iff_example =
    check_perm_passed_iff env.run_stat (plain system_file) system_file (0o640 ∷ []) (str "root") []
