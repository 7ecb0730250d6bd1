-- ===== src/Tests/Add.antt =====
-- The theorems on `opkssh add`, for one more principal of Alice's.
use opkssh.Base.{true, [], ◌≡◌, refl, arith, ok, Str, str, str_eq, str_beq, All}
use opkssh.Text.{trim_space, split, join}
use opkssh.Table.{new_table, strip_bom}
use opkssh.Table.RoundTrip.{Storable}
use opkssh.Policy.{Policy, from_table, to_table, policy_rows, add_allowed_principal}
use opkssh.Files.{load_file_at_path, create_if_does_not_exist}
use opkssh.Files.Memory.{Files, lookup, write, stat_memory, read_memory, memory, memory-IsLawful}
use opkssh.Loader.{load_system_policy, dump_policy}
use opkssh.Add.{get_policy_path, load_policy, run}
use opkssh.Add.Run.{Holds, grants-run}
use opkssh.Tests.Setup.{spaces, env, files, google, alice_email, alice_policy, system_file}

abbrev admin : Str
admin = str "admin"

abbrev changed : Policy
changed = add_allowed_principal admin alice_email google alice_policy

abbrev files_after : Files
files_after = write system_file (to_table spaces changed) 0o640 files

chosen : get_policy_path env (str "alice") files [] ≡ (ok (system_file, true), [])
unfolding get_policy_path load_system_policy load_file_at_path from_table new_table lookup
    stat_memory read_memory split trim_space str_beq
chosen = refl

prepared : create_if_does_not_exist memory env.dir_of 0o640 system_file files ≡ (ok tt, files)
unfolding create_if_does_not_exist lookup stat_memory str_beq
prepared = refl

loaded : load_policy env (str "alice") files [] ≡ (ok (alice_policy, system_file), [])
unfolding load_policy load_system_policy load_file_at_path from_table new_table lookup stat_memory
    read_memory split trim_space str_beq
loaded = refl

added : run env (str "alice") admin alice_email google files [] ≡ (ok system_file, files_after, [])
unfolding run get_policy_path load_policy load_system_policy load_file_at_path
    create_if_does_not_exist dump_policy from_table new_table lookup stat_memory read_memory split
    trim_space str_beq
added = refl

changed-Storable : All (Storable spaces) (policy_rows changed).rows
unfolding policy_rows add_allowed_principal trim_space strip_bom join split str_beq
changed-Storable = (
  record {
    one_line = omega arith;
    no_comment = omega arith;
    trimmed = refl;
    no_bom = λ s. refl;
    ne_nil = λ e. cc;
    reads_back = refl;
  },
  (
    record {
      one_line = omega arith;
      no_comment = omega arith;
      trimmed = refl;
      no_bom = λ s. refl;
      ne_nil = λ e. cc;
      reads_back = refl;
    },
    tt,
  ),
)

grants-run_example :
    Holds env
      (str "alice")
      admin
      alice_email
      google
      files
      []
      system_file
      files_after
      []
      admin
      alice_email
      google
      []
      alice_policy
grants-run_example =
    grants-run env (str "alice") admin alice_email google files [] system_file files_after [] admin
      alice_email google [] system_file system_file true [] [] files alice_policy memory-IsLawful
      (λ e. cc) chosen prepared loaded changed-Storable added
