-- ===== src/Tests/Policy.antt =====
-- The theorems on policies, on the policy of Alice and in the small installation.
use opkssh.Base.{
  ◌&&◌, ◌||◌, [], ◌∷◌, ◌++◌, ◌≡◌, ◌↔◌, refl, arith, Str, str, ◌==◌, str_eq, str_beq, All,
  if◌then◌else◌, ok, err,
}
use opkssh.Text.{trim_space, split, join}
use opkssh.Table.{new_table, strip_bom}
use opkssh.Table.RoundTrip.{Storable}
use opkssh.Policy.{Policy, add_allowed_principal, grants, from_table, to_table, policy_rows}
use opkssh.Policy.Add.{has, insert_first, add_allowed_principal_lem}
use opkssh.Policy.Grants.{is_added, grants-add_allowed_principal}
use opkssh.Policy.Parse.{all_users, all_problems, from_table_lem}
use opkssh.Policy.Encode.{grants-from_table-to_table}
use opkssh.Files.{not_described, not_exist}
use opkssh.Loader.{unknown_user, valid_policy, load_multi, load_system_policy, load_home_policy}
use opkssh.Files.{load_file_at_path}
use opkssh.Files.Memory.{lookup, stat_memory, read_memory}
use opkssh.Loader.Home.{grants-valid_policy}
use opkssh.Loader.Multi.{
  granted, policy_of, root_result, home_result, grants-load_multi, load_multi_failed_iff,
}
use opkssh.Tests.Setup.{
  spaces, env, files, no_script, google, alice_email, alice_row, alice_policy, system_file,
  home_file,
}

abbrev bob : Str
bob = str "bob@example.com"

grants-add_allowed_principal_example :
    grants
      (add_allowed_principal (str "admin") alice_email google alice_policy)
      (str "root")
      alice_email
      google
    ≡ (grants alice_policy (str "root") alice_email google
        || is_added (str "admin") alice_email google (str "root") alice_email google)
grants-add_allowed_principal_example =
    grants-add_allowed_principal (str "admin") alice_email google (str "root") alice_email google
      alice_policy

add_allowed_principal_lem_example :
    (add_allowed_principal (str "admin") bob google alice_policy).users ≡ (
      if has (str "admin") bob google alice_policy.users
      then alice_policy.users
      else insert_first (str "admin") bob google alice_policy.users)
add_allowed_principal_lem_example = add_allowed_principal_lem (str "admin") bob google alice_policy

abbrev text : Str
text = str "root alice@example.com https://accounts.google.com" ++ b'\n' ∷ str "root"

from_table_lem_example : from_table spaces text system_file [] ≡ record {
  policy = record { users = all_users (new_table spaces text).rows };
  problems = all_problems system_file (new_table spaces text).rows;
  log = [] ++ all_problems system_file (new_table spaces text).rows;
}
from_table_lem_example = from_table_lem system_file spaces text []

alice_policy-Storable : All (Storable spaces) (policy_rows alice_policy).rows
unfolding policy_rows trim_space strip_bom join split
alice_policy-Storable = (
  record {
    one_line = omega arith;
    no_comment = omega arith;
    trimmed = refl;
    no_bom = λ s. refl;
    ne_nil = λ e. cc;
    reads_back = refl;
  },
  tt,
)

grants-from_table-to_table_example :
    grants
      (from_table spaces (to_table spaces alice_policy) system_file []).policy
      (str "root")
      alice_email
      google
    ≡ grants alice_policy (str "root") alice_email google
grants-from_table-to_table_example =
    grants-from_table-to_table system_file (str "root") alice_email google spaces alice_policy []
      alice_policy-Storable ((λ e. cc), tt)

grants-valid_policy_example :
    grants (valid_policy (str "root") alice_policy) (str "root") alice_email google
    ≡ (str "root" == str "root" && grants alice_policy (str "root") alice_email google)
grants-valid_policy_example =
    grants-valid_policy (str "root") (str "root") alice_email google alice_policy

abbrev both : Policy
both = record {
  users =
      alice_row
      ∷ record { identity_attribute = bob; principals = str "alice" ∷ []; issuer = google }
      ∷ [];
}

load_multi_runs :
    (load_multi env (str "alice") no_script files []).0
    ≡ ok (both, system_file ++ (str ", " ++ home_file))
unfolding load_multi load_system_policy load_home_policy load_file_at_path from_table new_table
    valid_policy lookup stat_memory read_memory join split trim_space str_beq
load_multi_runs = refl

-- Bob's login as root rests on the system policy alone, though Alice's file names him for root.
grants-load_multi_example : grants both (str "root") bob google ≡ (
    granted (root_result env (str "alice") no_script files []) (str "root") bob google
    || (str "alice" == str "root"
        && granted
            (policy_of (home_result env (str "alice") no_script files []))
            (str "alice")
            bob
            google))
grants-load_multi_example =
    grants-load_multi env (str "alice") no_script files [] (str "root") bob google both
      (system_file ++ (str ", " ++ home_file)) load_multi_runs

load_multi_failed_iff_example :
    (((load_multi env (str "alice") no_script files []).0
        ≡ err (not_described not_exist, unknown_user (str "alice")))
      ↔ ((root_result env (str "alice") no_script files [] ≡ err (not_described not_exist))
          × (home_result env (str "alice") no_script files [] ≡ err (unknown_user (str "alice")))))
    × (granted
          (policy_of (load_multi env (str "alice") no_script files []).0)
          (str "root")
          alice_email
          google
        ≡ (granted
              (root_result env (str "alice") no_script files [])
              (str "root")
              alice_email
              google
            || (str "alice" == str "root"
                && granted
                    (policy_of (home_result env (str "alice") no_script files []))
                    (str "alice")
                    alice_email
                    google)))
load_multi_failed_iff_example =
    load_multi_failed_iff env (str "alice") no_script files [] (not_described not_exist)
      (unknown_user (str "alice")) (str "root") alice_email google
