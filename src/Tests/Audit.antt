-- ===== src/Tests/Audit.antt =====
-- The theorems on `opkssh audit`, for a system policy that names Alice.
use opkssh.Base.{
  true, false, List, [], ◌∷◌, ◌≡◌, refl, arith, none, Str, str, str_eq, str_beq, Result, ok,
}
use opkssh.Text.{trim_space, split, join, has_prefix, has_suffix}
use opkssh.Table.{new_table, read_rows_with_details}
use opkssh.Policy.{from_table}
use opkssh.Files.{FsError, LoadError}
use opkssh.Validator.{
  success, ProvidersRow, validate_entry, lookup_issuer, new_policy_validator, issuer_matches,
}
use opkssh.Audit.{
  PermResult, TotalResults, audit_policy_file, evaluate_ok, audit, get_home_dirs_from_etc_passwd,
}
use opkssh.Audit.Passwd.{Account, lines_of, homes_of, IsWritten, get_home_dirs-join}
use opkssh.Tests.Setup.{spaces, google, alice_email, system_file}

abbrev check : Str → PermResult
check path = record { exists = true; perms_err = false }

abbrev read : Str → Result FsError Str
read path = ok (str "root alice@example.com https://accounts.google.com")

abbrev providers : Result LoadError (List ProvidersRow)
providers =
    ok (record { issuer = google; client_id = str "client"; expiration_policy = str "oidc" } ∷ [])

abbrev results : TotalResults
results = record {
  all_ok = true;
  provider_error = false;
  system_policy = record {
    file_path = system_file;
    rows =
        record {
          status = success;
          hints = [];
          principal = str "root";
          identity_attr = alice_email;
          issuer = google;
          reason = issuer_matches;
          line_number = 1;
        }
        ∷ [];
    error = none;
    perms_error = false;
  };
  home_policies = [];
}

audited : audit spaces check read providers system_file [] [] ≡ ok results
unfolding audit audit_policy_file evaluate_ok read_rows_with_details from_table new_table
    validate_entry lookup_issuer new_policy_validator trim_space split has_prefix has_suffix str_beq
audited = refl

abbrev alice : Account
alice = record {
  name = str "alice";
  passwd = str "x";
  uid = str "1000";
  gid = str "1000";
  gecos = [];
  dir = str "/home/alice";
  shell = str "/bin/sh";
}

alice-IsWritten : IsWritten alice
unfolding join has_prefix
alice-IsWritten = record {
  fields = omega arith;
  one_line = omega arith;
  line_ne_nil = λ e. cc;
  no_comment = refl;
  dir_ne_nil = λ e. cc;
}

get_home_dirs-join_example :
    get_home_dirs_from_etc_passwd (join (lines_of (alice ∷ [])) (str "\n")) ≡ homes_of (alice ∷ [])
get_home_dirs-join_example = get_home_dirs-join alice [] (alice-IsWritten, tt)
