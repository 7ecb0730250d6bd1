-- ===== src/Audit.antt =====
-- `opkssh audit`: commands/audit.go and commands/auditresults.go.
pub mod Clean
pub mod Outcome
pub mod Passwd
use opkssh.Base.{
  ℕ, suc, ◌+◌, Bool, true, false, not, ◌&&◌, ◌||◌, List, [], ◌∷◌, ◌++◌, Option, none, some, Str,
  str, ◌==◌, str_eq, if◌then◌else◌, Result, ok, err,
}
use opkssh.Text.{has_prefix, split}
use opkssh.Table.{Shell, RowDetails, blank, unreadable, parsed, read_rows_with_details}
use opkssh.ConfigLog.{ConfigLog, ConfigProblem, Message}
use opkssh.Policy.{User, Parsed, from_table}
use opkssh.Files.{FsError, LoadError, PermError}
use opkssh.Validator.{
  ValidationStatus, success, warning, error, Reason, unreadable_row, bad_row, ValidationRowResult,
  ProvidersRow, IssuerMap, new_policy_validator, validate_entry, calculate_summary, has_errors,
}

-- `PolicyFileResult`. `error` is the error of the read, and `perms_error` says whether the
-- permissions are wrong.
pub record PolicyFileResult : Type 0 where
  pub file_path : Str
  pub rows : List ValidationRowResult
  pub error : Option FsError
  pub perms_error : Bool

-- What is used of the result of `CheckFilePermissions`.
pub record PermResult : Type 0 where
  pub exists : Bool
  pub perms_err : Bool

-- `TotalResults`, without the descriptions of the system. `provider_error` stands for the error of
-- the providers file.
pub record TotalResults : Type 0 where
  pub all_ok : Bool
  pub provider_error : Bool
  pub system_policy : PolicyFileResult
  pub home_policies : List PolicyFileResult

-- `CheckFilePermissions` of commands/permcheck.go, on what `Exists` and `CheckPerm` return. The
-- access control lists are left out.
unfoldable pub check_file_permissions : Result FsError Bool → Option PermError → PermResult
check_file_permissions (err e) problem = record { exists = false; perms_err = true }
check_file_permissions (ok false) problem = record { exists = false; perms_err = false }
check_file_permissions (ok true) none = record { exists = true; perms_err = false }
check_file_permissions (ok true) (some e) = record { exists = true; perms_err = true }

abbrev pub bad_result : Reason → ℕ → ValidationRowResult
bad_result reason line = record {
  status = error;
  hints = [];
  principal = [];
  identity_attr = [];
  issuer = [];
  reason = reason;
  line_number = line;
}

-- The two inner loops of `auditPolicyFileWithStatus`.
pub principal_results : IssuerMap → User → ℕ → List Str → List ValidationRowResult
principal_results m u line [] = []
principal_results m u line (p ∷ ps) =
    validate_entry m p u.identity_attribute u.issuer line ∷ principal_results m u line ps

pub user_results : IssuerMap → ℕ → List User → List ValidationRowResult
user_results m line [] = []
user_results m line (u ∷ us) = principal_results m u line u.principals ++ user_results m line us

abbrev pub table_results : IssuerMap → ℕ → Parsed → List ValidationRowResult
table_results m line p = elim p.problems [
  | [] ↦ user_results m line p.policy.users
  | problem ∷ more ↦ bad_result (bad_row problem.error_message) line ∷ []
]

module _ (sh : Shell) (m : IssuerMap) (path : Str) where
  -- What one line adds to the results.
  pub line_results : ℕ → RowDetails → ConfigLog → List ValidationRowResult × ConfigLog
  line_results line (blank content) log = ([], log)
  line_results line (unreadable content) log = (bad_result unreadable_row line ∷ [], log)
  line_results line (parsed cols content) log =
      let p = from_table sh content path log in (table_results m line p, p.log)

  -- The loop over the lines; `line` is the number of the next one.
  pub audit_lines :
      ℕ
      → List ValidationRowResult
      → ConfigLog
      → List RowDetails
      → List ValidationRowResult × ConfigLog
  audit_lines line out log [] = (out, log)
  audit_lines line out log (d ∷ ds) =
      let (new, log1) = line_results line d log in audit_lines (suc line) (out ++ new) log1 ds

  abbrev pub read_results :
      Bool → Result FsError Str → ConfigLog → Result FsError (PolicyFileResult × Bool) × ConfigLog
  read_results perms_error (err e) log = (err e, log)
  read_results perms_error (ok content) log =
      let (rows, log1) = audit_lines 1 [] log (read_rows_with_details sh content) in
      (
        ok (
          record { file_path = path; rows = rows; error = none; perms_error = perms_error },
          true,
        ),
        log1,
      )

  -- `auditPolicyFileWithStatus(policyPath, permInfo, validator)`, on what the check of the
  -- permissions and the read of the file give. The flag says whether the file exists.
  unfoldable pub audit_policy_file :
      PermResult
      → Result FsError Str
      → ConfigLog
      → Result FsError (PolicyFileResult × Bool) × ConfigLog
  unfolding audit_lines line_results user_results principal_results
  audit_policy_file perm content log =
      if not perm.exists
      then (
        ok (record { file_path = path; rows = []; error = none; perms_error = false }, false),
        log,
      )
      else read_results perm.perms_err content log

abbrev pub rows_ok : List ValidationRowResult → Bool
rows_ok [] = true
rows_ok (r ∷ rs) = elim r.status [ success ↦ rows_ok rs | _ ↦ false ]

abbrev no_error : Option FsError → Bool
no_error none = true
no_error (some e) = false

abbrev file_clean : PolicyFileResult → Bool
file_clean f = no_error f.error && not f.perms_error

abbrev file_ok : PolicyFileResult → Bool
file_ok f = file_clean f && rows_ok f.rows

abbrev files_ok : List PolicyFileResult → Bool
files_ok [] = true
files_ok (f ∷ fs) = file_ok f && files_ok fs

-- `TotalResults.EvaluateOk()`
unfoldable pub evaluate_ok : TotalResults → Bool
evaluate_ok t = file_ok t.system_policy && (files_ok t.home_policies && not t.provider_error)

abbrev pub home_rows : List PolicyFileResult → List ValidationRowResult
home_rows [] = []
home_rows (f ∷ fs) = f.rows ++ home_rows fs

-- The rows of all files, as `Run` collects them.
abbrev pub all_rows : TotalResults → List ValidationRowResult
all_rows t = ([] ++ t.system_policy.rows) ++ home_rows t.home_policies

pub data AuditError : Type 0 where
  no_providers : LoadError → AuditError
  no_policy : FsError → AuditError
  found_errors : AuditError

module _ (sh : Shell) (check : Str → PermResult) (read : Str → Result FsError Str)
    (m : IssuerMap) where
  abbrev pub add_home :
      Str → List PolicyFileResult → Result FsError (PolicyFileResult × Bool) → List PolicyFileResult
  add_home path out (err e) =
      out ++ record { file_path = path; rows = []; error = some e; perms_error = false } ∷ []
  add_home path out (ok (f, false)) = out
  add_home path out (ok (f, true)) = out ++ f ∷ []

  -- The loop over the home directories.
  pub audit_homes : List PolicyFileResult → ConfigLog → List Str → List PolicyFileResult × ConfigLog
  audit_homes out log [] = (out, log)
  audit_homes out log (path ∷ paths) =
      let (r, log1) = audit_policy_file sh m path (check path) (read path) log in
      audit_homes (add_home path out r) log1 paths

  abbrev pub finished : PolicyFileResult → List PolicyFileResult → TotalResults
  finished system homes =
      let t : TotalResults = record {
        all_ok = false;
        provider_error = false;
        system_policy = system;
        home_policies = homes;
      } in
      record t { all_ok = evaluate_ok t }

  abbrev pub audit_rest :
      List Str
      → Result FsError (PolicyFileResult × Bool) × ConfigLog
      → Result AuditError TotalResults
  audit_rest paths (err e, log) = err (no_policy e)
  audit_rest paths (ok (system, exists), log) = ok (finished system (audit_homes [] log paths).0)

  -- `Audit(opksshVersion)` behind the load of the providers; `paths` are the policy files of the
  -- users, none where they are skipped or cannot be listed.
  abbrev pub audit_with : Str → List Str → ConfigLog → Result AuditError TotalResults
  audit_with path paths log =
      audit_rest paths (audit_policy_file sh m path (check path) (read path) log)

module _ (sh : Shell) (check : Str → PermResult) (read : Str → Result FsError Str) where
  -- `Audit(opksshVersion)`, on what the load of the providers gives.
  unfoldable pub audit :
      Result LoadError (List ProvidersRow)
      → Str
      → List Str
      → ConfigLog
      → Result AuditError TotalResults
  unfolding audit_homes
  audit (err e) path paths log = err (no_providers e)
  audit (ok rows) path paths log =
      audit_with sh check read (new_policy_validator rows) path paths log

  abbrev pub judged : Result AuditError TotalResults → Result AuditError (Unit {0})
  judged (err e) = err e
  judged (ok t) = if has_errors (calculate_summary (all_rows t)) then err found_errors else ok tt

  -- `Run(opksshVersion)`
  unfoldable pub run :
      Result LoadError (List ProvidersRow)
      → Str
      → List Str
      → ConfigLog
      → Result AuditError (Unit {0})
  run providers path paths log = judged (audit providers path paths log)

-- `getHomeDirsFromEtcPasswd(etcPasswd)`: names with their home directories.
abbrev passwd_fields : List Str → List (Str × Str)
passwd_fields (name ∷ passwd ∷ uid ∷ gid ∷ gecos ∷ dir ∷ shell ∷ more) =
    if dir == [] then [] else (name, dir) ∷ []
passwd_fields _ = []

pub passwd_entry : Str → List (Str × Str)
passwd_entry line =
    if line == [] || has_prefix line (str "#") then [] else passwd_fields (split line b':')

pub passwd_entries : List (Str × Str) → List Str → List (Str × Str)
passwd_entries out [] = out
passwd_entries out (line ∷ lines) = passwd_entries (out ++ passwd_entry line) lines

unfoldable pub get_home_dirs_from_etc_passwd : Str → List (Str × Str)
unfolding passwd_entries passwd_entry
get_home_dirs_from_etc_passwd text = passwd_entries [] (split text b'\n')
