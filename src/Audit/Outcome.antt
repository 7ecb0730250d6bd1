-- ===== src/Audit/Outcome.antt =====
-- What `EvaluateOk` and the outcome of `opkssh audit` say.
use opkssh.Base.{
  Bool, true, false, not, ◌&&◌, List, [], ◌∷◌, ◌≡◌, ◌↔◌, refl, subst, arith, Option, none, Str,
  if◌then◌else◌, Result, ok, err, inl, inr, Result-cases,
}
use opkssh.Table.{Shell, read_rows_with_details}
use opkssh.Audit.Clean.{rows_ok-append, text_clean}
use opkssh.ConfigLog.{ConfigLog}
use opkssh.Files.{FsError, LoadError}
use opkssh.Validator.{ProvidersRow, IssuerMap, new_policy_validator}
use opkssh.Audit.{
  PolicyFileResult, PermResult, TotalResults, AuditError, rows_ok, file_clean, files_ok,
  evaluate_ok, home_rows, all_rows, audit_lines, audit_policy_file, audit_rest, audit_homes,
  finished, audit, judged,
}

-- No file has an error of its own.
abbrev pub files_clean : List PolicyFileResult → Bool
files_clean [] = true
files_clean (f ∷ fs) = file_clean f && files_clean fs

abbrev pub all_clean : TotalResults → Bool
all_clean t = file_clean t.system_policy && (files_clean t.home_policies && not t.provider_error)

files_ok_lem :
    (fs : List PolicyFileResult) → files_ok fs ≡ (rows_ok (home_rows fs) && files_clean fs)
files_ok_lem [] = refl
files_ok_lem (f ∷ fs) = ground (arith, files_ok_lem fs, rows_ok-append f.rows (home_rows fs))

evaluate_ok_lem : (t : TotalResults) → evaluate_ok t ≡ (rows_ok (all_rows t) && all_clean t)
unfolding evaluate_ok
evaluate_ok_lem t = ground (
  arith,
  files_ok_lem t.home_policies,
  rows_ok-append t.system_policy.rows (home_rows t.home_policies),
)

module _ (sh : Shell) (check : Str → PermResult) (read : Str → Result FsError Str)
    (providers : Result LoadError (List ProvidersRow)) (path : Str) (paths : List Str)
    (log : ConfigLog) where
  rest-all_ok :
      (m : IssuerMap) (r : Result FsError (PolicyFileResult × Bool) × ConfigLog) (t : TotalResults)
      → audit_rest sh check read m paths r ≡ ok t
      → t.all_ok ≡ (rows_ok (all_rows t) && all_clean t)
  rest-all_ok m (err e, l) t h = cc
  rest-all_ok m (ok (f, exists), l) t h =
      let homes = (audit_homes sh check read m [] l paths).0 in
      let e : finished sh check read m f homes ≡ t = cc in
      subst (λ (x : TotalResults). x.all_ok ≡ (rows_ok (all_rows x) && all_clean x)) e
        (evaluate_ok_lem (record {
          all_ok = false;
          provider_error = false;
          system_policy = f;
          home_policies = homes;
        }))

  -- The results of an audit are marked ok exactly if every row of every file is a success and no
  -- file has wrong permissions or could not be read.
  pub all_ok-audit :
      (t : TotalResults)
      → audit sh check read providers path paths log ≡ ok t
      → t.all_ok ≡ (rows_ok (all_rows t) && all_clean t)
  unfolding audit
  all_ok-audit t h = elim (Result-cases providers) [
    | inl (rows, e) ↦
        rest-all_ok (new_policy_validator rows)
          (audit_policy_file sh (new_policy_validator rows) path (check path) (read path) log) t
          (ground arith)
    | inr (f, e) ↦ absurd (ground arith)
  ]

module _ (sh : Shell) (check : Str → PermResult) (read : Str → Result FsError Str)
    (providers : List ProvidersRow) where
  -- A policy file that is missing is fine, and one that can be read if its text is clean. The flag
  -- says whether one that cannot be read is.
  abbrev pub file_fine : Bool → Str → Bool
  file_fine unreadable path =
      if not (check path).exists
      then true
      else elim (read path) [ err e ↦ unreadable | ok text ↦ text_clean sh providers text ]

  abbrev pub homes_fine : List Str → Bool
  homes_fine [] = true
  homes_fine (path ∷ paths) = file_fine true path && homes_fine paths

  abbrev m : IssuerMap
  m = new_policy_validator providers

  -- The results for a file without rows, and for one with this text.
  abbrev without_rows : Str → Option FsError → PolicyFileResult
  without_rows path e = record { file_path = path; rows = []; error = e; perms_error = false }

  abbrev with_rows : Str → ConfigLog → Str → PolicyFileResult
  with_rows path log text = record {
    file_path = path;
    rows = (audit_lines sh m path 1 [] log (read_rows_with_details sh text)).0;
    error = none;
    perms_error = (check path).perms_err;
  }

  abbrev Outcome : Result AuditError TotalResults → Bool → Type 0
  Outcome r fine = (judged sh check read r ≡ ok tt) ↔ (fine ≡ true)
