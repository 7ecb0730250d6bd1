-- ===== src/Audit/Clean.antt =====
-- What the policy files must hold for `opkssh audit` to succeed.
use opkssh.Base.{
  ℕ, suc, Bool, true, false, ◌&&◌, List, [], ◌∷◌, ◌++◌, ◌≡◌, refl, ap, sym, ◌∙◌, arith, Str, str_eq,
  Bool-cases, inl, inr,
}
use opkssh.Table.{
  Shell, Row, RowDetails, blank, unreadable, parsed, new_table, read_rows_with_details,
}
use opkssh.ConfigLog.{ConfigLog, ConfigProblem}
use opkssh.Policy.{User}
use opkssh.Policy.Parse.{
  is_complete, user_of, row_problem_of, all_users, all_problems, from_table_lem,
}
use opkssh.Validator.{
  ValidationStatus, success, ValidationRowResult, bad_row, ProvidersRow, new_policy_validator,
  validate_entry,
}
use opkssh.Validator.Entry.{expected_status, validate_entry_status}
use opkssh.Audit.{
  bad_result, rows_ok, principal_results, user_results, table_results, line_results, audit_lines,
}

abbrev is_success : ValidationStatus → Bool
is_success success = true
is_success _ = false

pub rows_ok-append :
    (rs ss : List ValidationRowResult) → rows_ok (rs ++ ss) ≡ (rows_ok rs && rows_ok ss)
rows_ok-append [] ss = refl
rows_ok-append (r ∷ rs) ss = ground (arith, rows_ok-append rs ss)

module _ (sh : Shell) (providers : List ProvidersRow) where
  -- A row that needs no attention: it is complete, and its issuer is that of a provider, is
  -- reached by https and does not end in a slash.
  abbrev pub row_clean : Row → Bool
  row_clean row = is_complete row && is_success (expected_status providers (user_of row).issuer)

  abbrev pub table_clean : List Row → Bool
  table_clean [] = true
  table_clean (row ∷ rows) = row_clean row && table_clean rows

  -- A line that needs no attention: it is blank or a comment, or it is read to clean rows.
  abbrev pub line_clean : RowDetails → Bool
  line_clean (blank content) = true
  line_clean (unreadable content) = false
  line_clean (parsed cols content) = table_clean (new_table sh content).rows

  abbrev pub lines_clean : List RowDetails → Bool
  lines_clean [] = true
  lines_clean (d ∷ ds) = line_clean d && lines_clean ds

  -- The text of a policy file of which no line needs attention.
  abbrev pub text_clean : Str → Bool
  text_clean text = lines_clean (read_rows_with_details sh text)

  module _ (path : Str) where
    abbrev results_of : ℕ → List User → List ConfigProblem → List ValidationRowResult
    results_of line users problems = elim problems [
      | [] ↦ user_results (new_policy_validator providers) line users
      | problem ∷ more ↦ bad_result (bad_row problem.error_message) line ∷ []
    ]

    rows_ok-entry :
        (principal : Str) (row : Row) (line : ℕ) (rest : List ValidationRowResult)
        → rows_ok (
            validate_entry
              (new_policy_validator providers)
              principal
              (user_of row).identity_attribute
              (user_of row).issuer
              line
            ∷ rest)
          ≡ (is_success (expected_status providers (user_of row).issuer) && rows_ok rest)
    rows_ok-entry principal row line rest =
        let e =
          validate_entry_status providers principal (user_of row).identity_attribute
            (user_of row).issuer line in
        ground (arith, e.0)

    complete_users :
        (row : Row) (rows : List Row)
        → is_complete row ≡ true
        → all_users (row ∷ rows) ≡ user_of row ∷ all_users rows
    complete_users row rows y = rw y refl

    complete_problems :
        (row : Row) (rows : List Row)
        → is_complete row ≡ true
        → all_problems path (row ∷ rows) ≡ all_problems path rows
    complete_problems row rows y = rw y refl

    complete_clean :
        (row : Row) (rows : List Row)
        → is_complete row ≡ true
        → table_clean (row ∷ rows)
          ≡ (is_success (expected_status providers (user_of row).issuer) && table_clean rows)
    complete_clean row rows y = rw y refl

    rows_ok_complete :
        (line : ℕ) (row : Row) (rows : List Row) (problems : List ConfigProblem)
        → rows_ok (results_of line (all_users rows) problems) ≡ table_clean rows
        → rows_ok (results_of line (user_of row ∷ all_users rows) problems)
          ≡ (is_success (expected_status providers (user_of row).issuer) && table_clean rows)
    unfolding user_results principal_results
    rows_ok_complete line row rows [] h =
        rows_ok-entry _ row line
          (user_results (new_policy_validator providers) line (all_users rows))
        ∙ ap (λ b. is_success (expected_status providers (user_of row).issuer) && b) h
    rows_ok_complete line row rows (problem ∷ more) h = ground (arith, h)

    -- The first row that is not complete spoils the line.
    rows_ok_incomplete :
        (line : ℕ) (row : Row) (rows : List Row)
        → is_complete row ≡ false
        → rows_ok (results_of line (all_users (row ∷ rows)) (all_problems path (row ∷ rows)))
          ≡ table_clean (row ∷ rows)
    rows_ok_incomplete line row rows n = go _ refl ∙ sym (spoiled n)
      where
        spoiled : is_complete row ≡ false → table_clean (row ∷ rows) ≡ false
        spoiled n = rw n refl

        there : all_problems path (row ∷ rows) ≡ row_problem_of path row ∷ all_problems path rows
        there = rw n refl

        go :
            (problems : List ConfigProblem)
            → all_problems path (row ∷ rows) ≡ problems
            → rows_ok (results_of line (all_users (row ∷ rows)) problems) ≡ false
        go [] e = absurd (ground (arith, there))
        go (problem ∷ more) e = refl

    rows_ok-results_of :
        (line : ℕ) (rows : List Row)
        → rows_ok (results_of line (all_users rows) (all_problems path rows)) ≡ table_clean rows
    unfolding user_results
    rows_ok-results_of line [] = refl
    rows_ok-results_of line (row ∷ rows) = elim (Bool-cases (is_complete row)) [
      | inr n ↦ rows_ok_incomplete line row rows n
      | inl y ↦
          ap (λ us. rows_ok (results_of line us (all_problems path (row ∷ rows))))
            (complete_users row rows y)
          ∙ ap (λ ps. rows_ok (results_of line (user_of row ∷ all_users rows) ps))
              (complete_problems row rows y)
          ∙ rows_ok_complete line row rows (all_problems path rows) (rows_ok-results_of line rows)
          ∙ sym (complete_clean row rows y)
    ]

    -- What the loop over the lines adds up to.
    rows_ok-line :
        (line : ℕ) (d : RowDetails) (log : ConfigLog)
        → rows_ok (line_results sh (new_policy_validator providers) path line d log).0
          ≡ line_clean d
    unfolding line_results
    rows_ok-line line (blank content) log = refl
    rows_ok-line line (unreadable content) log = refl
    rows_ok-line line (parsed cols content) log =
        ap (λ p. rows_ok (table_results (new_policy_validator providers) line p))
          (from_table_lem path sh content log)
        ∙ rows_ok-results_of line (new_table sh content).rows

    rows_ok-lines :
        (line : ℕ) (out : List ValidationRowResult) (log : ConfigLog) (ds : List RowDetails)
        → rows_ok (audit_lines sh (new_policy_validator providers) path line out log ds).0
          ≡ (rows_ok out && lines_clean ds)
    unfolding audit_lines
    rows_ok-lines line out log [] = ground arith
    rows_ok-lines line out log (d ∷ ds) =
        let new = line_results sh (new_policy_validator providers) path line d log in
        rows_ok-lines (suc line) (out ++ new.0) new.1 ds
        ∙ ground (arith, rows_ok-append out new.0, rows_ok-line line d log)

    -- The rows of a file are successes exactly if its text is clean.
    pub rows_ok-text :
        (log : ConfigLog) (text : Str)
        → rows_ok
            (audit_lines sh
              (new_policy_validator providers)
              path
              1
              []
              log
              (read_rows_with_details sh text)).0
          ≡ text_clean text
    rows_ok-text log text = rows_ok-lines 1 [] log (read_rows_with_details sh text)
