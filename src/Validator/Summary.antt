-- ===== src/Validator/Summary.antt =====
-- The counts of a summary.
use opkssh.Base.{
  ℕ, ◌+◌, Bool, true, false, not, ◌||◌, List, [], ◌∷◌, ◌≡◌, refl, arith, ltb, if◌then◌else◌, length,
}
use opkssh.Validator.{
  ValidationStatus, success, warning, error, ValidationRowResult, ValidationSummary, tally,
  tally_all, calculate_summary, has_errors, get_exit_code,
}

abbrev is_status : ValidationStatus → ValidationStatus → ℕ
is_status success success = 1
is_status warning warning = 1
is_status error error = 1
is_status _ _ = 0

abbrev pub count : ValidationStatus → List ValidationRowResult → ℕ
count st [] = 0
count st (r ∷ rs) = is_status st r.status + count st rs

tally_all_lem :
    (rs : List ValidationRowResult) (s : ValidationSummary)
    → tally_all s rs ≡ record s {
      successful = s.successful + count success rs;
      warnings = s.warnings + count warning rs;
      errors = s.errors + count error rs;
    }
unfolding tally_all
tally_all_lem [] s = ground arith
tally_all_lem (r ∷ rs) s = ground (arith, tally_all_lem rs (tally r.status s))

count_total :
    (rs : List ValidationRowResult)
    → count success rs + count warning rs + count error rs ≡ length rs
count_total [] = refl
count_total (r ∷ rs) = ground (arith, count_total rs)

abbrev pub all_success : List ValidationRowResult → Bool
all_success [] = true
all_success (r ∷ rs) = elim r.status [ success ↦ all_success rs | _ ↦ false ]

all_success-count :
    (rs : List ValidationRowResult)
    → all_success rs ≡ not (ltb 0 (count error rs) || ltb 0 (count warning rs))
all_success-count [] = refl
all_success-count (r ∷ rs) = ground (arith, all_success-count rs)

-- The summary counts the rows of each status, the three counts add up to the total, and the exit
-- code is 0 exactly if every row is a success.
pub calculate_summary_lem :
    (rs : List ValidationRowResult)
    → let s = calculate_summary rs in
      (s.successful ≡ count success rs)
      × (s.warnings ≡ count warning rs)
      × (s.errors ≡ count error rs)
      × (s.total_tested ≡ s.successful + s.warnings + s.errors)
      × (get_exit_code s ≡ (if all_success rs then 0 else 1))
unfolding calculate_summary get_exit_code
calculate_summary_lem rs =
    let e =
      tally_all_lem rs
        (record { total_tested = length rs; successful = 0; warnings = 0; errors = 0 }) in
    (
      ground (arith, e),
      ground (arith, e),
      ground (arith, e),
      ground (arith, e, count_total rs),
      ground (arith, e, all_success-count rs),
    )

pub has_errors-calculate_summary :
    (rs : List ValidationRowResult) → has_errors (calculate_summary rs) ≡ not (all_success rs)
unfolding calculate_summary
has_errors-calculate_summary rs =
    let e =
      tally_all_lem rs
        (record { total_tested = length rs; successful = 0; warnings = 0; errors = 0 }) in
    ground (arith, e, all_success-count rs)
