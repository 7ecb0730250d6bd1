-- ===== src/Validator.antt =====
-- The check of policy rows against the configured providers: policy/validator.go.
pub mod Entry
pub mod Summary
use opkssh.Base.{
  ℕ, ◌+◌, ◌-◌, ◌<◌, Bool, true, false, not, ◌&&◌, ◌||◌, List, [], ◌∷◌, ◌++◌, Option, none, some,
  Str, str, ◌==◌, nat_eq, str_eq, if◌then◌else◌, length, drop, ltb,
}
use opkssh.ConfigLog.{Message}
use opkssh.Text.{has_prefix, has_suffix, replace_first, drop_last}

pub data ValidationStatus : Type 0 where
  success warning error : ValidationStatus

-- The reasons and the hints of `ValidateEntry`, with the URLs that their texts name.
pub data Reason : Type 0 where
  no_reason issuer_empty issuer_not_found issuer_matches issuer_not_https : Reason
  trailing_slash : Str → Reason
  unreadable_row : Reason
  bad_row : Message → Reason

pub data Hint : Type 0 where
  remove_slash : Str → Str → Hint
  change_http : Str → Str → Hint
  change_https : Str → Str → Hint
  ensure_issuer : Str → Hint
  remove_slash_in_both recommend_https : Hint

pub record ValidationRowResult : Type 0 where
  pub status : ValidationStatus
  pub hints : List Hint
  pub principal : Str
  pub identity_attr : Str
  pub issuer : Str
  pub reason : Reason
  pub line_number : ℕ

-- `ProvidersRow` of policy/providerloader.go.
pub record ProvidersRow : Type 0 where
  pub issuer : Str
  pub client_id : Str
  pub expiration_policy : Str

-- `issuerMap`: a later row replaces an earlier one of the same issuer.
abbrev pub IssuerMap : Type 0
IssuerMap = List (Str × ProvidersRow)

unfoldable pub lookup_issuer : Str → IssuerMap → Option ProvidersRow
lookup_issuer k [] = none
lookup_issuer k ((j, row) ∷ m) = if j == k then some row else lookup_issuer k m

unfoldable pub insert_issuer : Str → ProvidersRow → IssuerMap → IssuerMap
insert_issuer k row [] = (k, row) ∷ []
insert_issuer k row ((j, old) ∷ m) =
    if j == k then (k, row) ∷ m else (j, old) ∷ insert_issuer k row m

pub add_rows : IssuerMap → List ProvidersRow → IssuerMap
add_rows m [] = m
add_rows m (row ∷ rows) = add_rows (insert_issuer row.issuer row m) rows

-- `NewPolicyValidator(providerPolicy)`
unfoldable pub new_policy_validator : List ProvidersRow → IssuerMap
unfolding add_rows insert_issuer
new_policy_validator rows = add_rows [] rows

abbrev https : Str
https = str "https://"

abbrev http : Str
http = str "http://"

abbrev with_hint : Hint → ValidationRowResult → ValidationRowResult
with_hint h r = record r { hints = r.hints ++ h ∷ [] }

-- The hint for an issuer that no provider has: the first of the near misses.
abbrev scheme_hint : IssuerMap → Str → Hint
scheme_hint m issuer = elim (lookup_issuer (replace_first issuer http https) m) [
  | some row ↦ change_http issuer row.issuer
  | none ↦ elim (lookup_issuer (replace_first issuer https http) m) [
    | some row ↦ change_https issuer row.issuer
    | none ↦ ensure_issuer issuer
  ]
]

pub near_miss : IssuerMap → Str → Hint
near_miss m issuer =
    if has_suffix issuer (str "/")
    then elim (lookup_issuer (drop_last issuer) m) [
      | some row ↦ remove_slash issuer row.issuer
      | none ↦ scheme_hint m issuer
    ]
    else scheme_hint m issuer

abbrev started : Str → Str → Str → ℕ → ValidationRowResult
started principal identity issuer line = record {
  status = success;
  hints = [];
  principal = principal;
  identity_attr = identity;
  issuer = issuer;
  reason = no_reason;
  line_number = line;
}

abbrev pub found_result : Str → ValidationRowResult → ValidationRowResult
found_result issuer r =
    if has_suffix issuer (str "/")
    then with_hint remove_slash_in_both
        (record r { status = error; reason = trailing_slash issuer })
    else if not (has_prefix issuer https)
    then with_hint recommend_https (record r { status = warning; reason = issuer_not_https })
    else record r { status = success; reason = issuer_matches }

-- `ValidateEntry(principal, identityAttr, issuer, lineNumber)`
unfoldable pub validate_entry : IssuerMap → Str → Str → Str → ℕ → ValidationRowResult
unfolding near_miss
validate_entry m principal identity issuer line =
    let r = started principal identity issuer line in
    if issuer == []
    then record r { status = error; reason = issuer_empty }
    else elim (lookup_issuer issuer m) [
      | none ↦
          with_hint (near_miss m issuer) (record r { status = error; reason = issuer_not_found })
      | some _ ↦ found_result issuer r
    ]

pub record ValidationSummary : Type 0 where
  pub total_tested : ℕ
  pub successful : ℕ
  pub warnings : ℕ
  pub errors : ℕ

-- `HasErrors()` and `GetExitCode()`
abbrev pub has_errors : ValidationSummary → Bool
has_errors s = ltb 0 s.errors || ltb 0 s.warnings

unfoldable pub get_exit_code : ValidationSummary → ℕ
get_exit_code s = if has_errors s then 1 else 0

abbrev pub tally : ValidationStatus → ValidationSummary → ValidationSummary
tally success s = record s { successful = s.successful + 1 }
tally warning s = record s { warnings = s.warnings + 1 }
tally error s = record s { errors = s.errors + 1 }

pub tally_all : ValidationSummary → List ValidationRowResult → ValidationSummary
tally_all s [] = s
tally_all s (r ∷ rs) = tally_all (tally r.status s) rs

-- `CalculateSummary(results)`
unfoldable pub calculate_summary : List ValidationRowResult → ValidationSummary
unfolding tally_all
calculate_summary results =
    tally_all (record { total_tested = length results; successful = 0; warnings = 0; errors = 0 })
      results
