-- ===== src/Providers.antt =====
-- The providers file and the token verifiers made from it: policy/providerloader.go.
pub mod Rows
pub mod Verifiers
pub mod GitlabCi
use opkssh.Base.{
  ℕ, zero, suc, ◌<◌, Bool, true, false, not, ◌&&◌, ◌||◌, List, [], ◌∷◌, ◌++◌, Option, none, some,
  Str, str, ◌==◌, nat_eq, str_eq, if◌then◌else◌, length, ltb, get_elem?, Result, ok, err, any,
}
use opkssh.Text.{has_prefix, split, join}
use opkssh.Table.{Shell, Row, Table, add_row, new_table}
use opkssh.ConfigLog.{ConfigProblem, ConfigLog, wrong_number, record_problem}
use opkssh.Validator.{ProvidersRow}
use opkssh.Enforcer.{Json}

-- `verifier.ExpirationPolicies` of github.com/openpubkey/openpubkey.
pub data ExpirationPolicy : Type 0 where
  max_age_12hours max_age_24hours max_age_48hours max_age_1week : ExpirationPolicy
  oidc oidc_refreshed never_expire : ExpirationPolicy

-- `GetExpirationPolicy()`; `none` is its error.
unfoldable pub get_expiration_policy : ProvidersRow → Option ExpirationPolicy
get_expiration_policy p =
    let e = p.expiration_policy in
    if e == str "12h"
    then some max_age_12hours
    else if e == str "24h"
    then some max_age_24hours
    else if e == str "48h"
    then some max_age_48hours
    else if e == str "1week"
    then some max_age_1week
    else if e == str "oidc"
    then some oidc
    else if e == str "oidc_refreshed"
    then some oidc_refreshed
    else if e == str "never"
    then some never_expire
    else none

-- `ProvidersRow.ToString()` and `ProviderPolicy.ToString()`
abbrev pub row_to_string : ProvidersRow → Str
row_to_string p = (p.issuer ++ str " ") ++ (p.client_id ++ (str " " ++ p.expiration_policy))

pub policy_to_string : Str → List ProvidersRow → Str
policy_to_string sb [] = sb
policy_to_string sb (row ∷ rows) = policy_to_string (sb ++ (row_to_string row ++ str "\n")) rows

-- Which verifier of the library is made, and of which row.
pub data Verifier : Type 0 where
  google azure gitlab : Str → Str → Verifier
  github forgejo : Str → Verifier
  gitlab_ci : Str → Str → Verifier

-- `providerVerifierFromRow(row)`; `is_forgejo` is `providers.IsForgejoIssuer`.
unfoldable pub provider_verifier_from_row : (Str → Bool) → ProvidersRow → Verifier
provider_verifier_from_row is_forgejo row =
    if row.issuer == str "https://accounts.google.com"
      || (has_prefix row.issuer (str "http://oidc.local")
          || has_prefix row.issuer (str "http://localhost:"))
    then google row.issuer row.client_id
    else if has_prefix row.issuer (str "https://login.microsoftonline.com")
    then azure row.issuer row.client_id
    else if row.issuer == str "https://token.actions.githubusercontent.com"
    then github row.issuer
    else if is_forgejo row.issuer
    then forgejo row.issuer
    else if has_prefix row.client_id (str "OPENPUBKEY-PKTOKEN:GITLAB-CI:")
    then gitlab_ci row.issuer row.client_id
    else if row.issuer == str "https://gitlab.com"
    then gitlab row.issuer row.client_id
    else google row.issuer row.client_id

pub data VerifierError : Type 0 where
  invalid_expiration : Str → VerifierError
  no_providers : VerifierError
  rejected : VerifierError

-- `ProviderVerifierExpires`
pub record Expiring : Type 0 where
  pub verifier : Verifier
  pub expiration : ExpirationPolicy

-- The loop of `CreateVerifier`; the last expiration policy is kept beside the verifiers.
pub verifiers_from :
    (Str → Bool)
    → List Expiring
    → Option ExpirationPolicy
    → List ProvidersRow
    → Result VerifierError (List Expiring × Option ExpirationPolicy)
verifiers_from is_forgejo pvs last [] = ok (pvs, last)
verifiers_from is_forgejo pvs last (row ∷ rows) = elim (get_expiration_policy row) [
  | none ↦ err (invalid_expiration row.expiration_policy)
  | some e ↦
      verifiers_from is_forgejo
        (pvs
          ++ record { verifier = provider_verifier_from_row is_forgejo row; expiration = e } ∷ [])
        (some e) rows
]

abbrev from_many :
    (List Expiring → Bool)
    → Result VerifierError (List Expiring × Option ExpirationPolicy)
    → Result VerifierError (List Expiring × Option ExpirationPolicy)
from_many accepts (err e) = err e
from_many accepts (ok ([], last)) = err no_providers
from_many accepts (ok (pv ∷ pvs, last)) =
    if accepts (pv ∷ pvs) then ok (pv ∷ pvs, last) else err rejected

-- `CreateVerifier()`; `accepts` says whether `verifier.NewFromMany` takes the verifiers.
unfoldable pub create_verifier :
    (Str → Bool)
    → (List Expiring → Bool)
    → List ProvidersRow
    → Result VerifierError (List Expiring × Option ExpirationPolicy)
unfolding verifiers_from
create_verifier is_forgejo accepts rows = from_many accepts (verifiers_from is_forgejo [] none rows)

-- `ProvidersFileLoader.ToTable(opPolicies)`
unfoldable pub provider_table : Table → List ProvidersRow → Table
provider_table t [] = t
provider_table t (row ∷ rows) =
    provider_table (add_row t (row.issuer ∷ row.client_id ∷ row.expiration_policy ∷ [])) rows

abbrev provider_problem : Str → Row → ConfigProblem
provider_problem path row = record {
  filepath = path;
  offending_line = join row (str " ");
  error_message = wrong_number (length row);
  source = str "providers policy file";
}

-- One round of the loop of `ProvidersFileLoader.FromTable`.
pub provider_row : Str → List ProvidersRow × ConfigLog → Row → List ProvidersRow × ConfigLog
provider_row path (rows, log) (issuer ∷ client ∷ expiration ∷ []) = (
  rows ++ record { issuer = issuer; client_id = client; expiration_policy = expiration } ∷ [],
  log,
)
provider_row path (rows, log) row = (rows, record_problem (provider_problem path row) log)

pub provider_rows : Str → List ProvidersRow × ConfigLog → List Row → List ProvidersRow × ConfigLog
provider_rows path s [] = s
provider_rows path s (row ∷ rows) = provider_rows path (provider_row path s row) rows

-- `ProvidersFileLoader.FromTable(input, path)`
unfoldable pub providers_from_table : Shell → Str → Str → ConfigLog → List ProvidersRow × ConfigLog
unfolding provider_rows provider_row
providers_from_table sh input path log = provider_rows path ([], log) (new_table sh input).rows
