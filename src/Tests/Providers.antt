-- ===== src/Tests/Providers.antt =====
-- The theorems on providers, their verifiers and the validation of policies, on Google's provider.
use opkssh.Base.{
  Bool, true, false, List, [], ◌∷◌, ◌≡◌, ◌≢◌, ◌↔◌, refl, arith, Option, none, some, Str, str, ◌==◌,
  str_eq, All, if◌then◌else◌, length,
}
use opkssh.Text.{trim_space, split, join}
use opkssh.Table.{strip_bom, to_string}
use opkssh.Table.RoundTrip.{Storable}
use opkssh.Validator.{
  success, ProvidersRow, ValidationRowResult, new_policy_validator, validate_entry,
}
use opkssh.Validator.Entry.{expected_status, validate_entry_status}
use opkssh.Providers.{google, create_verifier, provider_table, providers_from_table, Expiring, oidc}
use opkssh.Providers.Verifiers.{expected_verifiers, pvs_of, create_verifier_iff}
use opkssh.Providers.Rows.{providers_from_table-provider_table}
use opkssh.Enforcer.{Json}
use opkssh.Tests.Setup.{spaces, google as google_issuer, alice_email}

abbrev google_row : ProvidersRow
google_row = record {
  issuer = google_issuer;
  client_id = str "client";
  expiration_policy = str "oidc";
}

google_row-Storable :
    All (Storable spaces) (provider_table (record { rows = [] }) (google_row ∷ [])).rows
unfolding provider_table trim_space strip_bom join split
google_row-Storable = (
  record {
    one_line = omega arith;
    no_comment = omega arith;
    trimmed = refl;
    no_bom = λ s. refl;
    ne_nil = λ e. cc;
    reads_back = refl;
  },
  tt,
)

providers_from_table-provider_table_example :
    providers_from_table spaces
      (to_string spaces (provider_table (record { rows = [] }) (google_row ∷ [])))
      (str "/etc/opk/providers")
      []
    ≡ (google_row ∷ [], [])
providers_from_table-provider_table_example =
    providers_from_table-provider_table spaces (str "/etc/opk/providers") (google_row ∷ []) []
      google_row-Storable

abbrev not_forgejo : Str → Bool
not_forgejo issuer = false

abbrev any_verifiers : List Expiring → Bool
any_verifiers pvs = true

abbrev verifiers : List Expiring
verifiers = record { verifier = google google_issuer (str "client"); expiration = oidc } ∷ []

create_verifier_iff_example :
    (pvs_of not_forgejo (create_verifier not_forgejo any_verifiers (google_row ∷ []))
      ≡ some verifiers)
    ↔ ((expected_verifiers not_forgejo (google_row ∷ []) ≡ some verifiers)
        × (verifiers ≢ [])
        × (any_verifiers verifiers ≡ true))
create_verifier_iff_example =
    create_verifier_iff not_forgejo any_verifiers (google_row ∷ []) verifiers

validate_entry_status_example :
    let r =
      validate_entry
        (new_policy_validator (google_row ∷ []))
        (str "root")
        alice_email
        google_issuer
        1 in
    (r.status ≡ expected_status (google_row ∷ []) google_issuer)
    × (length r.hints ≡ (if google_issuer == [] then 0 else elim r.status [ success ↦ 0 | _ ↦ 1 ]))
    × (r.line_number ≡ 1)
validate_entry_status_example =
    validate_entry_status (google_row ∷ []) (str "root") alice_email google_issuer 1

abbrev results : List ValidationRowResult
results =
    validate_entry (new_policy_validator (google_row ∷ [])) (str "root") alice_email google_issuer 1
    ∷ []

abbrev no_base64 : Str → Option Str
no_base64 s = some s

-- JSON that always holds the claims of a pipeline, for the audience `me`.
abbrev pipeline : Json
pipeline = record {
  Value = Str;
  email_and_sub = λ s. none;
  fields = λ s. some (
      (str "aud", str "me")
      ∷ (str "ci_config_ref_uri", str "gitlab.com/group/project")
      ∷ (str "job_id", str "1")
      ∷ (str "job_project_path", str "group/project")
      ∷ (str "pipeline_id", str "2")
      ∷ []);
  as_string = λ v. some v;
  as_list = λ v. none;
  sprint = λ v. v;
}
