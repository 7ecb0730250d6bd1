-- ===== src/Tests/Login.antt =====
-- The theorems on logins, on Alice's login in the small installation.
use opkssh.Base.{
  true, List, [], ◌∷◌, ◌≡◌, ◌↔◌, refl, arith, Option, none, some, Str, str, str_eq, str_beq,
  contains, Result, ok,
}
use opkssh.Text.{join, split, trim_space, has_prefix}
use opkssh.Table.{new_table}
use opkssh.Policy.{Policy, from_table}
use opkssh.ConfigLog.{ConfigLog}
use opkssh.Files.{load_file_at_path}
use opkssh.Files.Memory.{lookup, stat_memory, read_memory}
use opkssh.Loader.{valid_policy, load_system_policy, load_home_policy, load_multi}
use opkssh.Plugins.{PluginResult, returned, results_allowed}
use opkssh.Enforcer.{CheckedClaims, unmarshal_claims, values_of, validate_claim}
use opkssh.Enforcer.Check.{mismatch, read_user_info, check_policy}
use opkssh.Enforcer.Claim.{IsUsable, Matches, validate_claim_iff}
use opkssh.Enforcer.Decision.{PluginsAllow, IsAuthorized, check_policy_granted_iff}
use opkssh.Enforcer.Fields.{oidc_row, row, validate_claim-oidc_row}
use opkssh.SshCert.{
  new, get_pk_token, get_access_token, verify_ssh_pkt_cert, Certificate, extensions_of,
}
use opkssh.SshCert.Smuggle.{token_or_empty, get-new, IsBound, verify_ssh_pkt_cert_iff}
use opkssh.Verify.{authorized_keys_command, error_on_unsafe_principal}
use opkssh.Verify.Principals.{IsFaithful, join-IsFaithful}
use opkssh.Verify.Authorize.{Vouches, authorized_keys_command_sound}
use opkssh.Verify.Sources.{opk_policy_enforcer, Source, opk_policy_enforcer-Source}
use opkssh.Tests.Setup.{
  lower_case, words, env, files, no_script, google, alice_email, alice_claims, alice_row,
  alice_policy, no_denials, texts, certificate, deps,
}

validate_claim_iff_example :
    (validate_claim lower_case alice_claims alice_row ≡ true)
    ↔ (IsUsable lower_case alice_claims alice_email × Matches lower_case alice_claims alice_email)
validate_claim_iff_example = validate_claim_iff lower_case alice_claims alice_row

abbrev group : Str
group = str "group"

abbrev admins : Str
admins = str "admins"

validate_claim-oidc_row_example :
    validate_claim lower_case alice_claims
      (row lower_case alice_claims group admins [] google (oidc_row group admins))
    ≡ contains (values_of group alice_claims.extra_claims) admins
unfolding str_beq has_prefix
validate_claim-oidc_row_example =
    validate_claim-oidc_row lower_case alice_claims group admins [] google
      (record { no_colon = omega arith; no_quote = omega arith; ne_nil = λ e. cc })
      (record { no_colon = omega arith; no_quote = omega arith; ne_nil = λ e. cc }) refl refl

abbrev url : Str
url = str "https://me.org/group"

abbrev payload : Str
payload = str "alice@example.com 1"

abbrev no_plugins : Result ConfigLog (List PluginResult)
no_plugins = ok []

abbrev loaded_alice : Result ConfigLog (Policy × Str)
loaded_alice = ok (alice_policy, str "file")

check_policy_granted_iff_example :
    (check_policy lower_case words
        (str "root")
        payload
        (some google)
        []
        no_denials
        no_plugins
        loaded_alice
      ≡ returned (ok tt))
    ↔ IsAuthorized lower_case words
        (str "root")
        payload
        (some google)
        []
        no_denials
        no_plugins
        loaded_alice
check_policy_granted_iff_example =
    check_policy_granted_iff lower_case words (str "root") payload (some google) [] no_denials
      no_plugins loaded_alice

alice_as_root :
    opk_policy_enforcer env no_script lower_case words files [] no_plugins
      (str "root")
      (str "root")
      payload
      (some google)
      []
      no_denials
    ≡ returned (ok tt)
unfolding opk_policy_enforcer check_policy validate_claim load_multi load_system_policy
    load_home_policy load_file_at_path from_table new_table valid_policy lookup stat_memory
    read_memory join split trim_space str_beq has_prefix results_allowed
alice_as_root = refl

silent : ¬ (PluginsAllow no_plugins)
unfolding results_allowed
silent h = ground arith

opk_policy_enforcer-Source_example :
    (claims : CheckedClaims) × (iss : Str) × (info : Option CheckedClaims) × (unmarshal_claims words
        payload
      ≡ some claims)
    × (some google ≡ some iss)
    × (read_user_info words [] ≡ some info)
    × (mismatch claims info ≡ none)
    × Source lower_case env no_script files [] (str "root") (str "root") iss claims info
opk_policy_enforcer-Source_example =
    opk_policy_enforcer-Source lower_case words env no_script files [] no_plugins (str "root")
      (str "root") payload (some google) [] no_denials alice_as_root silent

abbrev certificate_of : Certificate Str
certificate_of = record {
  key = str "token";
  key_id = str "token";
  valid_principals = str "root" ∷ [];
  extensions = extensions_of (str "token") (some (str "access"));
  signature_key = [];
}

made : new texts (str "token") (some (str "access")) (str "root" ∷ []) ≡ ok certificate_of
unfolding new
made = refl

get-new_example :
    (get_pk_token texts certificate_of ≡ ok (str "token"))
    × (get_access_token texts certificate_of ≡ token_or_empty (some (str "access")))
    × (certificate_of.valid_principals ≡ str "root" ∷ [])
get-new_example =
    get-new texts (str "token") (some (str "access")) (str "root" ∷ []) (str "token") certificate_of
      refl refl made

verify_ssh_pkt_cert_iff_example :
    (verify_ssh_pkt_cert texts certificate ≡ returned (ok (str "token")))
    ↔ IsBound texts certificate (str "token")
verify_ssh_pkt_cert_iff_example = verify_ssh_pkt_cert_iff texts certificate (str "token")

join-IsFaithful_example :
    IsFaithful (str "alice" ∷ str "root" ∷ []) (join (str "alice" ∷ str "root" ∷ []) (str ","))
unfolding error_on_unsafe_principal
join-IsFaithful_example = join-IsFaithful (str "alice" ∷ str "root" ∷ []) refl

abbrev line : Str
line = str "cert-authority,principals=\"alice,root\" ca"

alice_line :
    authorized_keys_command texts deps (str "root") (str "ssh-rsa") (str "cert") [] no_denials
    ≡ returned (ok line)
unfolding authorized_keys_command verify_ssh_pkt_cert get_access_token error_on_unsafe_principal
    join trim_space str_beq
alice_line = refl

authorized_keys_command_sound_example :
    Vouches texts deps (str "root") (str "ssh-rsa") (str "cert") [] no_denials line
authorized_keys_command_sound_example =
    authorized_keys_command_sound texts deps (str "root") (str "ssh-rsa") (str "cert") [] no_denials
      line alice_line
