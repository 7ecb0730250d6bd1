-- ===== src/Verify.antt =====
-- `opkssh verify`, the AuthorizedKeysCommand of sshd: commands/verify.go.
pub mod Principals
pub mod Authorize
pub mod Sources
pub mod Config
use opkssh.Base.{
  ℕ, zero, suc, Bool, true, false, ◌&&◌, ◌||◌, List, [], ◌∷◌, ◌++◌, Option, none, some, Str, str,
  ◌==◌, nat_eq, str_eq, leb, if◌then◌else◌, Result, ok, err, map,
}
use opkssh.Text.{join, trim_space}
use opkssh.Plugins.{Run, returned, crash}
use opkssh.Enforcer.{DenyList}
use opkssh.Enforcer.Check.{Denial, Decision}
use opkssh.SshCert.{Crypto, Certificate, CertError, verify_ssh_pkt_cert, get_access_token}
use opkssh.Files.{FsError, Fs, PermError, Check, passed, refused, panicked, check_perm}

abbrev within : ℕ → ℕ → ℕ → Bool
within lo hi c = leb lo c && leb c hi

-- The first and the second class of the expression `validPrincipal`.
pub is_word : ℕ → Bool
is_word c = within b'a' b'z' c || (within b'A' b'Z' c || (within b'0' b'9' c || c == b'_'))

pub is_tail : ℕ → Bool
is_tail c = is_word c || (c == b'.' || (c == b'+' || (c == b'@' || c == b'-')))

-- `[a-zA-Z0-9._+@-]{0,n}\$?$`. The second class has no `$`, so there is nothing to choose.
pub tail_matches : ℕ → Str → Bool
tail_matches n [] = true
tail_matches zero (c ∷ s) = c == b'$' && s == []
tail_matches (suc n) (c ∷ s) =
    let rest = tail_matches n s in (c == b'$' && s == []) || is_tail c && rest

-- `validPrincipal.MatchString(p)`
unfoldable pub valid_principal : Str → Bool
unfolding tail_matches is_tail is_word
valid_principal [] = false
valid_principal (c ∷ s) = is_word c && tail_matches 127 s

pub data VerifyError : Type 0 where
  not_a_cert : VerifyError
  bad_cert : CertError → VerifyError
  not_permitted : Denial → VerifyError
  unsafe_principal : Str → VerifyError

-- `errorOnUnsafePrincipal(principals)`
unfoldable pub error_on_unsafe_principal : List Str → Option VerifyError
unfolding valid_principal
error_on_unsafe_principal [] = none
error_on_unsafe_principal (p ∷ ps) =
    let rest = error_on_unsafe_principal ps in
    if valid_principal p then rest else some (unsafe_principal p)

-- The line for sshd: with the option for the principals, or without.
abbrev pub authorized_line : Str → Str → Str
authorized_line principals key =
    if principals == []
    then str "cert-authority " ++ key
    else str "cert-authority,principals=\"" ++ (principals ++ (str "\" " ++ key))

-- `ServerConfig` of commands/config/server_config.go, and what reads it from the text of a file
-- (gopkg.in/yaml.v3).
pub record ServerConfig : Type 0 where
  pub env_vars : List (Str × Str)
  pub deny_users : List Str
  pub deny_emails : List Str

pub data ConfigError : Type 0 where
  parse_failed check_crashed : ConfigError
  read_failed : FsError → ConfigError
  insecure : PermError → ConfigError
  setenv_failed : Str → ConfigError

-- `SetEnvVars()`: the variables are set in their order until one fails.
pub set_env_vars :
    (Str → Str → Bool)
    → List (Str × Str)
    → List (Str × Str)
    → Result ConfigError (Unit {0}) × List (Str × Str)
set_env_vars settable [] env = (ok tt, env)
set_env_vars settable ((k, v) ∷ vars) env =
    let rest = set_env_vars settable vars (env ++ (k, v) ∷ []) in
    if settable k v then rest else (err (setenv_failed k), env)

-- The state of a `VerifyCmd`, and the environment variables that it has set.
pub record Session : Type 0 where
  pub deny_list : DenyList
  pub env : List (Str × Str)

abbrev apply_config :
    (Str → Str → Bool) → ServerConfig → Session → Result ConfigError (Unit {0}) × Session
apply_config settable config s =
    let (r, env) = set_env_vars settable config.env_vars s.env in
    (
      r,
      record {
        deny_list = record { emails = config.deny_emails; users = config.deny_users };
        env = env;
      },
    )

-- What follows the read of the file: its check, the parse of its text, and the settings.
pub read_checked :
    (Str → Str → Bool)
    → Result FsError Str
    → Check
    → (Str → Option ServerConfig)
    → Session
    → Result ConfigError (Unit {0}) × Session
unfolding set_env_vars
read_checked settable (err e) check parse s = (err (read_failed e), s)
read_checked settable (ok text) panicked parse s = (err check_crashed, s)
read_checked settable (ok text) (refused e) parse s = (err (insecure e), s)
read_checked settable (ok text) passed parse s = elim (parse text) [
  | none ↦ (err parse_failed, s)
  | some config ↦ apply_config settable config s
]

-- `ReadFromServerConfig()`, for `v.ConfigPathArg`. `parse` is `config.NewServerConfig`, and
-- `settable` says which variables `os.Setenv` sets.
unfoldable pub read_from_server_config :
    (fs : Fs)
    → (Str → Option Str)
    → (Str → Str → Bool)
    → (Str → Option ServerConfig)
    → Str
    → fs.State
    → Session
    → Result ConfigError (Unit {0}) × Session
unfolding read_checked
read_from_server_config fs run_stat settable parse path s session =
    read_checked settable (fs.read_file s path)
      (check_perm run_stat (fs.stat s path) path (0o640 ∷ []) (str "root") (str "opksshuser")) parse
      session

module _ (c : Crypto) where
  -- What a `VerifyCmd` calls: `sshcert.NewFromAuthorizedKey`, the userinfo endpoint, and the
  -- policy enforcer.
  pub record Deps : Type 0 where
    pub parse_cert : Str → Str → Option (Certificate c.SshKey)
    pub user_info_lookup : c.Pkt → Str → Option Str
    pub check : Str → c.Pkt → Str → Str → Str → DenyList → List Str → Run Decision

  module _ (d : Deps) where
    -- The userinfo is optional: a failed lookup counts as none.
    abbrev looked_up : Option Str → Str
    looked_up none = []
    looked_up (some info) = info

    abbrev pub user_info : Certificate c.SshKey → c.Pkt → Str
    user_info cert pkt =
        let token = get_access_token c cert in
        if token == [] then [] else looked_up (d.user_info_lookup pkt token)

    abbrev line_of : Certificate c.SshKey → Result VerifyError Str
    line_of cert = elim (error_on_unsafe_principal cert.valid_principals) [
      | some e ↦ err e
      | none ↦
          ok
            (authorized_line (join cert.valid_principals (str ",")) (trim_space cert.signature_key))
    ]

    abbrev pub permitted_line : Certificate c.SshKey → Run Decision → Run (Result VerifyError Str)
    permitted_line cert crash = crash
    permitted_line cert (returned (err e)) = returned (err (not_permitted e))
    permitted_line cert (returned (ok _)) = returned (line_of cert)

    abbrev pub checked_line :
        Str
        → Str
        → Str
        → DenyList
        → List Str
        → Certificate c.SshKey
        → Run (Result CertError c.Pkt)
        → Run (Result VerifyError Str)
    checked_line user typ cert64 deny extra cert crash = crash
    checked_line user typ cert64 deny extra cert (returned (err e)) = returned (err (bad_cert e))
    checked_line user typ cert64 deny extra cert (returned (ok pkt)) =
        permitted_line cert (d.check user pkt (user_info cert pkt) cert64 typ deny extra)

    -- `AuthorizedKeysCommand(ctx, userArg, typArg, certB64Arg, extraArgs)`
    unfoldable pub authorized_keys_command :
        Str → Str → Str → List Str → DenyList → Run (Result VerifyError Str)
    authorized_keys_command user typ cert64 extra deny = elim (d.parse_cert typ cert64) [
      | none ↦ returned (err not_a_cert)
      | some cert ↦ checked_line user typ cert64 deny extra cert (verify_ssh_pkt_cert c cert)
    ]
