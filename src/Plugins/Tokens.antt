-- ===== src/Plugins/Tokens.antt =====
-- The variables that a policy plugin gets: policy/plugins/tokens.go, and `CheckPolicies` of
-- policy/plugins/plugins.go.
use opkssh.Base.{Bool, true, false, List, [], ◌∷◌, Option, none, some, Str, str, Result, ok, err}
use opkssh.Plugins.{EnvVars, LoadPluginsError, PluginResult, Run, returned, crash, Host}
use opkssh.Plugins.Execution.{State, check_policies}

-- What `json.Unmarshal` reads from a payload, with the text of the two fields that have a reader
-- of their own. `Int` stands for `int64`.
pub record RawClaims (Int : Type 0) : Type 0 where
  pub iss : Str
  pub sub : Str
  pub email : Str
  pub jti : Str
  pub email_verified : Option Str
  pub aud : Option Str
  pub exp : Option Int
  pub nbf : Option Int
  pub iat : Option Int
  pub groups : Option (List Str)

-- The libraries of tokens, JSON and base64; `decimal` is `%d`, `parse_bool` is
-- `strconv.ParseBool`, and the functions from a text to a value are `json.Unmarshal`.
pub record TokenLib : Type 1 where
  pub Pkt : Type 0
  pub Key : Type 0
  pub Int : Type 0
  pub compact : Pkt → Option Str
  pub user_key : Pkt → Option Key
  pub payload : Pkt → Str
  pub op_token : Pkt → Str
  pub marshal_key : Key → Option Str
  pub marshal_strings : List Str → Option Str
  pub claims_of : Str → Option (RawClaims Int)
  pub bool_of : Str → Option Bool
  pub string_of : Str → Option Str
  pub strings_of : Str → Option (List Str)
  pub parse_bool : Str → Option Bool
  pub decimal : Int → Str
  pub base64 : Str → Str

unfoldable pub and_then {ℓ κ} : {A : Type ℓ} {B : Type κ} → Option A → (A → Option B) → Option B
and_then none f = none
and_then (some a) f = f a

-- `strconv.FormatBool`
abbrev pub format_bool : Bool → Str
format_bool true = str "true"
format_bool false = str "false"

module _ (lib : TokenLib) where
  open lib use {Pkt, Int}

  abbrev normalized : Str → Option Bool → Str
  normalized s none = s
  normalized s (some b) = format_bool b

  -- `EmailVerified.UnmarshalJSON(data)`
  unfoldable pub email_verified_of : Str → Option Str
  email_verified_of raw = elim (lib.bool_of raw) [
    | some b ↦ some (format_bool b)
    | none ↦ and_then (lib.string_of raw) λ s. some (normalized s (lib.parse_bool s))
  ]

  -- `Audience.UnmarshalJSON(data)`
  unfoldable pub audience_of : Str → Option Str
  audience_of raw = elim (lib.strings_of raw) [
    | some multi ↦ lib.marshal_strings multi
    | none ↦ lib.string_of raw
  ]

  -- A field that is absent keeps the empty text.
  abbrev read_field : (Str → Option Str) → Option Str → Option Str
  read_field f none = some []
  read_field f (some raw) = f raw

  abbrev groups_text : Option (List Str) → Option Str
  groups_text none = some []
  groups_text (some groups) = lib.marshal_strings groups

  abbrev number_text : Option Int → Str
  number_text none = []
  number_text (some n) = lib.decimal n

  abbrev extra_args_text : List Str → Option Str
  extra_args_text [] = some []
  extra_args_text (arg ∷ args) = lib.marshal_strings (arg ∷ args)

  -- The map literal, in the order of the source.
  abbrev pub token_map :
      Str
      → Str
      → Str
      → RawClaims Int
      → (verified aud groups : Str) → Pkt
      → (upk compact info extra : Str) → EnvVars
  token_map principal cert typ claims verified aud groups pkt upk compact info extra =
      (str "OPKSSH_PLUGIN_U", principal)
      ∷ (str "OPKSSH_PLUGIN_K", cert)
      ∷ (str "OPKSSH_PLUGIN_T", typ)
      ∷ (str "OPKSSH_PLUGIN_ISS", claims.iss)
      ∷ (str "OPKSSH_PLUGIN_SUB", claims.sub)
      ∷ (str "OPKSSH_PLUGIN_EMAIL", claims.email)
      ∷ (str "OPKSSH_PLUGIN_EMAIL_VERIFIED", verified)
      ∷ (str "OPKSSH_PLUGIN_AUD", aud)
      ∷ (str "OPKSSH_PLUGIN_EXP", number_text claims.exp)
      ∷ (str "OPKSSH_PLUGIN_NBF", number_text claims.nbf)
      ∷ (str "OPKSSH_PLUGIN_IAT", number_text claims.iat)
      ∷ (str "OPKSSH_PLUGIN_JTI", claims.jti)
      ∷ (str "OPKSSH_PLUGIN_GROUPS", groups)
      ∷ (str "OPKSSH_PLUGIN_PAYLOAD", lib.base64 (lib.payload pkt))
      ∷ (str "OPKSSH_PLUGIN_UPK", upk)
      ∷ (str "OPKSSH_PLUGIN_PKT", compact)
      ∷ (str "OPKSSH_PLUGIN_IDT", lib.op_token pkt)
      ∷ (str "OPKSSH_PLUGIN_USERINFO", info)
      ∷ (str "OPKSSH_PLUGIN_EXTRA_ARGS", extra)
      ∷ []

  -- `PopulatePluginEnvVars(pkt, userInfoJson, principal, sshCert, keyType, extraArgs)`; `none`
  -- stands for each of its errors.
  unfoldable pub populate_plugin_env_vars :
      Pkt → (info principal cert typ : Str) → List Str → Option EnvVars
  unfolding email_verified_of audience_of
  populate_plugin_env_vars pkt info principal cert typ args = and_then (lib.compact pkt) λ compact.
      and_then (lib.user_key pkt) λ key. and_then (lib.marshal_key key) λ upk.
        and_then (lib.claims_of (lib.payload pkt)) λ claims.
          and_then (read_field email_verified_of claims.email_verified) λ verified.
            and_then (read_field audience_of claims.aud) λ aud.
              and_then (groups_text claims.groups) λ groups.
                and_then (extra_args_text args) λ extra. some (
                  token_map principal cert typ claims verified aud groups pkt (lib.base64 upk)
                    compact info extra)

  pub data PoliciesError : Type 0 where
    no_tokens : PoliciesError
    plugins_failed : LoadPluginsError → PoliciesError

  abbrev without_state :
      {host : Host}
      → Run (Result LoadPluginsError (List PluginResult × State host))
      → Run (Result PoliciesError (List PluginResult))
  without_state crash = crash
  without_state (returned (err e)) = returned (err (plugins_failed e))
  without_state (returned (ok (results, s))) = returned (ok results)

  -- `CheckPolicies(dir, pkt, userInfoJson, principal, sshCert, keyType, extraArgs)`, with the
  -- machine and the environment of the process.
  unfoldable pub check_policies_of :
      (host : Host)
      → host.World
      → EnvVars
      → Str
      → Pkt
      → (info principal cert typ : Str) → List Str
      → Run (Result PoliciesError (List PluginResult))
  check_policies_of host w env dir pkt info principal cert typ args =
      elim (populate_plugin_env_vars pkt info principal cert typ args) [
        | none ↦ returned (err no_tokens)
        | some tokens ↦
            without_state {host = host}
              (check_policies host dir (record { world = w; env = env; tokens = tokens }))
      ]
