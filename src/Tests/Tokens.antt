-- ===== src/Tests/Tokens.antt =====
-- The theorem on what a plugin sees, for Alice's login as root.
use opkssh.Base.{
  ◌==◌, str_eq, if◌then◌else◌, Bool, true, [], ◌∷◌, ◌≡◌, refl, Option, none, some, Str, str,
  str_beq,
}
use opkssh.Plugins.{EnvVars, put, clear_inherited, set_all}
use opkssh.Plugins.Tokens.{RawClaims, TokenLib, and_then, token_map, populate_plugin_env_vars}
use opkssh.Plugins.Seen.{Sees, Sees-set_all}
use opkssh.Tests.Setup.{google, alice_email}

abbrev alice_raw : RawClaims Str
alice_raw = record {
  iss = google;
  sub = str "1";
  email = alice_email;
  jti = [];
  email_verified = some (str "1");
  aud = none;
  exp = some (str "1700000000");
  nbf = none;
  iat = none;
  groups = none;
}

abbrev is_one : Str → Option Bool
is_one s = if s == str "1" then some true else none

abbrev lib : TokenLib
lib = record {
  Pkt = Str;
  Key = Str;
  Int = Str;
  compact = λ s. some s;
  user_key = λ s. some s;
  payload = λ s. s;
  op_token = λ s. s;
  marshal_key = λ s. some s;
  marshal_strings = λ ss. some [];
  claims_of = λ s. some alice_raw;
  bool_of = λ s. none;
  string_of = λ s. some s;
  strings_of = λ s. none;
  parse_bool = is_one;
  decimal = λ s. s;
  base64 = λ s. s;
}

abbrev pkt : Str
pkt = str "token"

abbrev tokens : EnvVars
tokens =
    token_map lib (str "root") (str "cert") (str "ssh-rsa") alice_raw (str "true") [] [] pkt pkt pkt
      [] []

populated :
    populate_plugin_env_vars lib pkt [] (str "root") (str "cert") (str "ssh-rsa") [] ≡ some tokens
unfolding populate_plugin_env_vars and_then str_beq
populated = refl

abbrev inherited : EnvVars
inherited = (str "OPKSSH_PLUGIN_U", str "mallory") ∷ (str "PATH", str "/bin") ∷ []

all_set :
    (set_all
      (put (str "OPKSSH_PLUGIN_CONFIG") (str "cfg") tokens)
      (clear_inherited inherited inherited)).0
    ≡ none
unfolding set_all put str_beq
all_set = refl

Sees-set_all_example :
    Sees lib pkt []
      (str "root")
      (str "cert")
      (str "ssh-rsa")
      []
      (str "cfg")
      (set_all
        (put (str "OPKSSH_PLUGIN_CONFIG") (str "cfg") tokens)
        (clear_inherited inherited inherited)).1
Sees-set_all_example =
    Sees-set_all lib pkt [] (str "root") (str "cert") (str "ssh-rsa") [] (str "cfg") tokens
      inherited populated all_set
