-- ===== src/Tests/Setup.antt =====
-- Concrete functions in place of the libraries, and a small installation.
use opkssh.Base.{
  ℕ, true, false, List, [], ◌∷◌, ◌++◌, Option, none, some, Str, str, ◌==◌, str_eq, ok,
}
use opkssh.Text.{split, join}
use opkssh.Table.{Shell}
use opkssh.Policy.{User, Policy}
use opkssh.Files.{FileInfo, passed}
use opkssh.Files.Memory.{Files, memory}
use opkssh.Loader.{Env}
use opkssh.Plugins.{Host, PluginConfig, returned}
use opkssh.Enforcer.{Unicode, Json, CheckedClaims, DenyList}
use opkssh.SshCert.{Crypto, Certificate}
use opkssh.Verify.{Deps}
use opkssh.Login.{Ssh, Client}

-- Quoting that knows no quotes: words between single spaces.
abbrev pub spaces : Shell
spaces = record { split = λ s. some (split s b' '); join = λ ss. join ss (str " ") }

-- Unicode, as far as lower case ASCII goes.
abbrev pub lower_case : Unicode
lower_case = record {
  equal_fold = λ s t. s == t;
  to_lower = λ s. s;
  path_match = λ pattern s. some (pattern == s);
}

abbrev pub pair_of : List Str → Option (Str × Str)
pair_of (email ∷ sub ∷ []) = some (email, sub)
pair_of _ = none

-- A payload is an email and a subject; everybody is in one group.
abbrev pub words : Json
words = record {
  Value = Str;
  email_and_sub = λ s. pair_of (split s b' ');
  fields = λ s. some ((str "group", str "admins") ∷ []);
  as_string = λ v. some v;
  as_list = λ v. none;
  sprint = λ v. v;
}

abbrev pub google : Str
google = str "https://accounts.google.com"

abbrev pub alice_email : Str
alice_email = str "alice@example.com"

abbrev pub system_file : Str
system_file = str "/etc/opk/auth_id"

abbrev pub home_file : Str
home_file = str "/home/alice/.opk/auth_id"

-- Root lets Alice in as root; her own file lets Bob in as her, and, in vain, as root.
abbrev pub files : Files
files =
    (
      system_file,
      record { content = str "root alice@example.com https://accounts.google.com"; mode = 0o640 },
    )
    ∷ (
      home_file,
      record {
        content =
            str "alice bob@example.com https://accounts.google.com"
            ++ b'\n' ∷ str "root bob@example.com https://accounts.google.com";
        mode = 0o600;
      },
    )
    ∷ []

abbrev pub env : Env
env = record {
  fs = memory;
  run_stat = λ path. some (str "root root");
  shell = spaces;
  home_of = λ user. some (str "/home/" ++ user);
  join_path = λ parts. join parts (str "/");
  dir_of = λ path. path;
  system_path = system_file;
}

abbrev pub no_script : Str → Option Str
no_script user = none

abbrev pub plain : List ℕ → FileInfo
plain path = record { mode = 0o640; is_dir = false; name = path }

-- A machine with one plugin, which allows every login.
abbrev pub plugin_config : PluginConfig
plugin_config = record { name = str "all"; command = str "/bin/echo allow" }

abbrev pub host : Host
host = record {
  World = Unit;
  check = λ w path modes. passed;
  read_dir = λ w dir. ok (str "all.yml" ∷ []);
  stat = λ w path. ok (plain path);
  read_file = λ w path. ok [];
  exec = λ name args vars w. (str "allow", false, w);
  parse_yaml = λ s. some plugin_config;
  marshal_yaml = λ config. some [];
  base64 = λ s. s;
  shell_split = λ s. some (split s b' ');
  join_path = λ dir name. dir ++ b'/' ∷ name;
}

-- A token, and each of its keys, is its own text.
abbrev pub texts : Crypto
texts = record {
  Pkt = Str;
  Key = Str;
  SshKey = Str;
  Jwk = Str;
  decode = λ s. some s;
  compact = λ s. some s;
  email_of = λ s. some s;
  user_key = λ s. some s;
  ssh_key = λ s. some s;
  crypto_key = λ s. some s;
  import_key = λ s. some s;
  same_key = λ s t. s == t;
  verify = λ s. true;
}

abbrev pub certificate : Certificate Str
certificate = record {
  key = str "token";
  key_id = str "token";
  valid_principals = str "alice" ∷ str "root" ∷ [];
  extensions = (str "openpubkey-pkt", str "token") ∷ [];
  signature_key = str "ca";
}

abbrev pub deps : Deps texts
deps = record {
  parse_cert = λ typ text. some certificate;
  user_info_lookup = λ pkt token. none;
  check = λ user pkt info text typ deny extra. returned (ok tt);
}

abbrev pub no_denials : DenyList
no_denials = record { emails = []; users = [] }

abbrev pub alice_claims : CheckedClaims
alice_claims = record {
  email = alice_email;
  sub = str "1";
  extra_claims = (str "group", str "admins" ∷ []) ∷ [];
}

abbrev pub alice_row : User
alice_row = record {
  identity_attribute = alice_email;
  principals = str "root" ∷ [];
  issuer = google;
}

abbrev pub alice_policy : Policy
alice_policy = record { users = alice_row ∷ [] }

-- A key is one word; a certificate is the word of its key and a comment.
abbrev pub word_keys : Ssh
word_keys = record {
  PublicKey = Str;
  parse_authorized_key = λ s. pair_of (split s b' ');
  parse_private_key = λ s. some s;
  certificate_key = λ k. some k;
  key_type = λ k. [];
  marshal = λ k. k;
}

abbrev pub client : Client
client = record {
  fs = memory;
  ssh = word_keys;
  home = some (str "/home/alice");
  join_path = λ parts. join parts (str "/");
}

abbrev pub key_file : Str
key_file = str "/home/alice/.ssh/id_ecdsa"
