-- ===== src/Tests/Client.antt =====
-- The theorems on login and on the providers of a client, at concrete inputs.
use opkssh.Base.{
  ℕ, true, false, List, [], ◌∷◌, ◌++◌, ◌≡◌, ◌↔◌, inl, inr, refl, ap, ◌∙◌, arith, Option, none, some,
  Str, str, ◌==◌, str_eq, str_beq, if◌then◌else◌, Result, ok, ℤ, pos, then_do, Option-cases,
}
use opkssh.Text.{split, join, has_prefix, includes}
use opkssh.Files.Memory.{
  Files, lookup, write, read_memory, stat_memory, info_of, lookup-write, memory-IsLawful,
}
use opkssh.Files.Others.{memory-KeepsOthers, lookup-write_other}
use opkssh.Login.{ecdsa}
use opkssh.Login.Lifetime.{resolve_agent_lifetime_secs, Lasts, resolve_agent_lifetime_secs_iff}
use opkssh.Login.Keys.{Token, make_ssh_key_file_name, write_keys_to_destination}
use opkssh.Login.Kept.{Has-write_keys_to_destination}
use opkssh.Login.FileName.{IsFileName, make_ssh_key_file_name-IsFileName}
use opkssh.Files.{FsError, FileInfo}
use opkssh.Login.Configure.{configure_ssh, check_ssh_configured}
use opkssh.Login.Configured.{OpensAndKeeps, check-configure_ssh}
use opkssh.Login.Provider.{Environment, Request, determine_provider}
use opkssh.Login.Chooser.{Sound, Sound-determine_provider}
use opkssh.ClientConfig.{ProviderConfig, create_providers_map, providers_config_list_from_strings}
use opkssh.ClientConfig.Op.{Process}
use opkssh.ClientConfig.Aliases.{Created, create_providers_map_lem}
use opkssh.ClientConfig.Parse.{
  Entry, entry_text, config_of_entry, IsWritable, providers_config_list-join,
}
use opkssh.Tests.Setup.{google, client, key_file}

abbrev durations : Str → Option ℤ
durations s = if s == str "8h" then some (pos 28800000000000) else none

abbrev numbers : Str → Option ℤ
numbers s = if s == str "60" then some (pos 60) else none

resolve_agent_lifetime_secs_iff_example :
    (resolve_agent_lifetime_secs durations numbers (str " 8h ") none ≡ ok 28800)
    ↔ Lasts durations numbers (str " 8h ") none 28800
resolve_agent_lifetime_secs_iff_example =
    resolve_agent_lifetime_secs_iff durations numbers (str " 8h ") none 28800

abbrev token : Token
token = record { issuer = some google; audience = some (str "a client/with a long name") }

make_ssh_key_file_name-IsFileName_example : IsFileName (make_ssh_key_file_name token)
make_ssh_key_file_name-IsFileName_example = make_ssh_key_file_name-IsFileName token

-- A key of the user and its certificate stand under the first name.
abbrev own_key : Files
own_key =
    (key_file, record { content = str "own"; mode = 0o600 })
    ∷ (key_file ++ str "-cert.pub", record { content = str "own me@host"; mode = 0o644 })
    ∷ []

Has-write_keys_to_destination_example :
    read_memory (
      lookup key_file
        (write_keys_to_destination client
          (str "secret")
          (str "secret")
          []
          false
          ecdsa
          token
          own_key).1)
    ≡ ok (str "own")
unfolding lookup read_memory join split str_beq
Has-write_keys_to_destination_example =
    Has-write_keys_to_destination client (str "secret") (str "secret") key_file (str "own")
      memory-KeepsOthers [] false ecdsa token own_key
      (
        inr (
          (λ e. ground arith),
          inr (
              inr (
                inr
                  (str "own me@host", (str "own", str "me@host"), refl, refl, λ e. ground arith))),
        ),
        (inl ((λ e. ground arith), λ e. ground arith), tt),
      )
      refl

abbrev process : Process
process = record {
  get_env = λ variable. [];
  has_github_op = false;
  forgejo_op_issuer = none;
  is_forgejo_issuer = λ issuer. false;
}

abbrev environment : Environment
environment = record {
  process = process;
  lookup_env = λ variable. none;
  forgejo_issuer_of = λ url. none;
  host_of = λ url. none;
  to_upper = λ s. s;
  to_lower = λ s. s;
}

abbrev google_entry : Entry
google_entry = record {
  alias = str "google";
  issuer = google;
  client_id = str "app";
  client_secret = str "public";
  scope = str "openid";
  more_scopes = str "email" ∷ [];
}

abbrev providers : List ProviderConfig
providers = config_of_entry google_entry ∷ config_of_entry google_entry ∷ []

abbrev request : Request
request = record {
  provider_arg = [];
  provider_alias_arg = [];
  remote_redirect_uri = [];
  open_browser = true;
  default_provider = [];
  providers = providers;
}

Sound-determine_provider_example :
    Sound environment request (determine_provider environment request)
Sound-determine_provider_example = Sound-determine_provider environment request

create_providers_map_lem_example : Created providers (create_providers_map providers)
create_providers_map_lem_example = create_providers_map_lem providers

google_IsWritable : IsWritable google_entry
unfolding join has_prefix str_beq
google_IsWritable = record {
  no_comma = ground arith;
  no_blank = ground arith;
  no_semicolon = ground arith;
  has_client_id = ground arith;
  has_secret = inr (ground arith);
}

providers_config_list-join_example :
    providers_config_list_from_strings (join (entry_text google_entry ∷ []) (str ";"))
    ≡ ok (config_of_entry google_entry ∷ [])
providers_config_list-join_example =
    providers_config_list-join google_entry [] (google_IsWritable, tt)

-- A file system that makes an empty file where none is.
abbrev open_create : Str → ℕ → Files → Result FsError (Unit {0}) × Files
open_create path mode s = elim (lookup path s) [
  | none ↦ (ok tt, write path [] mode s)
  | some f ↦ (ok tt, s)
]

there_after_open :
    (path : Str) (mode : ℕ) (s : Files)
    → (info : FileInfo) × (stat_memory path (lookup path (open_create path mode s).1) ≡ ok info)
unfolding stat_memory
there_after_open path mode s = elim (Option-cases (lookup path s)) [
  | inl e ↦ (
    info_of path (record { content = []; mode = mode }),
    ground (arith, e, lookup-write path [] mode s),
  )
  | inr (f, e) ↦ (info_of path f, ground arith)
]

opens_and_keeps : OpensAndKeeps client open_create
opens_and_keeps = record {
  opened = λ path mode s h. there_after_open path mode s;
  kept = λ path elsewhere content mode info s n h.
      ap (stat_memory path) (lookup-write_other path elsewhere content mode s n) ∙ h;
}

check-configure_ssh_example :
    check_ssh_configured client (configure_ssh client open_create []).1 ≡ true
unfolding configure_ssh join lookup read_memory includes has_prefix str_beq then_do write
check-configure_ssh_example =
    check-configure_ssh client open_create [] memory-IsLawful opens_and_keeps (λ e. ground arith)
      refl
