-- ===== src/Tests/Config.antt =====
-- The theorem on the server configuration, for one that denies a user.
use opkssh.Base.{Bool, true, [], ◌∷◌, ◌≡◌, ◌↔◌, Option, some, Str, str, ok}
use opkssh.Files.Memory.{Files, memory}
use opkssh.Verify.{ServerConfig, Session, read_from_server_config}
use opkssh.Verify.Config.{Applies, read_from_server_config_iff}
use opkssh.Tests.Setup.{no_denials}

abbrev settable : Str → Str → Bool
settable k v = true

abbrev parse_config : Str → Option ServerConfig
parse_config text = some (record {
  env_vars = (str "PATH", str "/bin") ∷ [];
  deny_users = str "root" ∷ [];
  deny_emails = [];
})

abbrev before : Session
before = record { deny_list = no_denials; env = [] }

abbrev after : Session
after = record {
  deny_list = record { emails = []; users = str "root" ∷ [] };
  env = (str "PATH", str "/bin") ∷ [];
}

abbrev disk : Files
disk = (str "config.yml", record { content = str "text"; mode = 0o640 }) ∷ []

abbrev owned : Str → Option Str
owned path = some (str "root opksshuser")

read_from_server_config_iff_example :
    (read_from_server_config memory owned settable parse_config (str "config.yml") disk before
      ≡ (ok tt, after))
    ↔ Applies memory owned settable parse_config (str "config.yml") disk before after
read_from_server_config_iff_example =
    read_from_server_config_iff memory owned settable parse_config (str "config.yml") disk before
      after
