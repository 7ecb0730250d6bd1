-- ===== src/ClientConfig/File.antt =====
-- The configuration file of a client: commands/config/client_config.go.
use opkssh.Base.{
  false, List, [], ◌∷◌, ◌≡◌, refl, ap, ◌∙◌, Option, none, some, Str, str, ◌==◌, str_eq,
  if◌then◌else◌, Result, ok, err, ◌>>=◌, wrap, then_do,
}
use opkssh.Files.{FsError, Fs}
use opkssh.Files.Load.{IsLawful}
use opkssh.ClientConfig.{ProviderConfig, ProviderConfigError, Aliases, create_providers_map}

pub record ClientConfig : Type 0 where
  pub default_provider : Str
  pub providers : List ProviderConfig
  pub agent_lifetime : Str

-- `c.GetProvidersMap()`
unfoldable pub get_providers_map : ClientConfig → Result ProviderConfigError Aliases
get_providers_map c = create_providers_map c.providers

-- `c.GetByIssuer(issuer)`
unfoldable pub first_with_issuer : Str → List ProviderConfig → Option ProviderConfig
first_with_issuer issuer [] = none
first_with_issuer issuer (p ∷ ps) =
    let rest = first_with_issuer issuer ps in if p.issuer == issuer then some p else rest

unfoldable pub get_by_issuer : ClientConfig → Str → Option ProviderConfig
unfolding first_with_issuer
get_by_issuer c issuer = first_with_issuer issuer c.providers

pub data FileError : Type 0 where
  no_home unparsed : FileError
  unreadable no_directory unwritable : FsError → FileError

-- The files, `os.UserHomeDir()`, `filepath.Join` and `filepath.Dir`, `yaml.Unmarshal` with the
-- decoder of a provider, and the default configuration that is built in.
module _ (fs : Fs) (home : Option Str) (join_path : List Str → Str) (dir_of : Str → Str)
    (unmarshal : Str → Option ClientConfig) (default_client_config : Str) where
  abbrev below_home : Option Str → Result FileError Str
  below_home none = err no_home
  below_home (some dir) = ok (join_path (dir ∷ str ".opk" ∷ str "config.yml" ∷ []))

  -- `ResolveClientConfigPath(&configPath)`
  unfoldable pub resolve_client_config_path : Str → Result FileError Str
  resolve_client_config_path path = if path == [] then below_home home else ok path

  abbrev parse_result : Option ClientConfig → Result FileError ClientConfig
  parse_result none = err unparsed
  parse_result (some c) = ok c

  abbrev parsed : Str → Result FileError ClientConfig
  parsed text = parse_result (unmarshal text)

  -- `GetClientConfigFromFile(configPath)`
  unfoldable pub get_client_config_from_file : Str → fs.State → Result FileError ClientConfig
  unfolding resolve_client_config_path
  get_client_config_from_file path s =
      resolve_client_config_path path >>= λ found. wrap unreadable (fs.read_file s found) >>= parsed

  -- `CreateDefaultClientConfig(configPath)`
  unfoldable pub create_default_client_config :
      Str → fs.State → Result FileError (Unit {0}) × fs.State
  create_default_client_config path s =
      then_do no_directory (fs.mkdir_all (dir_of path) 0o755 s)
        λ s. then_do unwritable (fs.write_file path default_client_config 0o644 s) λ s. (ok tt, s)

  same_state :
      {s t : fs.State}
      → ◌≡◌ {A = Result FileError (Unit {0}) × fs.State} (ok tt, s) (ok tt, t)
      → ◌≡◌ {A = Result FsError (Unit {0}) × fs.State} (ok tt, s) (ok tt, t)
  same_state h = ap (λ (r : Result FileError (Unit {0}) × fs.State). (ok tt, r.1)) h

  created :
      (path : Str) (s t : fs.State)
      → IsLawful fs
      → create_default_client_config path s ≡ (ok tt, t)
      → fs.read_file t path ≡ ok default_client_config
  unfolding create_default_client_config then_do
  created path s t lawful = after_mkdir (fs.mkdir_all (dir_of path) 0o755 s)
    where
      after_write :
          (u : fs.State) (w : Result FsError (Unit {0}) × fs.State)
          → fs.write_file path default_client_config 0o644 u ≡ w
          → then_do unwritable w (λ (s : fs.State). (ok tt, s)) ≡ (ok tt, t)
          → fs.read_file t path ≡ ok default_client_config
      after_write u (ok _, v) e h = lawful.read-write path _ 0o644 u t (e ∙ same_state h)
      after_write u (err e, v) f h = cc

      after_mkdir :
          (r : Result FsError (Unit {0}) × fs.State)
          → then_do no_directory r (λ s.
            then_do unwritable (fs.write_file path default_client_config 0o644 s) λ s. (ok tt, s))
            ≡ (ok tt, t)
          → fs.read_file t path ≡ ok default_client_config
      after_mkdir (ok _, u) h = after_write u _ refl h
      after_mkdir (err e, u) h = cc

  -- A default configuration that is created at a path is what a client then reads from it, if the
  -- text parses and the file system keeps the laws of a write.
  pub get-create_default_client_config :
      (path : Str) (s t : fs.State) (config : ClientConfig)
      → IsLawful fs
      → (path == []) ≡ false
      → unmarshal default_client_config ≡ some config
      → create_default_client_config path s ≡ (ok tt, t)
      → get_client_config_from_file path t ≡ ok config
  unfolding get_client_config_from_file
  get-create_default_client_config path s t config lawful given parses h =
      rw (given, created path s t lawful h) (ap parse_result parses)
