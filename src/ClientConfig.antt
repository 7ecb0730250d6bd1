-- ===== src/ClientConfig.antt =====
-- How a client knows its providers: commands/config/providerconfig.go.
pub mod Aliases
pub mod Op
pub mod Parse
pub mod File
use opkssh.Base.{
  Bool, true, false, not, ◌&&◌, ◌||◌, List, [], ◌∷◌, ◌++◌, Option, none, some, Str, str, ◌==◌,
  str_eq, contains, if◌then◌else◌, Result, ok, err, ◌>>=◌, wrap,
}
use opkssh.Text.{split, has_prefix, trim_suffix}

pub record ProviderConfig : Type 0 where
  pub alias_list : List Str
  pub issuer : Str
  pub client_id : Str
  pub client_secret : Str
  pub scopes : List Str
  pub access_type : Str
  pub prompt : Str
  pub redirect_uris : List Str
  pub remote_redirect_uri : Str
  pub send_access_token : Bool

abbrev pub redirect_uris_default : List Str
redirect_uris_default =
    str "http://localhost:3000/login-callback"
    ∷ str "http://localhost:10001/login-callback"
    ∷ str "http://localhost:11110/login-callback"
    ∷ []

-- `DefaultProviderConfig()`
abbrev pub default_provider_config : ProviderConfig
default_provider_config = record {
  alias_list = [];
  issuer = [];
  client_id = [];
  client_secret = [];
  scopes = str "openid" ∷ str "email" ∷ [];
  access_type = str "offline";
  prompt = str "consent";
  redirect_uris = redirect_uris_default;
  remote_redirect_uri = [];
  send_access_token = false;
}

abbrev pub cicd_unused_client_id : Str
cicd_unused_client_id = str "unused"

abbrev pub gitlab_ci_alias : Str
gitlab_ci_alias = str "gitlab-ci"

abbrev pub github_issuer : Str
github_issuer = str "https://token.actions.githubusercontent.com"

-- The configuration of a provider for workflows, with Go's zero values elsewhere.
abbrev cicd_config : List Str → Str → ProviderConfig
cicd_config aliases issuer = record {
  alias_list = aliases;
  issuer = issuer;
  client_id = cicd_unused_client_id;
  client_secret = [];
  scopes = [];
  access_type = [];
  prompt = [];
  redirect_uris = [];
  remote_redirect_uri = [];
  send_access_token = false;
}

-- `GitHubProviderConfig()`, `ForgejoProviderConfig(issuer)` and `GitlabCiProviderConfig(issuer)`
unfoldable pub github_provider_config : ProviderConfig
github_provider_config = cicd_config (str "github" ∷ []) github_issuer

unfoldable pub forgejo_provider_config : Str → ProviderConfig
forgejo_provider_config issuer = cicd_config (str "forgejo" ∷ str "codeberg" ∷ []) issuer

unfoldable pub gitlab_ci_provider_config : Str → ProviderConfig
gitlab_ci_provider_config issuer = cicd_config (gitlab_ci_alias ∷ []) issuer

pub data ProviderConfigError : Type 0 where
  too_few_parts no_client_id no_google_secret : ProviderConfigError
  duplicate_alias : Str → ProviderConfigError

-- What the parts of the text set.
abbrev pub secret_of : List Str → Str
secret_of [] = []
secret_of (secret ∷ more) = secret

abbrev pub scopes_of : List Str → List Str
scopes_of (secret ∷ scopes ∷ more) = split scopes b' '
scopes_of _ = str "openid" ∷ str "email" ∷ []

abbrev pub google_issuer : Str
google_issuer = str "https://accounts.google.com"

abbrev pub with_google_secret : ProviderConfig → Result ProviderConfigError ProviderConfig
with_google_secret c =
    if has_prefix c.issuer google_issuer && c.client_secret == []
    then err no_google_secret
    else ok c

abbrev pub from_parts : Str → List Str → Result ProviderConfigError ProviderConfig
from_parts alias (issuer ∷ client_id ∷ more) =
    if client_id == []
    then err no_client_id
    else with_google_secret (record default_provider_config {
      alias_list = alias ∷ [];
      issuer = issuer;
      client_id = client_id;
      client_secret = secret_of more;
      scopes = scopes_of more;
    })
from_parts alias _ = err too_few_parts

abbrev pub from_split : Bool → List Str → Result ProviderConfigError ProviderConfig
from_split true (alias ∷ parts) = from_parts alias parts
from_split true [] = err too_few_parts
from_split false parts = from_parts [] parts

-- `NewProviderConfigFromString(configStr, hasAlias)`
unfoldable pub new_provider_config_from_string :
    Str → Bool → Result ProviderConfigError ProviderConfig
new_provider_config_from_string config_str has_alias = from_split has_alias (split config_str b',')

abbrev pub all_from_strings : List Str → Result ProviderConfigError (List ProviderConfig)
all_from_strings [] = ok []
all_from_strings (s ∷ ss) =
    let rest = all_from_strings ss in
    new_provider_config_from_string s true >>= λ c. rest >>= λ cs. ok (c ∷ cs)

-- `ProvidersConfigListFromStrings(providerList)`
unfoldable pub providers_config_list_from_strings :
    Str → Result ProviderConfigError (List ProviderConfig)
unfolding new_provider_config_from_string
providers_config_list_from_strings provider_list = all_from_strings (split provider_list b';')

abbrev env_list : Option Str → Result ProviderConfigError (Option (List ProviderConfig))
env_list none = ok none
env_list (some s) =
    if s == [] then ok none else providers_config_list_from_strings s >>= λ cs. ok (some cs)

-- `GetProvidersConfigFromEnv()`, for the value of the variable. A nil list is `none`.
unfoldable pub get_providers_config_from_env :
    Option Str → Result ProviderConfigError (Option (List ProviderConfig))
unfolding providers_config_list_from_strings
get_providers_config_from_env value = env_list value

-- A Go map from aliases: a list of keys with values, of which the first of a key counts.
abbrev pub Aliases : Type 0
Aliases = List (Str × ProviderConfig)

unfoldable pub lookup_alias : Str → Aliases → Option ProviderConfig
lookup_alias alias [] = none
lookup_alias alias ((a, c) ∷ m) =
    let rest = lookup_alias alias m in if a == alias then some c else rest

abbrev pub add_alias :
    ProviderConfig → Str → Aliases → Option ProviderConfig → Result ProviderConfigError Aliases
add_alias c alias m none = ok ((alias, c) ∷ m)
add_alias c alias m (some _) = err (duplicate_alias alias)

-- The loop over the aliases of a provider.
unfoldable pub add_aliases :
    ProviderConfig → List Str → Aliases → Result ProviderConfigError Aliases
unfolding lookup_alias
add_aliases c [] m = ok m
add_aliases c (alias ∷ more) m = add_alias c alias m (lookup_alias alias m) >>= add_aliases c more

unfoldable pub add_configs : List ProviderConfig → Aliases → Result ProviderConfigError Aliases
unfolding add_aliases
add_configs [] m = ok m
add_configs (c ∷ cs) m = add_aliases c c.alias_list m >>= add_configs cs

-- `CreateProvidersMap(providerConfigList)`
unfoldable pub create_providers_map : List ProviderConfig → Result ProviderConfigError Aliases
unfolding add_configs
create_providers_map configs = add_configs configs []
