-- ===== src/Login/Provider.antt =====
-- Which provider a login goes to: `determineProvider` and `detectActionsEnvironment`.
use opkssh.Base.{
  Bool, true, false, not, ◌&&◌, ◌||◌, List, [], ◌∷◌, Option, none, some, Str, str, ◌==◌, str_eq,
  if◌then◌else◌, Result, ok, err, ◌>>=◌, wrap,
}
use opkssh.Text.{has_suffix}
use opkssh.ClientConfig.{
  ProviderConfig, ProviderConfigError, new_provider_config_from_string,
  get_providers_config_from_env, lookup_alias, create_providers_map,
}
use opkssh.ClientConfig.Op.{Op, is_browser, Process, OpError, is_cicd_provider, to_provider}

-- The process of a login: the issuer that the library reads from the URL for tokens of Forgejo,
-- the host of a URL, and the cases of letters.
pub record Environment : Type 0 where
  pub process : Process
  pub lookup_env : Str → Option Str
  pub forgejo_issuer_of : Str → Option Str
  pub host_of : Str → Option Str
  pub to_upper : Str → Str
  pub to_lower : Str → Str

-- The fields of `LoginCmd` and of its configuration that are read.
pub record Request : Type 0 where
  pub provider_arg : Str
  pub provider_alias_arg : Str
  pub remote_redirect_uri : Str
  pub open_browser : Bool
  pub default_provider : Str
  pub providers : List ProviderConfig

pub data ActionsEnv : Type 0 where
  no_actions github_actions : ActionsEnv
  forgejo_actions : Str → ActionsEnv

pub data Absence : Type 0 where
  use_forgejo not_in_github use_github not_in_forgejo not_in_gitlab replaced no_such_alias : Absence

pub data ChoiceError : Type 0 where
  argument_unparsed environment_unparsed no_map : ProviderConfigError → ChoiceError
  no_op : OpError → ChoiceError
  no_providers no_browser_providers : ChoiceError
  absent : Absence → ChoiceError
  not_for_browsers : Str → ChoiceError

-- A provider, or a page to choose one of several.
pub data Choice : Type 0 where
  single : Op → Choice
  chooser : List Op → Choice

abbrev pub with_redirect : Str → ProviderConfig → ProviderConfig
with_redirect uri c = if not (uri == []) then record c { remote_redirect_uri = uri } else c

abbrev url_variable : Str
url_variable = str "ACTIONS_ID_TOKEN_REQUEST_URL"

abbrev token_variable : Str
token_variable = str "ACTIONS_ID_TOKEN_REQUEST_TOKEN"

module _ (env : Environment) where
  open env use {process}

  -- `isActionsEnvironment()`
  unfoldable pub is_actions_environment : Bool
  is_actions_environment =
      not (process.get_env url_variable == []) && not (process.get_env token_variable == [])

  abbrev actions_of_host : Option Str → ActionsEnv
  actions_of_host none = no_actions
  actions_of_host (some host) =
      if has_suffix host (str "actions.githubusercontent.com") then github_actions else no_actions

  abbrev actions_of_url : Str → Option Str → ActionsEnv
  actions_of_url url none = actions_of_host (env.host_of url)
  actions_of_url url (some issuer) = forgejo_actions issuer

  -- `detectActionsEnvironment()`
  unfoldable pub detect_actions_environment : ActionsEnv
  unfolding is_actions_environment
  detect_actions_environment =
      if not is_actions_environment
      then no_actions
      else actions_of_url (process.get_env url_variable)
          (env.forgejo_issuer_of (process.get_env url_variable))

  abbrev github_absence : ActionsEnv → Option Absence
  github_absence no_actions = some not_in_github
  github_absence github_actions = none
  github_absence (forgejo_actions issuer) = some use_forgejo

  abbrev forgejo_absence : ActionsEnv → Option Absence
  forgejo_absence no_actions = some not_in_forgejo
  forgejo_absence github_actions = some use_github
  forgejo_absence (forgejo_actions issuer) = none

  abbrev if_cicd : Option Absence → Bool → Absence
  if_cicd (some a) from_env = a
  if_cicd none from_env = if from_env then replaced else no_such_alias

  -- Why an alias is not in the map. `from_env` tells that the variable gave the providers.
  unfoldable pub absence_of : Str → Bool → Absence
  unfolding detect_actions_environment
  absence_of alias from_env =
      if env.to_lower alias == str "github"
      then if_cicd (github_absence detect_actions_environment) from_env
      else if env.to_lower alias == str "forgejo" || env.to_lower alias == str "codeberg"
      then if_cicd (forgejo_absence detect_actions_environment) from_env
      else if env.to_lower alias == str "gitlab-ci"
      then if_cicd
          (if not (process.get_env (str "GITLAB_CI") == str "true")
            then some not_in_gitlab
            else none)
          from_env
      else no_such_alias

  module _ (request : Request) where
    open request use {remote_redirect_uri, open_browser}

    abbrev pub built : ProviderConfig → Result ChoiceError Op
    built c = wrap no_op (to_provider process (with_redirect remote_redirect_uri c) open_browser)

    abbrev pub by_alias : Str → Bool → Option ProviderConfig → Result ChoiceError Choice
    by_alias alias from_env none = err (absent (absence_of alias from_env))
    by_alias alias from_env (some c) = built c >>= λ op. ok (single op)

    -- The loop that collects the providers of the page.
    abbrev pub checked_browser : ProviderConfig → Op → Result ChoiceError Op
    checked_browser c op = if is_browser op then ok op else err (not_for_browsers c.issuer)

    unfoldable pub browser_ops : List ProviderConfig → Result ChoiceError (List Op)
    browser_ops [] = ok []
    browser_ops (c ∷ cs) =
        let rest = browser_ops cs in
        if is_cicd_provider process c
        then rest
        else (built c >>= checked_browser c) >>= λ op. rest >>= λ ops. ok (op ∷ ops)

    abbrev pub page : List Op → Result ChoiceError Choice
    page [] = err no_browser_providers
    page (op ∷ ops) = ok (chooser (op ∷ ops))

    unfoldable pub choose : Str → Bool → List ProviderConfig → Result ChoiceError Choice
    unfolding absence_of browser_ops
    choose alias from_env configs =
        if not (env.to_upper alias == str "WEBCHOOSER")
        then (wrap no_map (create_providers_map configs) >>= λ m.
            by_alias alias from_env (lookup_alias alias m))
        else browser_ops configs >>= page

    abbrev or_empty : Option Str → Str
    or_empty none = []
    or_empty (some s) = s

    -- The alias to look for.
    unfoldable pub default_alias : Str
    default_alias =
        let from_env = or_empty (env.lookup_env (str "OPKSSH_DEFAULT")) in
        if not (request.provider_alias_arg == [])
        then request.provider_alias_arg
        else if not (from_env == [])
        then from_env
        else if not (request.default_provider == [])
        then request.default_provider
        else str "WEBCHOOSER"

    abbrev pub from_config : List ProviderConfig → Result ChoiceError Choice
    from_config [] = err no_providers
    from_config (c ∷ cs) = choose default_alias false (c ∷ cs)

    abbrev pub choose_from : Option (List ProviderConfig) → Result ChoiceError Choice
    choose_from (some configs) = choose default_alias true configs
    choose_from none = from_config request.providers

    -- `determineProvider()`
    unfoldable pub determine_provider : Result ChoiceError Choice
    unfolding choose default_alias
    determine_provider =
        if not (request.provider_arg == [])
        then (wrap argument_unparsed (new_provider_config_from_string request.provider_arg false)
            >>= λ c. built c >>= λ op. ok (single op))
        else wrap environment_unparsed
            (get_providers_config_from_env (env.lookup_env (str "OPKSSH_PROVIDERS")))
          >>= choose_from
