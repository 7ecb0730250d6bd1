-- ===== src/Plugins.antt =====
-- Policy plugins: policy/plugins/plugins.go and pluginconfig.go.
pub mod Command
pub mod Fresh
pub mod Allowed
pub mod EnvVars
pub mod Execution
pub mod Tokens
pub mod Seen
use opkssh.Base.{
  ℕ, Bool, true, false, not, ◌&&◌, ◌||◌, List, [], ◌∷◌, ◌++◌, Option, none, some, Str, str, ◌==◌,
  nat_eq, str_eq, contains, if◌then◌else◌, head_or, Result, ok, err,
}
use opkssh.Text.{has_prefix, has_suffix, split, trim_space}
use opkssh.Files.{FsError, FileInfo, PermError, Check, passed, refused, panicked}

pub record PluginConfig : Type 0 where
  pub name : Str
  pub command : Str

-- Why a command was not run, or failed.
pub data CommandError : Type 0 where
  config_not_marshalled bad_quoting exec_failed : CommandError
  setenv_failed : Str → CommandError
  insecure_command : PermError → CommandError

pub data PluginError : Type 0 where
  insecure_config : PermError → PluginError
  unreadable_config : FsError → PluginError
  bad_yaml missing_name missing_command : PluginError
  command_failed : CommandError → PluginError

pub record PluginResult : Type 0 where
  pub path : Str
  pub config : PluginConfig
  pub error : Option PluginError
  pub command_run : List Str
  pub policy_output : Str
  pub allowed : Bool

-- A call that returns, or panics.
pub data Run {ℓ} (A : Type ℓ) : Type ℓ where
  returned : A → Run A
  crash : Run A

abbrev pub continue_with {ℓ κ} : {A : Type ℓ} {B : Type κ} → Run A → (A → Run B) → Run B
continue_with crash f = crash
continue_with (returned a) f = f a

-- `PluginResults.Allowed()`
unfoldable pub results_allowed : List PluginResult → Run Bool
results_allowed [] = returned false
results_allowed (r ∷ rs) =
    let rest = results_allowed rs in
    if r.allowed
    then (if not (r.policy_output == str "allow") then crash else returned true)
    else rest

-- `PluginResults.Errors()`
unfoldable pub results_errors : List PluginResult → List PluginError
results_errors [] = []
results_errors (r ∷ rs) = elim r.error [ none ↦ results_errors rs | some e ↦ e ∷ results_errors rs ]

abbrev pub required_policy_perms : List ℕ
required_policy_perms = 0o640 ∷ []

abbrev pub required_policy_dir_perms : List ℕ
required_policy_dir_perms = 0o700 ∷ 0o750 ∷ 0o755 ∷ []

abbrev pub required_policy_cmd_perms : List ℕ
required_policy_cmd_perms = 0o555 ∷ 0o755 ∷ []

-- The environment of the process, and the map of tokens: a list of names with their values.
abbrev pub EnvVars : Type 0
EnvVars = List (Str × Str)

unfoldable pub put : Str → Str → EnvVars → EnvVars
put k v [] = (k, v) ∷ []
put k v ((j, w) ∷ env) = if j == k then (k, v) ∷ env else (j, w) ∷ put k v env

-- `os.Unsetenv`
unfoldable pub unset : Str → EnvVars → EnvVars
unset k [] = []
unset k ((j, w) ∷ env) = let rest = unset k env in if j == k then rest else (j, w) ∷ rest

-- The names and values that `os.Setenv` accepts.
abbrev pub valid_var : Str → Str → Bool
valid_var k v =
    not (k == []) && (not (contains k b'=') && (not (contains k 0) && not (contains v 0)))

abbrev pub plugin_prefix : Str
plugin_prefix = str "OPKSSH_PLUGIN_"

-- The loop over `os.Environ()`, a copy of the environment at its start.
unfoldable pub clear_inherited : EnvVars → EnvVars → EnvVars
clear_inherited [] env = env
clear_inherited ((k, v) ∷ environ) env =
    let line = k ++ b'=' ∷ v in
    clear_inherited environ
      (if has_prefix line plugin_prefix then unset (head_or [] (split line b'=')) env else env)

-- The loop over the tokens; on an error the variables set so far stay set.
unfoldable pub set_all : EnvVars → EnvVars → Option Str × EnvVars
set_all [] env = (none, env)
set_all ((k, v) ∷ tokens) env =
    let rest = set_all tokens (put k v env) in if valid_var k v then rest else (some k, env)

-- What the plugin enforcer calls. `check` is `CheckPerm` for the owner root and any group, in the
-- state of the machine; `exec` runs a command under an environment and returns its output and
-- whether it failed.
pub record Host : Type 1 where
  pub World : Type 0
  pub check : World → Str → List ℕ → Check
  pub read_dir : World → Str → Result FsError (List Str)
  pub stat : World → Str → Result FsError FileInfo
  pub read_file : World → Str → Result FsError Str
  pub exec : Str → List Str → EnvVars → World → Str × Bool × World
  pub parse_yaml : Str → Option PluginConfig
  pub marshal_yaml : PluginConfig → Option Str
  pub base64 : Str → Str
  pub shell_split : Str → Option (List Str)
  pub join_path : Str → Str → Str

pub data LoadPluginsError : Type 0 where
  insecure_dir : PermError → LoadPluginsError
  dir_failed : FsError → LoadPluginsError

abbrev no_config : PluginConfig
no_config = record { name = []; command = [] }

abbrev fresh : Str → PluginResult
fresh path = record {
  path = path;
  config = no_config;
  error = none;
  command_run = [];
  policy_output = [];
  allowed = false;
}

abbrev failed : Str → PluginError → PluginResult
failed path e = record (fresh path) { error = some e }

module _ (host : Host) where
  open host use {World}

  abbrev config_result : Str → Option PluginConfig → PluginResult
  config_result path none = failed path bad_yaml
  config_result path (some cmd) =
      if cmd.name == []
      then failed path missing_name
      else if cmd.command == []
      then failed path missing_command
      else record (fresh path) { config = cmd }

  abbrev read_config : Str → Result FsError Str → PluginResult
  read_config path (err e) = failed path (unreadable_config e)
  read_config path (ok file) = config_result path (host.parse_yaml file)

  abbrev checked_config : World → Str → Check → Run PluginResult
  checked_config w path passed = returned (read_config path (host.read_file w path))
  checked_config w path (refused e) = returned (failed path (insecure_config e))
  checked_config w path panicked = crash

  abbrev listed : Run PluginResult → Run (Result LoadPluginsError (List PluginResult))
  listed crash = crash
  listed (returned r) = returned (ok (r ∷ []))

  -- What one entry of the directory adds to the results.
  pub load_entry :
      World → Str → Result FsError FileInfo → Run (Result LoadPluginsError (List PluginResult))
  load_entry w path (err e) = returned (err (dir_failed e))
  load_entry w path (ok info) =
      if not info.is_dir && has_suffix info.name (str ".yml")
      then listed (checked_config w path (host.check w path required_policy_perms))
      else returned (ok [])

  -- The loop of `loadPlugins` over the entries of the directory.
  pub load_entries :
      World → Str → List PluginResult → List Str → Run (Result LoadPluginsError (List PluginResult))
  load_entries w dir out [] = returned (ok out)
  load_entries w dir out (entry ∷ entries) =
      let path = host.join_path dir entry in
      elim (load_entry w path (host.stat w path)) [
        | crash ↦ crash
        | returned (err e) ↦ returned (err e)
        | returned (ok new) ↦ load_entries w dir (out ++ new) entries
      ]

  pub load_dir :
      World → Str → Result FsError (List Str) → Run (Result LoadPluginsError (List PluginResult))
  load_dir w dir (err e) = returned (err (dir_failed e))
  load_dir w dir (ok entries) = load_entries w dir [] entries

  -- `loadPlugins(dir)`
  unfoldable pub load_plugins : Str → World → Run (Result LoadPluginsError (List PluginResult))
  unfolding load_dir load_entries load_entry
  load_plugins dir w = elim (host.check w dir required_policy_dir_perms) [
    | panicked ↦ crash
    | refused e ↦ returned (err (insecure_dir e))
    | passed ↦ load_dir w dir (host.read_dir w dir)
  ]
