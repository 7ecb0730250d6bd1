-- ===== src/Plugins/Execution.antt =====
-- The run of the plugin commands: `executePolicyCommand` and `checkPolicies` of
-- policy/plugins/plugins.go.
use opkssh.Base.{
  Bool, List, [], ◌∷◌, Option, none, some, Str, str, ◌==◌, nat_eq, str_eq, if◌then◌else◌, Result,
  ok, err,
}
use opkssh.Text.{trim_space}
use opkssh.Files.{passed, refused, panicked}
use opkssh.Plugins.{
  PluginConfig, CommandError, config_not_marshalled, bad_quoting, exec_failed, setenv_failed,
  insecure_command, command_failed, PluginResult, Run, returned, crash, continue_with,
  required_policy_cmd_perms, EnvVars, put, clear_inherited, set_all, Host, LoadPluginsError,
  load_plugins,
}

module _ (host : Host) where
  open host use {World}

  -- The machine, the environment of the process and the map of tokens.
  pub record State : Type 0 where
    pub world : World
    pub env : EnvVars
    pub tokens : EnvVars

  -- What `executePolicyCommand` returns: the command, its output and the error.
  pub record Executed : Type 0 where
    pub command : List Str
    pub output : Str
    pub error : Option CommandError

  abbrev pub stopped : CommandError → State → Run (Executed × State)
  stopped e s = returned (record { command = []; output = []; error = some e }, s)

  abbrev pub executed : List Str → State → Str × Bool × World → Executed × State
  executed words s (output, fails, w) = (
    record { command = words; output = output; error = if fails then some exec_failed else none },
    record s { world = w },
  )

  -- From the index expression `command[0]` on.
  unfoldable pub run_words : State → List Str → Run (Executed × State)
  run_words s [] = crash
  run_words s (name ∷ args) = elim (host.check s.world name required_policy_cmd_perms) [
    | panicked ↦ crash
    | refused e ↦ stopped (insecure_command e) s
    | passed ↦ returned (executed (name ∷ args) s (host.exec name args s.env s.world))
  ]

  abbrev pub with_env : Str → State → Option Str × EnvVars → Run (Executed × State)
  with_env command s (some k, env) = stopped (setenv_failed k) (record s { env = env })
  with_env command s (none, env) = elim (host.shell_split command) [
    | none ↦ stopped bad_quoting (record s { env = env })
    | some words ↦ run_words (record s { env = env }) words
  ]

  -- `executePolicyCommand(config, inputEnvVars)`
  unfoldable pub execute_policy_command : PluginConfig → State → Run (Executed × State)
  unfolding put clear_inherited set_all run_words
  execute_policy_command config s = elim (host.marshal_yaml config) [
    | none ↦ stopped config_not_marshalled s
    | some text ↦
        let tokens = put (str "OPKSSH_PLUGIN_CONFIG") (host.base64 text) s.tokens in
        with_env config.command (record s { tokens = tokens })
          (set_all tokens (clear_inherited s.env s.env))
  ]

  -- What a round of the loop of `checkPolicies` writes into the result.
  unfoldable pub record_execution : PluginResult → Executed → PluginResult
  record_execution r e =
      let output = trim_space e.output in
      let ran = record r { policy_output = output; command_run = e.command } in
      elim e.error [
        | some c ↦ record ran { error = some (command_failed c) }
        | none ↦ record ran { error = none; allowed = output == str "allow" }
      ]

  -- The loop of `checkPolicies`; a result with an error is left as it is.
  unfoldable pub run_plugins : List PluginResult → State → Run (List PluginResult × State)
  unfolding execute_policy_command record_execution
  run_plugins [] s = returned ([], s)
  run_plugins (r ∷ rs) s = elim r.error [
    | some _ ↦ continue_with (run_plugins rs s) λ (done, t). returned (r ∷ done, t)
    | none ↦ continue_with (execute_policy_command r.config s) λ (e, t).
        continue_with (run_plugins rs t) λ (done, u). returned (record_execution r e ∷ done, u)
  ]

  unfoldable pub run_loaded :
      State
      → Result LoadPluginsError (List PluginResult)
      → Run (Result LoadPluginsError (List PluginResult × State))
  run_loaded s (err e) = returned (err e)
  run_loaded s (ok results) =
      continue_with (run_plugins results s) λ (done, t). returned (ok (done, t))

  -- `checkPolicies(dir, tokens)`
  unfoldable pub check_policies :
      Str → State → Run (Result LoadPluginsError (List PluginResult × State))
  unfolding load_plugins run_plugins run_loaded
  check_policies dir s = continue_with (load_plugins host dir s.world) (run_loaded s)
