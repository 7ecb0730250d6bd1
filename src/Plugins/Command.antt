-- ===== src/Plugins/Command.antt =====
-- What stands behind a result of `executePolicyCommand` without an error.
use opkssh.Base.{
  Bool, true, false, List, [], ◌∷◌, ◌≡◌, refl, Option, none, some, Str, str, inl, inr, Option-cases,
}
use opkssh.Files.{Check, passed, refused, panicked}
use opkssh.Plugins.{
  PluginConfig, bad_quoting, insecure_command, EnvVars, put, Run, returned, crash,
  required_policy_cmd_perms, set_all, clear_inherited, Host,
}
use opkssh.Plugins.Execution.{
  State, Executed, stopped, run_words, executed, with_env, execute_policy_command,
}

module _ (host : Host) where
  -- A run of the command of a plugin: its words, the check of its file, and the process, with its
  -- environment, that ended without an error and with this output.
  pub record Printed (command output : Str) : Type 0 where
    pub name : Str
    pub args : List Str
    pub words : host.shell_split command ≡ some (name ∷ args)
    pub before : host.World
    pub secure : host.check before name required_policy_cmd_perms ≡ passed
    pub env : EnvVars
    pub after : host.World
    pub ended : host.exec name args env before ≡ (output, false, after)

  -- A result of the command counts: it has an error, or the command ran and printed the output.
  abbrev pub IsRun : Str → Run (Executed host × State host) → Type 0
  IsRun command crash = Unit
  IsRun command (returned (e, t)) = (e.error ≡ none) → Printed command e.output

  IsRun-executed :
      (command name : Str) (args : List Str) (s : State host) (out : Str × Bool × host.World)
      → host.shell_split command ≡ some (name ∷ args)
      → host.check s.world name required_policy_cmd_perms ≡ passed
      → host.exec name args s.env s.world ≡ out
      → IsRun command (returned (executed host (name ∷ args) s out))
  IsRun-executed command name args s (output, true, w) split c x h = absurd cc
  IsRun-executed command name args s (output, false, w) split c x h = record {
    name = name;
    args = args;
    words = split;
    before = s.world;
    secure = c;
    env = s.env;
    after = w;
    ended = x;
  }

  IsRun-run_words :
      (command : Str) (s : State host) (words : List Str)
      → host.shell_split command ≡ some words
      → IsRun command (run_words host s words)
  unfolding run_words
  IsRun-run_words command s [] split = tt
  IsRun-run_words command s (name ∷ args) split =
      go (host.check s.world name required_policy_cmd_perms) refl
    where
      go :
          (c : Check)
          → host.check s.world name required_policy_cmd_perms ≡ c
          → IsRun command (elim c [
            | panicked ↦ crash
            | refused e ↦ stopped host (insecure_command e) s
            | passed ↦ returned (executed host (name ∷ args) s (host.exec name args s.env s.world))
          ])
      go panicked c = tt
      go (refused e) c = λ h. absurd cc
      go passed c = IsRun-executed command name args s _ split c refl

  IsRun-with_env :
      (command : Str) (s : State host) (set : Option Str × EnvVars)
      → IsRun command (with_env host command s set)
  IsRun-with_env command s (some k, env) = λ h. absurd cc
  IsRun-with_env command s (none, env) = go (host.shell_split command) refl
    where
      t : State host
      t = record s { env = env }

      go :
          (o : Option (List Str))
          → host.shell_split command ≡ o
          → IsRun command
              (elim o [ none ↦ stopped host bad_quoting t | some words ↦ run_words host t words ])
      go none split = λ h. absurd cc
      go (some words) split = IsRun-run_words command t words split

  pub IsRun-execute_policy_command :
      (config : PluginConfig) (s : State host)
      → IsRun config.command (execute_policy_command host config s)
  unfolding execute_policy_command
  IsRun-execute_policy_command config s = elim (Option-cases (host.marshal_yaml config)) [
    | inl e ↦ rw (e, IsRun) (λ h. absurd cc)
    | inr (text, e) ↦
        rw (e, IsRun)
          (let tokens = put (str "OPKSSH_PLUGIN_CONFIG") (host.base64 text) s.tokens in
            IsRun-with_env config.command (record s { tokens = tokens })
              (set_all tokens (clear_inherited s.env s.env)))
  ]
