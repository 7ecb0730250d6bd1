-- ===== src/Tests/Plugins.antt =====
-- The theorems on policy plugins, on a machine with one plugin.
use opkssh.Base.{true, List, [], ◌∷◌, ◌≡◌, refl, arith, none, str, str_beq, All, any, ok}
use opkssh.Text.{has_prefix, has_suffix, split, trim_space}
use opkssh.Plugins.{PluginResult, EnvVars, returned, results_allowed, clear_inherited, set_all}
use opkssh.Plugins.Execution.{State, check_policies}
use opkssh.Plugins.Allowed.{IsBooked, results_allowed-check_policies}
use opkssh.Plugins.EnvVars.{get, get-set_all-clear_inherited}
use opkssh.Tests.Setup.{host, plugin_config}

abbrev before : State host
before = record { world = tt; env = []; tokens = [] }

abbrev after : State host
after = record {
  world = tt;
  env = (str "OPKSSH_PLUGIN_CONFIG", []) ∷ [];
  tokens = (str "OPKSSH_PLUGIN_CONFIG", []) ∷ [];
}

abbrev results : List PluginResult
results =
    record {
      path = str "dir/all.yml";
      config = plugin_config;
      error = none;
      command_run = str "/bin/echo" ∷ str "allow" ∷ [];
      policy_output = str "allow";
      allowed = true;
    }
    ∷ []

run : check_policies host (str "dir") before ≡ returned (ok (results, after))
unfolding check_policies has_suffix str_beq split trim_space
run = refl

results_allowed-check_policies_example :
    All (IsBooked host) results
    × (results_allowed results ≡ returned (any (λ (r : PluginResult). r.allowed) results))
results_allowed-check_policies_example =
    results_allowed-check_policies host (str "dir") before after results run

abbrev inherited : EnvVars
inherited = (str "OPKSSH_PLUGIN_U", str "mallory") ∷ (str "OPKSSH_PLUGIN_K", str "key") ∷ []

abbrev tokens : EnvVars
tokens = (str "OPKSSH_PLUGIN_U", str "alice") ∷ []

get-set_all-clear_inherited_example :
    get (str "OPKSSH_PLUGIN_U") (set_all tokens (clear_inherited inherited inherited)).1
    ≡ get (str "OPKSSH_PLUGIN_U") tokens
unfolding get set_all clear_inherited has_prefix str_beq
get-set_all-clear_inherited_example =
    get-set_all-clear_inherited (str "OPKSSH_PLUGIN_U") tokens inherited (refl, tt) refl
      (omega arith) refl
