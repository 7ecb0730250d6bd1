-- ===== src/Plugins/Allowed.antt =====
-- The double-entry bookkeeping of `Allowed()`: its panic is out of reach.
use opkssh.Base.{
  false, List, [], ◌∷◌, ◌≡◌, ◌⊎◌, refl, subst, arith, Option, none, some, Str, str, str_eq,
  str_beq_iff, any, All, Result, ok, err, Bool-cases, Option-cases, inl, inr, ◌==◌,
}
use opkssh.Text.{trim_space}
use opkssh.Plugins.{
  PluginError, PluginResult, Run, returned, crash, results_allowed, Host, LoadPluginsError,
  load_plugins, continue_with,
}
use opkssh.Plugins.Fresh.{IsFresh, Ensures, AllFresh, load_plugins-AllFresh}
use opkssh.Plugins.Command.{Printed, IsRun, IsRun-execute_policy_command}
use opkssh.Plugins.Execution.{
  State, Executed, execute_policy_command, record_execution, run_plugins, run_loaded,
  check_policies,
}

-- What `Allowed()` expects of a result that allows access.
abbrev IsConsistent : PluginResult → Type 0
IsConsistent r = (r.allowed ≡ false) ⊎ ((r.policy_output ≡ str "allow") × (r.error ≡ none))

results_allowed_lem :
    (rs : List PluginResult)
    → All IsConsistent rs
    → results_allowed rs ≡ returned (any (λ (r : PluginResult). r.allowed) rs)
unfolding results_allowed
results_allowed_lem [] _ = refl
results_allowed_lem (r ∷ rs) (b, h) =
    ground (arith, results_allowed_lem rs h, str_beq_iff r.policy_output (str "allow"), b)

module _ (host : Host) where
  -- The command of the plugin of a result was run, ended without an error, and printed `allow`.
  pub record Allows (r : PluginResult) : Type 0 where
    pub output : Str
    pub printed : Printed host r.config.command output
    pub says_allow : trim_space output ≡ str "allow"
    pub recorded : r.policy_output ≡ str "allow"
    pub without_error : r.error ≡ none

  -- A plugin allows access only if its command was run and printed `allow`.
  abbrev pub IsBooked : PluginResult → Type 0
  IsBooked r = (r.allowed ≡ false) ⊎ Allows r

  IsConsistent-of_booked : (rs : List PluginResult) → All IsBooked rs → All IsConsistent rs
  IsConsistent-of_booked [] b = tt
  IsConsistent-of_booked (r ∷ rs) (inl f, bs) = (inl f, IsConsistent-of_booked rs bs)
  IsConsistent-of_booked (r ∷ rs) (inr a, bs) =
      (inr (a.recorded, a.without_error), IsConsistent-of_booked rs bs)

  IsFresh-IsBooked : (r : PluginResult) → IsFresh r → IsBooked r
  IsFresh-IsBooked r f = inl f

  record_execution-IsBooked :
      (r : PluginResult) (e : Executed host)
      → IsFresh r
      → ((e.error ≡ none) → Printed host r.config.command e.output)
      → IsBooked (record_execution host r e)
  unfolding record_execution
  record_execution-IsBooked r e f p = elim (Option-cases e.error) [
    | inr (c, h) ↦ rw (h, IsBooked) (inl f)
    | inl h ↦ elim (Bool-cases (trim_space e.output == str "allow")) [
      | inr n ↦ inl (ground (arith, h, n))
      | inl y ↦
          let says : trim_space e.output ≡ str "allow" =
            (str_beq_iff (trim_space e.output) (str "allow")).0 y in
          inr (
            rw h (record {
              output = e.output;
              printed = p h;
              says_allow = says;
              recorded = says;
              without_error = refl;
            }))
    ]
  ]

  abbrev AllBooked : List PluginResult × State host → Type 0
  AllBooked (rs, s) = All IsBooked rs

  Ensures-continue_with :
      {A B : Type 0} (P : A → Type 0) (Q : B → Type 0) (m : Run A) (f : A → Run B)
      → Ensures P m
      → ((a : A) → P a → Ensures Q (f a))
      → Ensures Q (continue_with m f)
  Ensures-continue_with P Q (returned a) f p k = k a p
  Ensures-continue_with P Q crash f p k = tt

  run_plugins-AllBooked :
      (rs : List PluginResult) (s : State host)
      → All IsFresh rs
      → Ensures AllBooked (run_plugins host rs s)
  unfolding run_plugins
  run_plugins-AllBooked [] s _ = tt
  run_plugins-AllBooked (r ∷ rs) s (f, h) = go r.error (λ t. run_plugins-AllBooked rs t h)
    where
      ran :
          (m : Run (Executed host × State host))
          → IsRun host r.config.command m
          → Ensures
              (λ ((e, t) : Executed host × State host).
                (e.error ≡ none) → Printed host r.config.command e.output)
              m
      ran crash p = tt
      ran (returned (e, t)) p = p

      go :
          (o : Option PluginError)
          → ((t : State host) → Ensures AllBooked (run_plugins host rs t))
          → Ensures AllBooked (elim o [
            | some _ ↦ continue_with (run_plugins host rs s) λ (done, t). returned (r ∷ done, t)
            | none ↦ continue_with (execute_policy_command host r.config s) λ (e, t).
                continue_with
                  (run_plugins host rs t)
                  λ (done, u). returned (record_execution host r e ∷ done, u)
          ])
      go (some e) ih =
          Ensures-continue_with AllBooked AllBooked (run_plugins host rs s) _ (ih s)
            (λ (done, t) b. (IsFresh-IsBooked r f, b))
      go none ih =
          Ensures-continue_with
            (λ ((e, t) : Executed host × State host).
              (e.error ≡ none) → Printed host r.config.command e.output)
            AllBooked (execute_policy_command host r.config s) _
            (ran (execute_policy_command host r.config s)
              (IsRun-execute_policy_command host r.config s))
            λ (e, t) p.
              Ensures-continue_with AllBooked AllBooked (run_plugins host rs t) _ (ih t)
                (λ (done, u) b. (record_execution-IsBooked r e f p, b))

  abbrev LoadedBooked : Result LoadPluginsError (List PluginResult × State host) → Type 0
  LoadedBooked (ok d) = AllBooked d
  LoadedBooked (err e) = Unit

  run_loaded-LoadedBooked :
      (s : State host) (l : Result LoadPluginsError (List PluginResult))
      → AllFresh host l
      → Ensures LoadedBooked (run_loaded host s l)
  unfolding run_loaded
  run_loaded-LoadedBooked s (err e) f = tt
  run_loaded-LoadedBooked s (ok rs) f =
      Ensures-continue_with AllBooked LoadedBooked (run_plugins host rs s) _
        (run_plugins-AllBooked rs s f) (λ (done, t) b. b)

  check_policies-LoadedBooked :
      (dir : Str) (s : State host) → Ensures LoadedBooked (check_policies host dir s)
  unfolding check_policies
  check_policies-LoadedBooked dir s =
      Ensures-continue_with (AllFresh host) LoadedBooked (load_plugins host dir s.world)
        (run_loaded host s) (load_plugins-AllFresh host dir s.world) (run_loaded-LoadedBooked s)

  -- Of the results that `checkPolicies` returns, those that allow access come from a process that
  -- was run with the words of the plugin's command, whose file passed the check of its
  -- permissions, that ended without an error, and whose output is `allow` up to white space. So `Allowed()` does not panic on them: it returns
  -- whether one of them allows access.
  pub results_allowed-check_policies :
      (dir : Str) (s t : State host) (rs : List PluginResult)
      → check_policies host dir s ≡ returned (ok (rs, t))
      → All IsBooked rs × (results_allowed rs ≡ returned (any (λ (r : PluginResult). r.allowed) rs))
  results_allowed-check_policies dir s t rs h =
      let b : All IsBooked rs =
        subst (Ensures LoadedBooked) h (check_policies-LoadedBooked dir s) in
      (b, results_allowed_lem rs (IsConsistent-of_booked rs b))
