-- ===== src/Permissions/Right.antt =====
-- A fix that reports success has set the permissions of the system files.
use opkssh.Base.{
  Bool, true, false, [], ◌∷◌, ◌≡◌, ◌≢◌, ◌⊎◌, inl, inr, refl, subst, ap, Option, none, some, Str, ok,
}
use opkssh.Files.{passed}
use opkssh.Permissions.Problems.{check_at}
use opkssh.Permissions.{
  system_file_perms, System, Progress, Outcome, missing, with_policy, with_providers, with_config,
  with_directory, execute, reported, elevated, fix, config_file, plugins_dir,
}
use opkssh.Permissions.Keeps.{
  IsLawful, Correct, Correct-check, Apart, Correct-fix_plugins_dir, Correct-if_present,
  Correct-mkdir_step,
}
use opkssh.Permissions.Fixed.{
  set_perms-Correct, if_present-Correct, mkdir_clean, fix_plugins_dir_clean,
}

module _ (host : System) (s : host.fs.State) where
  open host use {fs}

  -- The paths of the system files are different, and none is that of a plugin in the directory.
  pub record Separate : Type 0 where
    pub policy_providers : host.system_policy ≢ host.providers_file
    pub policy_config : host.system_policy ≢ config_file host
    pub providers_config : host.providers_file ≢ config_file host
    pub apart :
        (path : Str)
        → (path ≡ host.system_policy) ⊎ (path ≡ host.providers_file) ⊎ (path ≡ config_file host)
        → Apart host path (host.readdir (with_directory host s).1 (plugins_dir host))

  -- The state in which the providers file and the configuration are looked for.
  abbrev pub RightOrMissing : Str → fs.State → fs.State → Type 0
  RightOrMissing path before t =
      (missing host (fs.stat before path) ≡ true)
      ⊎ (check_at host system_file_perms path t ≡ passed)

  pub record Right (t : fs.State) : Type 0 where
    pub policy : check_at host system_file_perms host.system_policy t ≡ passed
    pub providers : RightOrMissing host.providers_file (with_policy host s).1 t
    pub config : RightOrMissing (config_file host) (with_providers host s).1 t

  module _ (laws : IsLawful host) (separate : Separate) where
    -- From the step for the configuration to the end.
    to_the_end :
        (path : Str)
        → (path ≡ host.system_policy) ⊎ (path ≡ host.providers_file) ⊎ (path ≡ config_file host)
        → Correct host system_file_perms path (with_config host s).1
        → Correct host system_file_perms path (execute host s).1
    unfolding execute with_directory
    to_the_end path which c =
        Correct-fix_plugins_dir host laws system_file_perms path (with_directory host s)
          (separate.apart path which)
          (Correct-mkdir_step host laws system_file_perms path (plugins_dir host) 0o750
            (with_config host s) c)

    at_the_end :
        (path : Str)
        → (path ≡ host.system_policy) ⊎ (path ≡ host.providers_file) ⊎ (path ≡ config_file host)
        → Correct host system_file_perms path (with_config host s).1
        → check_at host system_file_perms path (execute host s).1 ≡ passed
    at_the_end path which c = Correct-check host system_file_perms path _ (to_the_end path which c)

    through_config :
        (path : Str)
        → path ≢ config_file host
        → Correct host system_file_perms path (with_providers host s).1
        → Correct host system_file_perms path (with_config host s).1
    unfolding with_config
    through_config path n c =
        Correct-if_present host laws system_file_perms path (config_file host)
          (with_providers host s) n c

    through_providers :
        (path : Str)
        → path ≢ host.providers_file
        → Correct host system_file_perms path (with_policy host s).1
        → Correct host system_file_perms path (with_providers host s).1
    unfolding with_providers
    through_providers path n c =
        Correct-if_present host laws system_file_perms path host.providers_file (with_policy host s)
          n c

    Right-execute : (execute host s).0 ≡ [] → Right (execute host s).1
    unfolding execute with_directory with_config with_providers with_policy
    Right-execute h =
        let clean_dir = fix_plugins_dir_clean host laws (with_directory host s) h in
        let clean_config =
          mkdir_clean host laws (plugins_dir host) 0o750 (with_config host s) clean_dir in
        let (clean_providers, config) =
          if_present-Correct host laws (config_file host) (with_providers host s) clean_config in
        let (clean_policy, providers) =
          if_present-Correct host laws host.providers_file (with_policy host s) clean_providers in
        let (_, policy) = set_perms-Correct host laws host.system_policy _ clean_policy in
        record {
          policy = at_the_end _ (inl refl) (
              through_config _ separate.policy_config
                (through_providers _ separate.policy_providers policy));
          providers = elim providers [
            | inl m ↦ inl m
            | inr c ↦
                inr (at_the_end _ (inr (inl refl)) (through_config _ separate.providers_config c))
          ];
          config = elim config [ inl m ↦ inl m | inr c ↦ inr (at_the_end _ (inr (inr refl)) c) ];
        }

    Right-reported :
        (p : Progress host) (t : fs.State)
        → ((p.0 ≡ []) → Right p.1)
        → reported host false p ≡ (ok tt, t)
        → Right t
    Right-reported ([], u) t right h = subst Right (ap (λ (o : Outcome host). o.1) h) (right refl)
    Right-reported (e ∷ es, u) t right h = cc

    Right-elevated :
        (assume_yes : Bool) (is_elevated confirm : Option Bool) (t : fs.State)
        → elevated host assume_yes false s confirm is_elevated ≡ (ok tt, t)
        → Right t
    Right-elevated assume_yes none confirm t h = cc
    Right-elevated assume_yes (some false) confirm t h = cc
    Right-elevated true (some true) confirm t h = Right-reported (execute host s) t Right-execute h
    Right-elevated false (some true) none t h = cc
    Right-elevated false (some true) (some false) t h = cc
    Right-elevated false (some true) (some true) t h =
        Right-reported (execute host s) t Right-execute h

    -- After a fix that is no dry run, does not print JSON and returns no error, the policy, and the
    -- providers file and the configuration where they are there when their turn comes, pass
    -- `CheckPerm` for the bits 0640, the owner root and the group opksshuser. The paths are different,
    -- and the operations keep their laws.
    pub Right-fix :
        (assume_yes : Bool) (is_elevated confirm : Option Bool) (t : fs.State)
        → fix host false assume_yes false is_elevated confirm s ≡ (ok tt, t)
        → Right t
    unfolding fix
    Right-fix assume_yes is_elevated confirm t h = Right-elevated assume_yes is_elevated confirm t h
