-- ===== src/Add.antt =====
-- `opkssh add`: commands/add.go.
pub mod Origin
pub mod Run
use opkssh.Base.{ℕ, Bool, true, false, List, [], ◌∷◌, Str, if◌then◌else◌, Result, ok, err}
use opkssh.ConfigLog.{ConfigLog}
use opkssh.Policy.{Policy, add_allowed_principal}
use opkssh.Files.{
  FsError, permission, LoadError, not_described, insecure, unreadable, describe_failed, CreateError,
  create_if_does_not_exist, mode_system_perms, mode_home_perms,
}
use opkssh.Loader.{
  Env, HomeError, load_system_policy, user_policy_path, load_home_policy, dump_policy,
}

pub data AddError : Type 0 where
  system_failed : LoadError → AddError
  home_failed : HomeError → AddError
  create_failed : CreateError → AddError
  write_failed : FsError → AddError

-- `errors.Is(err, os.ErrPermission)` for an error of `LoadSystemPolicy`.
unfoldable pub is_permission : LoadError → Bool
is_permission (not_described permission) = true
is_permission (insecure (describe_failed permission)) = true
is_permission (unreadable permission) = true
is_permission _ = false

abbrev required_of : Bool → ℕ
required_of use_system = if use_system then mode_system_perms else mode_home_perms

module _ (env : Env) (username : Str) where
  open env use {fs, system_path}

  abbrev home_path : Result HomeError Str → Result AddError (Str × Bool)
  home_path (err e) = err (home_failed e)
  home_path (ok path) = ok (path, false)

  abbrev path_of : Result LoadError Policy → Result AddError (Str × Bool)
  path_of (ok p) = ok (system_path, true)
  path_of (err e) =
      if is_permission e then home_path (user_policy_path env username) else err (system_failed e)

  -- `GetPolicyPath`; its arguments are not used. The flag is true for the system policy.
  unfoldable pub get_policy_path : fs.State → ConfigLog → Result AddError (Str × Bool) × ConfigLog
  unfolding is_permission
  get_policy_path s log = let (r, log1) = load_system_policy env s log in (path_of r, log1)

  abbrev from_home :
      Result HomeError (Policy × Str) × ConfigLog → Result AddError (Policy × Str) × ConfigLog
  from_home (err e, log) = (err (home_failed e), log)
  from_home (ok r, log) = (ok r, log)

  abbrev pub policy_of :
      fs.State → Result LoadError Policy × ConfigLog → Result AddError (Policy × Str) × ConfigLog
  policy_of s (ok p, log) = (ok (p, system_path), log)
  policy_of s (err e, log) =
      if is_permission e
      then from_home (load_home_policy env username false [] s log)
      else (err (system_failed e), log)

  -- `LoadPolicy()`
  unfoldable pub load_policy : fs.State → ConfigLog → Result AddError (Policy × Str) × ConfigLog
  unfolding is_permission
  load_policy s log = policy_of s (load_system_policy env s log)

  -- The path of the updated policy, or an error; the file system and the log.
  abbrev pub Outcome : Type 0
  Outcome = Result AddError Str × fs.State × ConfigLog

  module _ (principal email issuer : Str) where
    abbrev pub written : Str → ConfigLog → Result FsError (Unit {0}) × fs.State → Outcome
    written path log (err e, s) = (err (write_failed e), s, log)
    written path log (ok _, s) = (ok path, s, log)

    abbrev pub update : ℕ → fs.State → Result AddError (Policy × Str) × ConfigLog → Outcome
    update required s (err e, log) = (err e, s, log)
    update required s (ok (p, path), log) =
        written path log
          (dump_policy env required (add_allowed_principal principal email issuer p) path s)

    abbrev pub created : ℕ → ConfigLog → Result CreateError (Unit {0}) × fs.State → Outcome
    created required log (err e, s) = (err (create_failed e), s, log)
    created required log (ok _, s) = update required s (load_policy s log)

    abbrev pub run_at : fs.State → Result AddError (Str × Bool) × ConfigLog → Outcome
    run_at s (err e, log) = (err e, s, log)
    run_at s (ok (path, use_system), log) =
        created (required_of use_system) log
          (create_if_does_not_exist fs env.dir_of (required_of use_system) path s)

    -- `Run(principal, userEmail, issuer)`
    unfoldable pub run : fs.State → ConfigLog → Outcome
    run s log = run_at s (get_policy_path s log)
