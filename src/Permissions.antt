-- ===== src/Permissions.antt =====
-- `opkssh permissions` on Unix: commands/permissions.go, policy/files/perminfo_unix.go, and `Chown`
-- and `CreateFileWithPerm` of policy/files/fileperms_ops.go.
pub mod Problems
pub mod Keeps
pub mod Fixed
pub mod Right
use opkssh.Base.{
  ℕ, suc, Bool, true, false, not, ◌&&◌, ◌||◌, List, [], ◌∷◌, ◌++◌, Option, none, some, Str, str,
  ◌==◌, str_eq, if◌then◌else◌, length, Result, ok, err, ◌>>=◌, wrap,
}
use opkssh.Text.{has_suffix}
use opkssh.Files.{
  FsError, FileInfo, Fs, Check, passed, refused, panicked, stat_failed, check_perm, exists_of,
  mode_system_perms,
}
use opkssh.Plugins.{required_policy_dir_perms}

-- `PermInfo`, less the flag `MustExist`, which nothing reads.
pub record PermInfo : Type 0 where
  pub mode : ℕ
  pub owner : Str
  pub group : Str

-- `RequiredPerms`: its entries for the policy, the providers and the configuration are the same.
abbrev pub system_file_perms : PermInfo
system_file_perms = record {
  mode = mode_system_perms;
  owner = str "root";
  group = str "opksshuser";
}

abbrev pub plugins_dir_perms : PermInfo
plugins_dir_perms = record { mode = 0o750; owner = str "root"; group = [] }

abbrev pub plugin_file_perms : PermInfo
plugin_file_perms = record { mode = mode_system_perms; owner = str "root"; group = [] }

-- The system: its files, the accounts with their numbers, and `stat -c '%U %G'`, which prints
-- names. `readdir` is `Readdir(-1)` of an opened directory, with what it lists before an error.
pub record System : Type 1 where
  pub fs : Fs
  pub os_chown : Str → ℕ → ℕ → fs.State → Result FsError (Unit {0}) × fs.State
  pub readdir : fs.State → Str → List FileInfo
  pub run_stat : fs.State → Str → Option Str
  pub lookup_user : Str → Option ℕ
  pub lookup_group : Str → Option ℕ
  pub dir_of : Str → Str
  pub join_path : List Str → Str
  pub system_policy : Str
  pub providers_file : Str
  pub config_base : Str

pub data ChangeError : Type 0 where
  unknown_account : Str → ChangeError
  fs_failed : FsError → ChangeError

pub data FixError : Type 0 where
  creating changing_mode changing_owner making_directory : Str → ChangeError → FixError

pub data PermissionsError : Type 0 where
  problems_found errors_found : ℕ → PermissionsError
  elevation_unknown not_elevated prompt_failed aborted crashed : PermissionsError

-- The number of an account; 0 where none is asked for.
abbrev pub id_of : (Str → Option ℕ) → Str → Result ChangeError ℕ
id_of lookup name =
    if name == []
    then ok 0
    else elim (lookup name) [ none ↦ err (unknown_account name) | some n ↦ ok n ]

module _ (host : System) where
  open host use {fs}

  abbrev pub config_file : Str
  config_file = host.join_path (host.config_base ∷ str "config.yml" ∷ [])

  abbrev pub plugins_dir : Str
  plugins_dir = host.join_path (host.config_base ∷ str "policy.d" ∷ [])

  abbrev pub Changed : Type 0
  Changed = Result ChangeError (Unit {0}) × fs.State

  abbrev pub change : Result FsError (Unit {0}) × fs.State → Changed
  change (r, s) = (wrap fs_failed r, s)

  abbrev pub with_ids : Str → fs.State → Result ChangeError ℕ → Result ChangeError ℕ → Changed
  with_ids path s (err e) gid = (err e, s)
  with_ids path s (ok uid) (err e) = (err e, s)
  with_ids path s (ok uid) (ok gid) = change (host.os_chown path uid gid s)

  -- `Chown(path, owner, group)`
  unfoldable pub chown : Str → Str → Str → fs.State → Changed
  chown path owner group s =
      if owner == [] && group == []
      then (ok tt, s)
      else with_ids path s (id_of host.lookup_user owner) (id_of host.lookup_group group)

  abbrev created : Str → Result FsError (Unit {0}) × fs.State → Changed
  created path (err e, s) = (err (fs_failed e), s)
  created path (ok _, s) = change (fs.create path s)

  -- `CreateFileWithPerm(path)`
  unfoldable pub create_file : Str → fs.State → Changed
  create_file path s = created path (fs.mkdir_all (host.dir_of path) 0o750 s)

  -- The errors so far, and the state of the files.
  abbrev pub Progress : Type 0
  Progress = List FixError × fs.State

  abbrev pub noted : List FixError → (ChangeError → FixError) → Changed → Progress
  noted errors f (ok _, s) = (errors, s)
  noted errors f (err e, s) = (errors ++ f e ∷ [], s)

  -- `if err := op; err != nil { errorsFound = append(errorsFound, ...) }`
  unfoldable pub attempt : (ChangeError → FixError) → (fs.State → Changed) → Progress → Progress
  attempt f op (errors, s) = noted errors f (op s)

  unfoldable pub set_perms : PermInfo → Str → Progress → Progress
  unfolding attempt chown
  set_perms info path p =
      attempt (changing_owner path) (chown path info.owner info.group)
        (attempt (changing_mode path) (λ s. change (fs.chmod path info.mode s)) p)

  abbrev pub missing : Result FsError FileInfo → Bool
  missing (ok info) = false
  missing (err e) = true

  unfoldable pub if_present : Str → (Progress → Progress) → Progress → Progress
  if_present path f (errors, s) = if missing (fs.stat s path) then (errors, s) else f (errors, s)

  unfoldable pub if_missing : Str → (Progress → Progress) → Progress → Progress
  if_missing path f (errors, s) = if missing (fs.stat s path) then f (errors, s) else (errors, s)

  -- The loop over the entries of the directory of plugins.
  unfoldable pub fix_plugins : List FileInfo → Progress → Progress
  unfolding set_perms
  fix_plugins [] p = p
  fix_plugins (entry ∷ entries) p =
      let path = host.join_path (plugins_dir ∷ entry.name ∷ []) in
      fix_plugins entries (
        if not entry.is_dir && has_suffix entry.name (str ".yml")
        then set_perms plugin_file_perms path p
        else p)

  abbrev pub opened_dir : Progress → Result FsError (Unit {0}) → Progress
  opened_dir (errors, s) (err e) = (errors, s)
  opened_dir (errors, s) (ok _) = fix_plugins (host.readdir s plugins_dir) (errors, s)

  unfoldable pub fix_plugins_dir : Progress → Progress
  unfolding fix_plugins
  fix_plugins_dir (errors, s) = opened_dir (errors, s) (fs.open_file s plugins_dir)

  -- The execution phase of `Fix`, step by step, from no errors.
  unfoldable pub with_policy : fs.State → Progress
  unfolding attempt create_file set_perms if_missing
  with_policy s = set_perms system_file_perms host.system_policy (
      if_missing host.system_policy
        (attempt (creating host.system_policy) (create_file host.system_policy)) ([], s))

  unfoldable pub with_providers : fs.State → Progress
  unfolding with_policy if_present
  with_providers s =
      if_present host.providers_file (set_perms system_file_perms host.providers_file)
        (with_policy s)

  unfoldable pub with_config : fs.State → Progress
  unfolding with_providers
  with_config s =
      if_present config_file (set_perms system_file_perms config_file) (with_providers s)

  unfoldable pub with_directory : fs.State → Progress
  unfolding with_config
  with_directory s =
      if_missing plugins_dir
        (attempt (making_directory plugins_dir)
          λ s. change (fs.mkdir_all plugins_dir plugins_dir_perms.mode s))
        (with_config s)

  unfoldable pub execute : fs.State → Progress
  unfolding with_directory fix_plugins_dir
  execute s = fix_plugins_dir (with_directory s)

  abbrev pub Outcome : Type 0
  Outcome = Result PermissionsError (Unit {0}) × fs.State

  abbrev pub reported : Bool → Progress → Outcome
  reported true (errors, s) = (ok tt, s)
  reported false ([], s) = (ok tt, s)
  reported false (e ∷ es, s) = (err (errors_found (length (e ∷ es))), s)

  abbrev pub confirmed : Bool → fs.State → Option Bool → Outcome
  confirmed json s none = (err prompt_failed, s)
  confirmed json s (some false) = (err aborted, s)
  confirmed json s (some true) = reported json (execute s)

  abbrev pub elevated : Bool → Bool → fs.State → Option Bool → Option Bool → Outcome
  elevated assume_yes json s confirm none = (err elevation_unknown, s)
  elevated assume_yes json s confirm (some false) = (err not_elevated, s)
  elevated assume_yes json s confirm (some true) =
      if not assume_yes then confirmed json s confirm else reported json (execute s)

  -- `Fix()`, less the list of planned actions, which is printed. The answers of `IsElevatedFn` and
  -- of the prompt are `none` where they fail.
  unfoldable pub fix : Bool → Bool → Bool → Option Bool → Option Bool → fs.State → Outcome
  unfolding execute
  fix dry_run assume_yes json is_elevated confirm s =
      if dry_run then (ok tt, s) else elevated assume_yes json s confirm is_elevated
