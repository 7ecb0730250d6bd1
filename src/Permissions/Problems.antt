-- ===== src/Permissions/Problems.antt =====
-- `Check` of commands/permissions.go.
use opkssh.Base.{
  Bool, true, false, List, [], ◌∷◌, ◌++◌, Str, str_eq, if◌then◌else◌, length, Result, ok, err,
}
use opkssh.Files.{FsError, Check, passed, refused, panicked, stat_failed, check_perm, exists_of}
use opkssh.Plugins.{required_policy_dir_perms}
use opkssh.Permissions.{
  System, PermInfo, system_file_perms, plugins_dir_perms, PermissionsError, problems_found, crashed,
  config_file, plugins_dir, missing,
}

module _ (host : System) where
  open host use {fs}

  -- What `CheckPerm` says of a path, if `Exists` says that it is there.
  abbrev pub check_at : PermInfo → Str → fs.State → Check
  check_at info path s =
      check_perm (host.run_stat s) (fs.stat s path) path (info.mode ∷ []) info.owner info.group

  abbrev pub problem_of : Check → List Check
  problem_of passed = []
  problem_of c = c ∷ []

  abbrev pub file_problems : List Check → Check → Result FsError Bool → List Check
  file_problems if_absent c (ok true) = problem_of c
  file_problems if_absent c _ = if_absent

  -- That a file does not exist is a problem of its own, which stands here as `stat_failed`.
  abbrev not_there : List Check
  not_there = refused stat_failed ∷ []

  -- The problems of a file: `if_absent` where it does not exist, or else what `CheckPerm` says.
  unfoldable pub problems_at : List Check → Str → fs.State → List Check
  unfolding exists_of check_perm
  problems_at if_absent path s =
      file_problems if_absent (check_at system_file_perms path s) (exists_of (fs.stat s path))

  abbrev pub dir_check : fs.State → Check
  dir_check s =
      check_perm (host.run_stat s) (fs.stat s (plugins_dir host)) (plugins_dir host)
        required_policy_dir_perms plugins_dir_perms.owner plugins_dir_perms.group

  -- The problems of the four paths, one after the other.
  unfoldable pub problems_of_all : fs.State → List Check
  unfolding problems_at
  problems_of_all s =
      problems_at not_there host.system_policy s
      ++ (problems_at not_there host.providers_file s
          ++ (problems_at [] (config_file host) s
              ++ (if missing host (fs.stat s (plugins_dir host))
                  then not_there
                  else problem_of (dir_check s))))

  abbrev crashes : List Check → Bool
  crashes [] = false
  crashes (panicked ∷ cs) = true
  crashes (c ∷ cs) = crashes cs

  abbrev verdict : Bool → List Check → Result PermissionsError (Unit {0})
  verdict true cs = ok tt
  verdict false [] = ok tt
  verdict false (c ∷ cs) = err (problems_found (length (c ∷ cs)))

  -- `Check()`
  unfoldable pub check : Bool → fs.State → Result PermissionsError (Unit {0})
  unfolding problems_of_all
  check json s =
      if crashes (problems_of_all s) then err crashed else verdict json (problems_of_all s)
