-- ===== src/Loader.antt =====
-- The loaders of policy/policyloader.go and policy/multipolicyloader.go.
pub mod Home
pub mod Multi
use opkssh.Base.{
  ℕ, Bool, true, false, ◌&&◌, ◌||◌, List, [], ◌∷◌, ◌++◌, Option, none, some, Str, str, ◌==◌, str_eq,
  contains, if◌then◌else◌, length, Result, ok, err, wrap,
}
use opkssh.Text.{join}
use opkssh.Table.{Shell}
use opkssh.ConfigLog.{ConfigLog}
use opkssh.Files.{
  FsError, Fs, LoadError, mode_system_perms, mode_home_perms, load_file_at_path, dump,
}
use opkssh.Policy.{User, Policy, from_table, to_table}

-- What the loaders call: the file system, the `stat` command, the shell quoting, `os/user` (the
-- home directory of a user, `none` where the lookup fails), `filepath.Join` and `filepath.Dir`,
-- and `SystemDefaultPolicyPath`.
pub record Env : Type 1 where
  pub fs : Fs
  pub run_stat : Str → Option Str
  pub shell : Shell
  pub home_of : Str → Option Str
  pub join_path : List Str → Str
  pub dir_of : Str → Str
  pub system_path : Str

pub data HomeError : Type 0 where
  unknown_user : Str → HomeError
  no_home_directory : Str → HomeError
  read_failed : Str → LoadError → HomeError
  loader_failed : Str → HomeError
  too_many_loaders : ℕ → HomeError

-- `OptionalLoader`; `none` is its error.
abbrev pub OptionalLoader : Type 0
OptionalLoader = Str → Option Str

-- A file in place of a content, with its path; the policy that is read and the log behind it.
abbrev pub parse {ℓ} :
    {E : Type ℓ} → Shell → Str → Result E Str → ConfigLog → Result E Policy × ConfigLog
parse sh path (err e) log = (err e, log)
parse sh path (ok content) log = let r = from_table sh content path log in (ok r.policy, r.log)

-- The loop of `LoadHomePolicy` that keeps the entries for the user, and them for the user alone.
pub valid_users : Str → List User → List User → List User
valid_users username out [] = out
valid_users username out (u ∷ us) =
    valid_users username
      (if contains u.principals username
        then out ++ record u { principals = username ∷ [] } ∷ []
        else out)
      us

unfoldable pub valid_policy : Str → Policy → Policy
unfolding valid_users
valid_policy username p = record { users = valid_users username [] p.users }

abbrev pub optional_content :
    Str → Str → Result LoadError Str → List OptionalLoader → Result HomeError Str
optional_content username path (ok content) _ = ok content
optional_content username path (err e) [] = err (read_failed path e)
optional_content username path (err e) (load ∷ []) = elim (load username) [
  | none ↦ err (loader_failed path)
  | some content ↦ ok content
]
optional_content username path (err e) (l ∷ m ∷ more) =
    err (too_many_loaders (length (l ∷ m ∷ more)))

abbrev pub with_path :
    Bool
    → Str
    → Str
    → Result HomeError Policy × ConfigLog
    → Result HomeError (Policy × Str) × ConfigLog
with_path skip username path (err e, log) = (err e, log)
with_path skip username path (ok p, log) =
    (ok (if skip then valid_policy username p else p, path), log)

module _ (env : Env) where
  open env use {fs, shell, join_path, system_path}

  -- `PolicyLoader.LoadPolicyAtPath(path)`, where `RequiredPerm` is `required`.
  unfoldable pub load_policy_at_path :
      ℕ → Str → fs.State → ConfigLog → Result LoadError Policy × ConfigLog
  load_policy_at_path required path s log =
      parse shell path (load_file_at_path fs env.run_stat required path s) log

  -- `PolicyLoader.Dump(policy, path)`
  unfoldable pub dump_policy : ℕ → Policy → Str → fs.State → Result FsError (Unit {0}) × fs.State
  dump_policy required p path s = dump fs required (to_table shell p) path s

  -- `SystemPolicyLoader.LoadSystemPolicy()`
  unfoldable pub load_system_policy : fs.State → ConfigLog → Result LoadError Policy × ConfigLog
  unfolding load_policy_at_path
  load_system_policy s log = load_policy_at_path mode_system_perms system_path s log

  -- `HomePolicyLoader.UserPolicyPath(username)`
  unfoldable pub user_policy_path : Str → Result HomeError Str
  user_policy_path username = elim (env.home_of username) [
    | none ↦ err (unknown_user username)
    | some home ↦
        if home == []
        then err (no_home_directory username)
        else ok (join_path (home ∷ str ".opk" ∷ str "auth_id" ∷ []))
  ]

  -- The rest of `LoadHomePolicy`, behind the path.
  abbrev pub load_home_at :
      Str
      → Bool
      → List OptionalLoader
      → Str
      → fs.State
      → ConfigLog
      → Result HomeError (Policy × Str) × ConfigLog
  load_home_at username skip loaders path s log = with_path skip username path (
      parse shell path
        (optional_content username path (load_file_at_path fs env.run_stat mode_home_perms path s)
          loaders)
        log)

  -- `LoadHomePolicy(username, skipInvalidEntries, optLoader...)`
  unfoldable pub load_home_policy :
      Str
      → Bool
      → List OptionalLoader
      → fs.State
      → ConfigLog
      → Result HomeError (Policy × Str) × ConfigLog
  unfolding user_policy_path
  load_home_policy username skip loaders s log = elim (user_policy_path username) [
    | err e ↦ (err e, log)
    | ok path ↦ load_home_at username skip loaders path s log
  ]

-- The error of both loaders, joined.
abbrev pub MultiError : Type 0
MultiError = LoadError × HomeError

-- What `MultiPolicyLoader.Load` does with the two policies; a policy is nil exactly where its
-- error is not.
pub merge :
    Str
    → Result LoadError Policy
    → Result HomeError (Policy × Str)
    → Result MultiError (Policy × Str)
merge system_path (err e) (err f) = err (e, f)
merge system_path (ok root) (err f) =
    ok (record { users = [] ++ root.users }, join (system_path ∷ []) (str ", "))
merge system_path (err e) (ok (user, path)) =
    ok (record { users = [] ++ user.users }, join (path ∷ []) (str ", "))
merge system_path (ok root) (ok (user, path)) =
    ok (
      record { users = ([] ++ root.users) ++ user.users },
      join (system_path ∷ path ∷ []) (str ", "),
    )

module _ (env : Env) where
  open env use {fs}

  -- `MultiPolicyLoader.Load()`
  unfoldable pub load_multi :
      Str → OptionalLoader → fs.State → ConfigLog → Result MultiError (Policy × Str) × ConfigLog
  unfolding merge
  load_multi username script s log =
      let (root, log1) = load_system_policy env s log in
      let (user, log2) = load_home_policy env username true (script ∷ []) s log1 in
      (merge env.system_path root user, log2)
