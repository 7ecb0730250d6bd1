-- ===== src/Files.antt =====
-- Access to files: `PermsChecker` of policy/files/permschecker.go and `FileLoader` of
-- policy/files/fileloader.go, over an unknown file system (github.com/spf13/afero).
pub mod Perms
pub mod Load
pub mod Memory
pub mod Others
use opkssh.Base.{
  ℕ, ◌%◌, Bool, true, false, not, ◌&&◌, ◌||◌, List, [], ◌∷◌, Option, none, some, Str, str, ◌==◌,
  nat_eq, str_eq, contains, if◌then◌else◌, ltb, length, Result, ok, err, ◌>>=◌, ◌>>◌, wrap,
}
use opkssh.Text.{split, trim_space}

-- What `errors.Is` tells apart: `os.ErrNotExist`, `os.ErrPermission`, and other errors.
pub data FsError : Type 0 where
  not_exist permission other : FsError

-- `fs.FileInfo`, as far as it is read.
pub record FileInfo : Type 0 where
  pub mode : ℕ
  pub is_dir : Bool
  pub name : Str

-- `afero.Fs`. A failing operation may have changed the state.
pub record Fs : Type 1 where
  pub State : Type 0
  pub stat : State → Str → Result FsError FileInfo
  pub read_file : State → Str → Result FsError Str
  pub write_file : Str → Str → ℕ → State → Result FsError (Unit {0}) × State
  pub mkdir_all : Str → ℕ → State → Result FsError (Unit {0}) × State
  pub create : Str → State → Result FsError (Unit {0}) × State
  pub chmod : Str → ℕ → State → Result FsError (Unit {0}) × State
  pub remove : Str → State → Result FsError (Unit {0}) × State
  -- Opening a file to read, and what `ReadDir` lists.
  pub open_file : State → Str → Result FsError (Unit {0})
  pub read_dir : State → Str → Result FsError (List FileInfo)

-- `mode.Perm()`: the nine permission bits.
abbrev pub perm : ℕ → ℕ
perm mode = mode % 0o1000

-- `ModeSystemPerms` and `ModeHomePerms` of policy/files/permschecker_common.go.
abbrev pub mode_system_perms : ℕ
mode_system_perms = 0o640

abbrev pub mode_home_perms : ℕ
mode_home_perms = 0o600

pub data PermError : Type 0 where
  describe_failed : FsError → PermError
  stat_failed : PermError
  expected_two_values : ℕ → PermError
  wrong_owner wrong_group : Str → Str → PermError
  wrong_mode : List ℕ → ℕ → PermError

-- A call of `CheckPerm` returns nil or an error, or panics.
pub data Check : Type 0 where
  passed : Check
  refused : PermError → Check
  panicked : Check

-- The loop over `requirePerm`, and what follows it.
abbrev pub check_mode : List ℕ → ℕ → Check
check_mode require mode =
    if contains require (perm mode) then passed else refused (wrong_mode require (perm mode))

-- The parts of what `stat -c '%U %G'` prints. Its index expressions come before the test of the
-- number of parts.
pub check_owner : Str → Str → List Str → Check → Check
check_owner owner group (o ∷ g ∷ []) next =
    if not (owner == []) && not (owner == o)
    then refused (wrong_owner owner o)
    else if not (group == []) && not (group == g)
    then refused (wrong_group group g)
    else next
check_owner owner group (o ∷ g ∷ h ∷ more) next =
    refused (expected_two_values (length (o ∷ g ∷ h ∷ more)))
check_owner owner group (o ∷ []) next = panicked
check_owner owner group [] next = panicked

abbrev stat_output : Str → Str → Option Str → Check → Check
stat_output owner group none next = refused stat_failed
stat_output owner group (some output) next =
    check_owner owner group (split (trim_space output) b' ') next

-- `CheckPerm(path, requirePerm, requiredOwner, requiredGroup)`. `run_stat` stands for the command
-- runner, called with `stat -c '%U %G' path`; `info` is what `u.Fs.Stat(path)` returns.
unfoldable pub check_perm :
    (Str → Option Str) → Result FsError FileInfo → Str → List ℕ → Str → Str → Check
unfolding check_owner
check_perm run_stat (err e) path require owner group = refused (describe_failed e)
check_perm run_stat (ok info) path require owner group =
    if not (owner == []) || not (group == [])
    then stat_output owner group (run_stat path) (check_mode require info.mode)
    else check_mode require info.mode

pub data LoadError : Type 0 where
  not_described : FsError → LoadError
  insecure : PermError → LoadError
  unreadable : FsError → LoadError
  crashed : LoadError

abbrev pub load_checked : Check → Result FsError Str → Result LoadError Str
load_checked passed content = wrap unreadable content
load_checked (refused e) content = err (insecure e)
load_checked panicked content = err crashed

pub data CreateError : Type 0 where
  exists_failed mkdir_failed create_failed chmod_failed : FsError → CreateError

-- `afero.Exists`
unfoldable pub exists_of : Result FsError FileInfo → Result FsError Bool
exists_of (ok _) = ok true
exists_of (err not_exist) = ok false
exists_of (err e) = err e

abbrev pub Step : Type 0 → Type 0
Step S = S → Result CreateError (Unit {0}) × S

abbrev pub try_step :
    {S : Type 0}
    → (FsError → CreateError)
    → Result FsError (Unit {0}) × S
    → Step S
    → Result CreateError (Unit {0}) × S
try_step f (ok _, s) next = next s
try_step f (err e, s) next = (err (f e), s)

-- The body of `LoadFileAtPath`, on what `Stat` and `ReadFile` return.
pub load_parts :
    (Str → Option Str)
    → ℕ
    → Str
    → Result FsError FileInfo
    → Result FsError Str
    → Result LoadError Str
load_parts run_stat required path (err e) content = err (not_described e)
load_parts run_stat required path (ok info) content =
    load_checked (check_perm run_stat (ok info) path (required ∷ []) [] []) content

module _ (fs : Fs) (run_stat : Str → Option Str) where
  -- `LoadFileAtPath(path)` of a `FileLoader` whose `RequiredPerm` is `required`.
  unfoldable pub load_file_at_path : ℕ → Str → fs.State → Result LoadError Str
  unfolding load_parts check_perm
  load_file_at_path required path s =
      load_parts run_stat required path (fs.stat s path) (fs.read_file s path)

module _ (fs : Fs) (dir_of : Str → Str) where
  -- `CreateIfDoesNotExist(path)`; `dir_of` is `filepath.Dir`.
  unfoldable pub create_if_does_not_exist :
      ℕ → Str → fs.State → Result CreateError (Unit {0}) × fs.State
  unfolding exists_of
  create_if_does_not_exist required path s = elim (exists_of (fs.stat s path)) [
    | err e ↦ (err (exists_failed e), s)
    | ok true ↦ (ok tt, s)
    | ok false ↦ try_step mkdir_failed (fs.mkdir_all (dir_of path) 0o750 s) λ s.
        try_step create_failed (fs.create path s)
          λ s. try_step chmod_failed (fs.chmod path required s) λ s. (ok tt, s)
  ]

-- `Dump(fileBytes, path)`
abbrev pub dump : (fs : Fs) → ℕ → Str → Str → fs.State → Result FsError (Unit {0}) × fs.State
dump fs required content path s = fs.write_file path content required s
