-- ===== src/Logout.antt =====
-- `opkssh logout`: commands/logout.go.
mod Match
mod Lines
pub mod Generated
pub mod Loop
pub mod Pair
pub mod Kept
pub mod Fate
pub mod Gone
pub mod Config
unfoldable pub use Match.*
unfoldable pub use Lines.*
use opkssh.Base.{
  ℕ, suc, ◌+◌, Bool, true, false, not, ◌&&◌, ◌||◌, List, [], ◌∷◌, ◌++◌, map, Option, none, some,
  Str, str, ◌==◌, nat_eq, str_eq, if◌then◌else◌, head_or, Result, ok, err, ◌>>=◌, ◌>>◌, guard, wrap,
  then_do, is_ok,
}
use opkssh.Text.{split, join, trim_space, has_prefix, has_suffix}
use opkssh.Files.{FsError, not_exist, FileInfo, Fs}
use opkssh.Login.{KeyType, default_ssh_key_file_names, Ssh, Client, certificate_path}
use opkssh.Login.Keys.{identity_line}

pub data LogoutError : Type 0 where
  no_home not_generated : LogoutError
  certificate_unreadable key_unreadable : FsError → LogoutError
  pair_mismatch : MatchError → LogoutError
  key_not_removed certificate_not_removed config_not_written : FsError → LogoutError

-- `allDefaultSSHKeyFileNames()`, for an order of the keys of the map.
abbrev all_names : List KeyType → List Str
all_names [] = []
all_names (k ∷ ks) = elim (default_ssh_key_file_names k) [
  | none ↦ all_names ks
  | some names ↦ names ++ all_names ks
]

unfoldable pub all_default_ssh_key_file_names : List KeyType → List Str
all_default_ssh_key_file_names order = all_names order

module _ (client : Client) where
  open client use {fs, ssh, join_path}

  abbrev Done : Type 0
  Done = Result LogoutError (Unit {0}) × fs.State

  -- An error of `Remove` that is not `os.IsNotExist`.
  abbrev pub unless_missing :
      Result FsError (Unit {0}) × fs.State → Result FsError (Unit {0}) × fs.State
  unless_missing (err not_exist, s) = (ok tt, s)
  unless_missing r = r

  -- `removeKeyPair(seckeyPath, pubkeyPath)`
  unfoldable pub remove_key_pair : Str → Str → fs.State → Done
  remove_key_pair seckey_path pubkey_path s =
      then_do key_not_removed (unless_missing (fs.remove seckey_path s)) λ s.
        then_do certificate_not_removed (unless_missing (fs.remove pubkey_path s)) λ s. (ok tt, s)

  abbrev config_written : Result FsError (Unit {0}) × fs.State → Done
  config_written (r, s) = (wrap config_not_written r, s)

  abbrev pub rewrite_config : Str → Str → fs.State → Result FsError Str → Done
  rewrite_config config_path seckey_path s (err e) = (ok tt, s)
  rewrite_config config_path seckey_path s (ok content) =
      config_written (fs.write_file config_path (without_identity seckey_path content) 0o600 s)

  -- `removeFromOpkSSHConfig(configPath, seckeyPath)`
  unfoldable pub remove_from_opk_ssh_config : Str → Str → fs.State → Done
  unfolding without_identity
  remove_from_opk_ssh_config config_path seckey_path s =
      rewrite_config config_path seckey_path s (fs.read_file s config_path)

  abbrev pub matching : Str → Result FsError Str → Bool
  matching certificate (err e) = false
  matching certificate (ok key) = is_ok (verify_key_pair_match ssh key certificate)

  abbrev pub generated : Result FsError Str → Result FsError Str → Bool
  generated (err e) key = false
  generated (ok certificate) key =
      if is_openpubkey_comment ssh certificate then matching certificate key else false

  -- Whether a loop goes on to remove a key: none of its `continue`s is taken.
  unfoldable pub is_generated : Str → fs.State → Bool
  unfolding verify_key_pair_match is_openpubkey_comment is_ok
  is_generated path s = generated (fs.read_file s (certificate_path path)) (fs.read_file s path)

  abbrev pub Counted : Type 0
  Counted = Result LogoutError ℕ × fs.State

  abbrev pub counted : (fs.State → Counted) → Done → Counted
  counted next (err e, s) = (err e, s)
  counted next (ok _, s) = next s

  -- The loops over the keys of a directory, from a count of removed keys on. `remove` is what a
  -- loop does with a key.
  unfoldable pub remove_all : (Str → fs.State → Done) → List Str → ℕ → fs.State → Counted
  unfolding is_generated
  remove_all remove [] n s = (ok n, s)
  remove_all remove (path ∷ paths) n s =
      let rest = remove_all remove paths in
      if is_generated path s then counted (rest (suc n)) (remove path s) else rest n s

  abbrev pub remove_pair : Str → fs.State → Done
  remove_pair path s = remove_key_pair path (certificate_path path) s

  -- A pair, and its line of the configuration.
  abbrev pub remove_listed : Str → Str → fs.State → Done
  remove_listed config_path path s =
      then_do (λ e. e) (remove_pair path s) λ s. remove_from_opk_ssh_config config_path path s

  abbrev pub default_paths : List KeyType → Str → List Str
  default_paths order home =
      map (λ name. join_path (join_path (home ∷ str ".ssh" ∷ []) ∷ name ∷ []))
        (all_default_ssh_key_file_names order)

  abbrev pub with_home : (Str → Counted) → fs.State → Option Str → Counted
  with_home next s none = (err no_home, s)
  with_home next s (some home) = next home

  -- `removeDefaultSSHDirKeys()`; `order` is that in which the map of the names is gone through.
  unfoldable pub remove_default_ssh_dir_keys : List KeyType → fs.State → Counted
  unfolding remove_all remove_key_pair all_default_ssh_key_file_names
  remove_default_ssh_dir_keys order s =
      with_home (λ home. remove_all remove_pair (default_paths order home) 0 s) s client.home

  -- The entries of the identity directory that may be keys.
  unfoldable pub is_key_entry : FileInfo → Bool
  is_key_entry entry =
      not entry.is_dir
      && not (entry.name == str "config" || has_suffix entry.name (str "-cert.pub"))

  unfoldable pub key_paths : Str → List FileInfo → List Str
  unfolding is_key_entry
  key_paths dir [] = []
  key_paths dir (entry ∷ entries) =
      let rest = key_paths dir entries in
      if is_key_entry entry then join_path (dir ∷ entry.name ∷ []) ∷ rest else rest

  -- `afero.DirExists`: not an error, and a directory.
  abbrev pub dir_exists : Result FsError FileInfo → Bool
  dir_exists (err e) = false
  dir_exists (ok info) = info.is_dir

  abbrev pub config_of : Str → Str
  config_of dir = join_path (dir ∷ str "config" ∷ [])

  abbrev pub in_entries : Str → fs.State → Result FsError (List FileInfo) → Counted
  in_entries dir s (err e) = (ok 0, s)
  in_entries dir s (ok entries) =
      remove_all (remove_listed (config_of dir)) (key_paths dir entries) 0 s

  abbrev pub in_dir : Str → fs.State → Counted
  in_dir dir s =
      if dir_exists (fs.stat s dir) then in_entries dir s (fs.read_dir s dir) else (ok 0, s)

  abbrev pub opk_dir : Str → Str
  opk_dir home = join_path (home ∷ str ".ssh" ∷ str "opkssh" ∷ [])

  -- `removeOpkSSHDirKeys()`
  unfoldable pub remove_opk_ssh_dir_keys : fs.State → Counted
  unfolding remove_all remove_key_pair remove_from_opk_ssh_config key_paths
  remove_opk_ssh_dir_keys s = with_home (λ home. in_dir (opk_dir home) s) s client.home

  -- The tests of `removeSpecificKey` before it removes the pair, on what the files hold.
  abbrev pub check_pair : Result FsError Str → Result FsError Str → Result LogoutError (Unit {0})
  check_pair certificate key = wrap certificate_unreadable certificate >>= λ cert_bytes.
      guard (is_openpubkey_comment ssh cert_bytes) not_generated
      >> (wrap key_unreadable key >>= λ key_bytes.
          wrap pair_mismatch (verify_key_pair_match ssh key_bytes cert_bytes))

  abbrev pub if_passed : Result LogoutError (Unit {0}) → (fs.State → Done) → fs.State → Done
  if_passed (err e) next s = (err e, s)
  if_passed (ok _) next s = next s

  -- `removeSpecificKey(seckeyPath)`
  unfoldable pub remove_specific_key : Str → fs.State → Done
  unfolding remove_key_pair is_openpubkey_comment verify_key_pair_match
  remove_specific_key path s =
      if_passed (check_pair (fs.read_file s (certificate_path path)) (fs.read_file s path))
        (remove_pair path) s

  abbrev pub plus : ℕ → Counted → Counted
  plus n (r, s) = (r >>= λ m. ok (n + m), s)

  abbrev pub and_opk_dir : Counted → Counted
  and_opk_dir (err e, s) = (err e, s)
  and_opk_dir (ok n, s) = plus n (remove_opk_ssh_dir_keys s)

  -- `Run()`, for `l.KeyPathArg`, with the number of pairs that it reports.
  unfoldable pub run : Str → List KeyType → fs.State → Counted
  unfolding remove_specific_key remove_default_ssh_dir_keys remove_opk_ssh_dir_keys
  run key_path order s =
      if not (key_path == [])
      then counted (λ s. (ok 1, s)) (remove_specific_key key_path s)
      else and_opk_dir (remove_default_ssh_dir_keys order s)
