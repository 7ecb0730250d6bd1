-- ===== src/Tests/Logout.antt =====
-- The theorems on logout, for a home directory with a key that opkssh made and one it did not.
use opkssh.Base.{
  Bool, true, false, List, [], ◌∷◌, ◌++◌, ◌≡◌, ◌≢◌, ◌⊎◌, refl, ap, ◌∙◌, arith, Str, str, str_eq,
  str_beq, All, then_do, is_ok, ok,
}
use opkssh.Text.{split, join, has_prefix, has_suffix, includes, trim_space}
use opkssh.Files.Memory.{Files, memory, lookup, write, erase, read_memory}
use opkssh.Text.Trim.{has_suffix-append}
use opkssh.Files.{FileInfo, Fs}
use opkssh.Files.Others.{KeepsOthers, memory-KeepsOthers}
use opkssh.Login.{KeyType, ecdsa, Client, certificate_path}
use opkssh.Login.Keys.{identity_line, with_identity}
use opkssh.Logout.{
  run, without_identity, remove_default_ssh_dir_keys, key_paths, is_key_entry,
  all_default_ssh_key_file_names, remove_opk_ssh_dir_keys, remove_all, is_generated,
  verify_key_pair_match, is_openpubkey_comment, remove_key_pair, remove_from_opk_ssh_config,
  unix_lines, other_lines,
}
use opkssh.Logout.Generated.{IsGenerated, IsRemoved, Beside}
use opkssh.Logout.Kept.{run_paths, config_path, keeps-run}
use opkssh.Logout.Fate.{Apart}
use opkssh.Logout.Gone.{targets, gone-run}
use opkssh.Logout.Config.{without_identity-with_identity}
use opkssh.Tests.Setup.{client, key_file}

abbrev info : Bool → Str → FileInfo
info is_dir name = record { mode = 0o755; is_dir = is_dir; name = name }

-- Every path is a directory, with a configuration, a key and its certificate.
abbrev home_fs : Fs
home_fs = record memory {
  stat = λ s path. ok (info true path);
  read_dir = λ s path. ok (
      info false (str "config")
      ∷ info false (str "issuer-app")
      ∷ info false (str "issuer-app-cert.pub")
      ∷ []);
}

abbrev logout_client : Client
logout_client = record client { fs = home_fs }

laws : KeepsOthers home_fs
laws = record {
  written_elsewhere = memory-KeepsOthers.written_elsewhere;
  made_directory = memory-KeepsOthers.made_directory;
  removed_elsewhere = memory-KeepsOthers.removed_elsewhere;
  removed = memory-KeepsOthers.removed;
  removal_only = memory-KeepsOthers.removal_only;
}

abbrev own_file : Str
own_file = str "/home/alice/.ssh/id_rsa"

abbrev identity : Str
identity = str "/home/alice/.ssh/opkssh/issuer-app"

abbrev opk_config : Str
opk_config = str "/home/alice/.ssh/opkssh/config"

-- Alice's own key, and two keys of opkssh.
abbrev files : Files
files =
    (own_file, record { content = str "own"; mode = 0o600 })
    ∷ (key_file, record { content = str "k"; mode = 0o600 })
    ∷ (key_file ++ str "-cert.pub", record { content = str "k openpubkey"; mode = 0o644 })
    ∷ (identity, record { content = str "j"; mode = 0o600 })
    ∷ (identity ++ str "-cert.pub", record { content = str "j openpubkey:"; mode = 0o644 })
    ∷ (opk_config, record { content = identity_line identity; mode = 0o600 })
    ∷ []

abbrev order : List KeyType
order = ecdsa ∷ []

paths_Beside :
    All
      (Beside logout_client (config_path logout_client laws logout_client.home))
      (run_paths logout_client laws order files)
unfolding join key_paths is_key_entry has_suffix has_prefix str_beq all_default_ssh_key_file_names
paths_Beside = ground arith

not_a_certificate : (path : Str) → own_file ≢ certificate_path path
unfolding has_suffix has_prefix str_beq
not_a_certificate path e =
    ground
      (arith, ap (λ p. has_suffix p (str "-cert.pub")) e ∙ has_suffix-append path (str "-cert.pub"))

own_unpaired :
    (¬ IsGenerated logout_client files own_file)
    × ((path : Str) → own_file ≡ certificate_path path → ¬ IsGenerated logout_client files path)
unfolding lookup read_memory str_beq
own_unpaired = ((λ g. ground arith), λ path e g. not_a_certificate path e)

keeps-run_example :
    read_memory (lookup own_file (run logout_client [] order files).1) ≡ ok (str "own")
unfolding lookup read_memory str_beq join
keeps-run_example =
    keeps-run logout_client laws order files paths_Beside [] own_file (str "own") own_unpaired
      (λ e. ground arith) refl

ran : (run logout_client [] order files).0 ≡ ok 2
unfolding run join key_paths is_key_entry has_suffix has_prefix str_beq
    all_default_ssh_key_file_names remove_default_ssh_dir_keys remove_opk_ssh_dir_keys remove_all
    is_generated verify_key_pair_match is_openpubkey_comment remove_key_pair
    remove_from_opk_ssh_config without_identity unix_lines other_lines then_do is_ok lookup
    read_memory write erase split trim_space
ran = refl

paths_Apart :
    All
      (λ p. All (Apart p) (run_paths logout_client laws order files))
      (run_paths logout_client laws order files)
unfolding join key_paths is_key_entry has_suffix has_prefix str_beq all_default_ssh_key_file_names
paths_Apart = ground arith

gone-run_example :
    All
      (λ path.
        (¬ IsGenerated logout_client files path)
        ⊎ IsRemoved logout_client (run logout_client [] order files).1 path)
      (targets logout_client laws [] order files)
gone-run_example = gone-run logout_client laws order files 2 [] paths_Beside paths_Apart ran

without_identity-with_identity_example :
    without_identity identity (with_identity identity (str "IdentityFile other"))
    ≡ str "IdentityFile other"
unfolding includes trim_space has_prefix str_beq
without_identity-with_identity_example =
    without_identity-with_identity identity (str "IdentityFile other") refl (ground arith)
      (ground arith) refl (ground arith)
