-- ===== src/Tests/System.antt =====
-- The theorems on `readhome` and `permissions`, on a small machine.
use opkssh.Base.{
  ℕ, true, false, [], ◌∷◌, ◌≡◌, ◌≢◌, ◌⊎◌, ◌↔◌, inl, inr, refl, sym, ap, ◌∙◌, arith, none, some, Str,
  str, ◌==◌, str_eq, str_beq, str_beq_iff, if◌then◌else◌, ok,
}
use opkssh.Text.{split, join, trim_space, has_suffix, has_prefix}
use opkssh.Files.{FileInfo, Fs}
use opkssh.ReadHome.{OpenFile, opened, Machine, read_home, Readable, read_home_iff}
use opkssh.Permissions.{
  System, fix, chown, attempt, set_perms, if_present, if_missing, fix_plugins, fix_plugins_dir,
  create_file, execute, with_policy, with_providers, with_config, with_directory, config_file,
  plugins_dir,
}
use opkssh.Permissions.Keeps.{IsLawful}
use opkssh.Permissions.Right.{Separate, Right, Right-fix}

abbrev alice_file : OpenFile
alice_file = record { info = some (0o600, some (str "1000")); content = some (str "policy") }

abbrev machine : Machine
machine = record {
  lookup = λ name.
      if name == str "alice"
      then some (record { uid = str "1000"; home_dir = str "/home/alice" })
      else none;
  username_of = λ uid. if uid == str "1000" then some (str "alice") else none;
  join_path = λ parts. join parts (str "/");
  open_no_follow = λ path. opened alice_file;
}

read_home_iff_example :
    (read_home machine (str "alice") ≡ ok (str "policy"))
    ↔ Readable machine (str "alice") (str "policy")
read_home_iff_example = read_home_iff machine (str "alice") (str "policy")

-- Every path is there, with a mode and what `stat` prints of its owner.
abbrev Modes : Type 0
Modes = (Str → ℕ) × (Str → Str)

abbrev put_at {ℓ} : {A : Type ℓ} → Str → A → (Str → A) → Str → A
put_at path a f p = if p == path then a else f p

abbrev info : Str → ℕ → FileInfo
info name mode = record { mode = mode; is_dir = false; name = name }

abbrev mode_fs : Fs
mode_fs = record {
  State = Modes;
  stat = λ s path. ok (info path (s.0 path));
  read_file = λ s path. ok [];
  write_file = λ path content mode s. (ok tt, s);
  mkdir_all = λ path mode s. (ok tt, s);
  create = λ path s. (ok tt, s);
  chmod = λ path mode s. (ok tt, (put_at path mode s.0, s.1));
  remove = λ path s. (ok tt, s);
  open_file = λ s path. ok tt;
  read_dir = λ s path. ok [];
}

abbrev root_line : Str
root_line = str "root opksshuser"

abbrev host : System
host = record {
  fs = mode_fs;
  os_chown = λ path uid gid s. (ok tt, (s.0, put_at path root_line s.1));
  readdir = λ s path. info (str "x.yml") 0 ∷ [];
  run_stat = λ s path. some (s.1 path);
  lookup_user = λ name. if name == str "root" then some 0 else none;
  lookup_group = λ name. if name == str "opksshuser" then some 7 else none;
  dir_of = λ path. path;
  join_path = λ parts. join parts (str "/");
  system_policy = str "/etc/opk/auth_id";
  providers_file = str "/etc/opk/providers";
  config_base = str "/etc/opk";
}

root_of : (owner : Str) (uid : ℕ) → host.lookup_user owner ≡ some uid → str "root" ≡ owner
root_of owner uid h = ground (arith, str_beq_iff owner (str "root"))

group_of : (group : Str) (gid : ℕ) → host.lookup_group group ≡ some gid → str "opksshuser" ≡ group
group_of group gid h = ground (arith, str_beq_iff group (str "opksshuser"))

host_IsLawful : IsLawful host
unfolding split trim_space
host_IsLawful = record {
  chmod_sets = λ path mode s h. ground (arith, str_beq_iff path path);
  chmod_elsewhere = λ path other mode s n. ground (arith, str_beq_iff path other);
  chmod_owner = λ path other mode s. refl;
  chown_sets = λ path owner group uid gid s u g h. (
    root_line,
    ground (arith, str_beq_iff path path),
    ap (λ o. o ∷ str "opksshuser" ∷ []) (root_of owner uid u)
        ∙ ap (λ g. owner ∷ g ∷ []) (group_of group gid g),
  );
  chown_elsewhere = λ path other uid gid s n. ground (arith, str_beq_iff path other);
  chown_mode = λ path other uid gid s. refl;
  mkdir_keeps = λ path dir output mode bits s b o. (b, o);
}

abbrev before : Modes
before = ((λ path. 0o644), λ path. str "alice alice")

not_a_plugin :
    (path : Str)
    → (path ≡ host.system_policy) ⊎ (path ≡ host.providers_file) ⊎ (path ≡ config_file host)
    → path ≢ host.join_path (plugins_dir host ∷ str "x.yml" ∷ [])
unfolding join
not_a_plugin path (inl w) e = ground (arith, sym w ∙ e)
not_a_plugin path (inr (inl w)) e = ground (arith, sym w ∙ e)
not_a_plugin path (inr (inr w)) e = ground (arith, sym w ∙ e)

paths_Separate : Separate host before
unfolding join str_beq
paths_Separate = record {
  policy_providers = λ e. ground arith;
  policy_config = λ e. ground arith;
  providers_config = λ e. ground arith;
  apart = λ path which. ((λ e. not_a_plugin path which e), tt);
}

fix_runs :
    fix host false true false (some true) none before
    ≡ (ok tt, (fix host false true false (some true) none before).1)
unfolding fix execute with_directory with_config with_providers with_policy attempt set_perms chown
    create_file if_present if_missing fix_plugins_dir fix_plugins join str_beq has_suffix has_prefix
fix_runs = refl

Right-fix_example : Right host before (fix host false true false (some true) none before).1
Right-fix_example =
    Right-fix host before host_IsLawful paths_Separate true (some true) none
      (fix host false true false (some true) none before).1 fix_runs
