-- ===== src/Permissions/Fixed.antt =====
-- After a fix that succeeds.
use opkssh.Base.{
  ℕ, Bool, true, false, not, ◌&&◌, List, [], ◌∷◌, ◌≡◌, ◌⊎◌, inl, inr, refl, ap, ◌∙◌, arith, Option,
  none, some, Str, str, ◌==◌, nat_eq, str_eq, str_beq, if◌then◌else◌, Result, ok, err, Bool-cases,
}
use opkssh.Text.{split, trim_space, has_suffix}
use opkssh.Files.{FsError, FileInfo}
use opkssh.Permissions.{
  PermInfo, system_file_perms, plugin_file_perms, System, ChangeError, FixError, Changed,
  changing_owner, changing_mode, making_directory, change, with_ids, chown, Progress, noted,
  attempt, set_perms, missing, if_present, unknown_account, if_missing, fix_plugins, opened_dir,
  fix_plugins_dir, plugins_dir,
}
use opkssh.Permissions.Keeps.{mode_at, IsLawful, Correct}

module _ (host : System) where
  open host use {fs}

  -- An operation whose error is noted: if there is no error after it, there was none before, and
  -- it succeeded.
  noted_clean :
      (errors : List FixError) (f : ChangeError → FixError) (c : Changed host)
      → (noted host errors f c).0 ≡ []
      → (errors ≡ []) × (c.0 ≡ ok tt) × ((noted host errors f c).1 ≡ c.1)
  noted_clean errors f (ok _, s) h = (h, refl, refl)
  noted_clean [] f (err e, s) h = ground arith
  noted_clean (x ∷ xs) f (err e, s) h = ground arith

  attempt_clean :
      (f : ChangeError → FixError) (op : fs.State → Changed host) (p : Progress host)
      → (attempt host f op p).0 ≡ []
      → (p.0 ≡ []) × ((op p.1).0 ≡ ok tt) × ((attempt host f op p).1 ≡ (op p.1).1)
  unfolding attempt
  attempt_clean f op (errors, s) h = noted_clean errors f (op s) h

  change_ok :
      (r : Result FsError (Unit {0}) × fs.State)
      → (change host r).0 ≡ ok tt
      → (r.0 ≡ ok tt) × ((change host r).1 ≡ r.1)
  change_ok (ok _, s) h = (refl, refl)
  change_ok (err e, s) h = cc

  -- Where a change of owner and group succeeds, both accounts are known.
  with_ids_ok :
      (path owner group : Str) (s : fs.State) (u g : Option ℕ)
      → host.lookup_user owner ≡ u
      → host.lookup_group group ≡ g
      → (with_ids host path s
          (elim u [ none ↦ err (unknown_account owner) | some n ↦ ok n ])
          (elim g [ none ↦ err (unknown_account group) | some n ↦ ok n ])).0
        ≡ ok tt
      → (uid : ℕ) × (gid : ℕ) × (host.lookup_user owner ≡ some uid)
        × (host.lookup_group group ≡ some gid)
        × ((host.os_chown path uid gid s).0 ≡ ok tt)
        × ((with_ids host path s
              (elim u [ none ↦ err (unknown_account owner) | some n ↦ ok n ])
              (elim g [ none ↦ err (unknown_account group) | some n ↦ ok n ])).1
            ≡ (host.os_chown path uid gid s).1)
  with_ids_ok path owner group s none g e f h = cc
  with_ids_ok path owner group s (some uid) none e f h = cc
  with_ids_ok path owner group s (some uid) (some gid) e f h =
      let (done, same) = change_ok (host.os_chown path uid gid s) h in (uid, gid, e, f, done, same)

  module _ (laws : IsLawful host) where
    chown_sets :
        (path : Str) (s : fs.State)
        → (chown host path (str "root") (str "opksshuser") s).0 ≡ ok tt
        → (output : Str) × (host.run_stat (chown host path (str "root") (str "opksshuser") s).1 path
            ≡ some output)
          × (split (trim_space output) b' ' ≡ str "root" ∷ str "opksshuser" ∷ [])
    unfolding chown str_beq
    chown_sets path s h =
        let (uid, gid, u, g, done, same) =
          with_ids_ok path (str "root") (str "opksshuser") s _ _ refl refl h in
        let (output, printed, parts) = laws.chown_sets path _ _ uid gid s u g done in
        (output, ap (λ t. host.run_stat t path) same ∙ printed, parts)

    with_ids_keeps_mode :
        (path : Str) (s : fs.State) (u g : Result ChangeError ℕ)
        → mode_at host (with_ids host path s u g).1 path ≡ mode_at host s path
    with_ids_keeps_mode path s (err e) g = refl
    with_ids_keeps_mode path s (ok uid) (err e) = refl
    with_ids_keeps_mode path s (ok uid) (ok gid) = laws.chown_mode path path uid gid s

    chown_keeps_mode :
        (path owner group : Str) (s : fs.State)
        → mode_at host (chown host path owner group s).1 path ≡ mode_at host s path
    unfolding chown
    chown_keeps_mode path owner group s = elim (Bool-cases (owner == [] && group == [])) [
      | inl e ↦ rw e refl
      | inr e ↦ rw e (with_ids_keeps_mode path s _ _)
    ]

    -- The permissions of a system file are right once they are set without an error.
    pub set_perms-Correct :
        (path : Str) (p : Progress host)
        → (set_perms host system_file_perms path p).0 ≡ []
        → (p.0 ≡ [])
          × Correct host system_file_perms path (set_perms host system_file_perms path p).1
    unfolding set_perms
    set_perms-Correct path p h =
        let (clean1, owned, same1) =
          attempt_clean (changing_owner path) (chown host path (str "root") (str "opksshuser")) _
            h in
        let (clean0, set, same0) =
          attempt_clean (changing_mode path) (λ (s : fs.State). change host (fs.chmod path 0o640 s))
            p clean1 in
        let (done, same) = change_ok (fs.chmod path 0o640 p.1) set in
        let (output, printed, parts) = chown_sets path _ owned in
        (
          clean0,
          record {
            bits =
                ap (λ t. mode_at host t path) same1
                ∙ chown_keeps_mode path (str "root") (str "opksshuser") _
                ∙ ap (λ t. mode_at host t path) (same0 ∙ same)
                ∙ laws.chmod_sets path 0o640 p.1 done;
            output = output;
            printed = ap (λ t. host.run_stat t path) same1 ∙ printed;
            owned = parts;
          },
        )

    set_perms_clean :
        (info : PermInfo) (path : Str) (p : Progress host)
        → (set_perms host info path p).0 ≡ []
        → p.0 ≡ []
    unfolding set_perms
    set_perms_clean info path p h =
        let (h1, _, _) =
          attempt_clean (changing_owner path) (chown host path info.owner info.group) _ h in
        (attempt_clean (changing_mode path)
          (λ (s : fs.State). change host (fs.chmod path info.mode s)) p h1).0

    -- Where a file is present, its permissions are right after the step.
    pub if_present-Correct :
        (path : Str) (p : Progress host)
        → (if_present host path (set_perms host system_file_perms path) p).0 ≡ []
        → (p.0 ≡ [])
          × ((missing host (fs.stat p.1 path) ≡ true)
              ⊎ Correct host system_file_perms path
                  (if_present host path (set_perms host system_file_perms path) p).1)
    unfolding if_present
    if_present-Correct path (errors, s) = go (missing host (fs.stat s path)) refl
      where
        go :
            (b : Bool)
            → missing host (fs.stat s path) ≡ b
            → (if b then (errors, s) else set_perms host system_file_perms path (errors, s)).0 ≡ []
            → (errors ≡ [])
              × ((b ≡ true)
                  ⊎ Correct host system_file_perms path
                      (if b
                        then (errors, s)
                        else set_perms host system_file_perms path (errors, s)).1)
        go true e h = (h, inl refl)
        go false e h =
            let (clean, right) = set_perms-Correct path (errors, s) h in (clean, inr right)

    pub mkdir_clean :
        (dir : Str) (mode : ℕ) (p : Progress host)
        → (if_missing host dir
            (attempt host (making_directory dir) λ s. change host (fs.mkdir_all dir mode s))
            p).0
          ≡ []
        → p.0 ≡ []
    unfolding if_missing
    mkdir_clean dir mode (errors, s) = go (missing host (fs.stat s dir))
      where
        go :
            (b : Bool)
            → (if b
                then attempt host
                    (making_directory dir)
                    (λ s. change host (fs.mkdir_all dir mode s))
                    (errors, s)
                else (errors, s)).0
              ≡ []
            → errors ≡ []
        go true h =
            (attempt_clean (making_directory dir)
              (λ (s : fs.State). change host (fs.mkdir_all dir mode s)) (errors, s) h).0
        go false h = h

    fix_plugins_clean :
        (entries : List FileInfo) (p : Progress host)
        → (fix_plugins host entries p).0 ≡ []
        → p.0 ≡ []
    unfolding fix_plugins
    fix_plugins_clean [] p h = h
    fix_plugins_clean (e ∷ es) p h =
        go (not e.is_dir && has_suffix e.name (str ".yml")) (fix_plugins_clean es _ h)
      where
        go :
            (b : Bool)
            → (if b
                then set_perms host plugin_file_perms
                    (host.join_path (plugins_dir host ∷ e.name ∷ []))
                    p
                else p).0
              ≡ []
            → p.0 ≡ []
        go true h = set_perms_clean plugin_file_perms _ p h
        go false h = h

    pub fix_plugins_dir_clean : (p : Progress host) → (fix_plugins_dir host p).0 ≡ [] → p.0 ≡ []
    unfolding fix_plugins_dir
    fix_plugins_dir_clean (errors, s) = go (fs.open_file s (plugins_dir host))
      where
        go : (r : Result FsError (Unit {0})) → (opened_dir host (errors, s) r).0 ≡ [] → errors ≡ []
        go (err e) h = h
        go (ok _) h = fix_plugins_clean (host.readdir s (plugins_dir host)) (errors, s) h
