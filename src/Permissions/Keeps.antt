-- ===== src/Permissions/Keeps.antt =====
-- What the steps of a fix leave as it is: the permissions of other paths.
use opkssh.Base.{
  ℕ, Bool, true, false, ◌&&◌, List, [], ◌∷◌, ◌≡◌, ◌≢◌, inl, inr, refl, sym, subst, ◌∙◌, arith,
  Option, none, some, Str, ◌==◌, nat_eq, str_eq, nat_beq_iff, All, if◌then◌else◌, Result, ok, err,
  Bool-cases,
}
use opkssh.Text.{split, trim_space}
use opkssh.Files.{FsError, FileInfo, perm, passed, check_perm}
use opkssh.Files.Perms.{IsSafe, check_perm_passed_iff}
use opkssh.Permissions.Problems.{check_at}
use opkssh.Permissions.{
  PermInfo, system_file_perms, plugin_file_perms, System, ChangeError, FixError, changing_owner,
  changing_mode, making_directory, Changed, change, with_ids, chown, Progress, noted, attempt,
  set_perms, missing, if_present, if_missing, fix_plugins, opened_dir, fix_plugins_dir, plugins_dir,
}

-- The permission bits of a path, where it can be described.
abbrev pub mode_of : Result FsError FileInfo → Option ℕ
mode_of (ok info) = some (perm info.mode)
mode_of (err e) = none

module _ (host : System) where
  open host use {fs}

  abbrev pub mode_at : fs.State → Str → Option ℕ
  mode_at s path = mode_of (fs.stat s path)

  -- What the documentation says of the operations: the bits and the owner that they set, and that
  -- other paths keep theirs. `stat` prints the names of the owner and the group.
  pub record IsLawful : Type 0 where
    pub chmod_sets :
        (path : Str) (mode : ℕ) (s : fs.State)
        → (fs.chmod path mode s).0 ≡ ok tt
        → mode_at (fs.chmod path mode s).1 path ≡ some (perm mode)
    pub chmod_elsewhere :
        (path other : Str) (mode : ℕ) (s : fs.State)
        → path ≢ other
        → mode_at (fs.chmod other mode s).1 path ≡ mode_at s path
    pub chmod_owner :
        (path other : Str) (mode : ℕ) (s : fs.State)
        → host.run_stat (fs.chmod other mode s).1 path ≡ host.run_stat s path
    pub chown_sets :
        (path owner group : Str) (uid gid : ℕ) (s : fs.State)
        → host.lookup_user owner ≡ some uid
        → host.lookup_group group ≡ some gid
        → (host.os_chown path uid gid s).0 ≡ ok tt
        → (output : Str) × (host.run_stat (host.os_chown path uid gid s).1 path ≡ some output)
          × (split (trim_space output) b' ' ≡ owner ∷ group ∷ [])
    pub chown_elsewhere :
        (path other : Str) (uid gid : ℕ) (s : fs.State)
        → path ≢ other
        → host.run_stat (host.os_chown other uid gid s).1 path ≡ host.run_stat s path
    pub chown_mode :
        (path other : Str) (uid gid : ℕ) (s : fs.State)
        → mode_at (host.os_chown other uid gid s).1 path ≡ mode_at s path
    -- A path that is there keeps its bits and its owner when a directory is made.
    pub mkdir_keeps :
        (path dir output : Str) (mode bits : ℕ) (s : fs.State)
        → mode_at s path ≡ some bits
        → host.run_stat s path ≡ some output
        → (mode_at (fs.mkdir_all dir mode s).1 path ≡ some bits)
          × (host.run_stat (fs.mkdir_all dir mode s).1 path ≡ some output)

  -- A path with the bits, the owner and the group that are asked for.
  pub record Correct (info : PermInfo) (path : Str) (s : fs.State) : Type 0 where
    pub bits : mode_at s path ≡ some info.mode
    pub output : Str
    pub printed : host.run_stat s path ≡ some output
    pub owned : split (trim_space output) b' ' ≡ info.owner ∷ info.group ∷ []

  pub Correct-check :
      (info : PermInfo) (path : Str) (s : fs.State)
      → Correct info path s
      → check_at host info path s ≡ passed
  Correct-check info path s c = go (fs.stat s path) c.bits
    where
      safe :
          (i : FileInfo)
          → perm i.mode ≡ info.mode
          → IsSafe (host.run_stat s) i path (info.mode ∷ []) info.owner info.group
      safe i e = record {
        mode_listed = ground (arith, nat_beq_iff info.mode (perm i.mode));
        owned = inr (rw (c.printed, c.owned) (inr refl, inr refl));
      }

      go :
          (r : Result FsError FileInfo)
          → mode_of r ≡ some info.mode
          → check_perm (host.run_stat s) r path (info.mode ∷ []) info.owner info.group ≡ passed
      go (err e) h = cc
      go (ok i) h =
          (check_perm_passed_iff (host.run_stat s) i path (info.mode ∷ []) info.owner info.group).1
            (safe i (ground arith))

  -- The paths of the entries that the loop over the plugins changes.
  abbrev pub Apart : Str → List FileInfo → Type 0
  Apart path entries =
      All (λ (e : FileInfo). path ≢ host.join_path (plugins_dir host ∷ e.name ∷ [])) entries

  module _ (laws : IsLawful) where
    -- Setting the permissions of another path keeps those of a path.
    Correct-chmod :
        (info : PermInfo) (path other : Str) (mode : ℕ) (s : fs.State)
        → path ≢ other
        → Correct info path s
        → Correct info path (fs.chmod other mode s).1
    Correct-chmod info path other mode s n c = record {
      bits = laws.chmod_elsewhere path other mode s n ∙ c.bits;
      output = c.output;
      printed = laws.chmod_owner path other mode s ∙ c.printed;
      owned = c.owned;
    }

    Correct-os_chown :
        (info : PermInfo) (path other : Str) (uid gid : ℕ) (s : fs.State)
        → path ≢ other
        → Correct info path s
        → Correct info path (host.os_chown other uid gid s).1
    Correct-os_chown info path other uid gid s n c = record {
      bits = laws.chown_mode path other uid gid s ∙ c.bits;
      output = c.output;
      printed = laws.chown_elsewhere path other uid gid s n ∙ c.printed;
      owned = c.owned;
    }

    Correct-mkdir :
        (info : PermInfo) (path dir : Str) (mode : ℕ) (s : fs.State)
        → Correct info path s
        → Correct info path (fs.mkdir_all dir mode s).1
    Correct-mkdir info path dir mode s c =
        let (bits, printed) =
          laws.mkdir_keeps path dir c.output mode info.mode s c.bits c.printed in
        record { bits = bits; output = c.output; printed = printed; owned = c.owned }

    Correct-with_ids :
        (info : PermInfo) (path other : Str) (s : fs.State) (u g : Result ChangeError ℕ)
        → path ≢ other
        → Correct info path s
        → Correct info path (with_ids host other s u g).1
    Correct-with_ids info path other s (err e) g n c = c
    Correct-with_ids info path other s (ok uid) (err e) n c = c
    Correct-with_ids info path other s (ok uid) (ok gid) n c =
        Correct-os_chown info path other uid gid s n c

    Correct-chown :
        (info : PermInfo) (path other owner group : Str) (s : fs.State)
        → path ≢ other
        → Correct info path s
        → Correct info path (chown host other owner group s).1
    unfolding chown
    Correct-chown info path other owner group s n c =
        elim (Bool-cases (owner == [] && group == [])) [
          | inl e ↦ rw e c
          | inr e ↦ rw e (Correct-with_ids info path other s _ _ n c)
        ]

    -- A predicate on the files carried through an operation whose error is noted.
    state-noted :
        (errors : List FixError) (f : ChangeError → FixError) (c : Changed host)
        → (noted host errors f c).1 ≡ c.1
    state-noted errors f (ok _, s) = refl
    state-noted errors f (err e, s) = refl

    Correct-attempt :
        (info : PermInfo) (path : Str) (f : ChangeError → FixError) (op : fs.State → Changed host)
        (p : Progress host)
        → ((s : fs.State) → Correct info path s → Correct info path (op s).1)
        → Correct info path p.1
        → Correct info path (attempt host f op p).1
    unfolding attempt
    Correct-attempt info path f op (errors, s) step c =
        subst (Correct info path) (sym (state-noted errors f (op s))) (step s c)

    pub Correct-set_perms :
        (info other_info : PermInfo) (path other : Str) (p : Progress host)
        → path ≢ other
        → Correct info path p.1
        → Correct info path (set_perms host other_info other p).1
    unfolding set_perms
    Correct-set_perms info other_info path other p n c =
        Correct-attempt info path (changing_owner other)
          (chown host other other_info.owner other_info.group) _
          (λ s. Correct-chown info path other other_info.owner other_info.group s n)
          (Correct-attempt info path (changing_mode other)
            (λ s. change host (fs.chmod other other_info.mode s)) p
            (λ s. Correct-chmod info path other other_info.mode s n) c)

    Correct-if :
        (info : PermInfo) (path : Str) (b : Bool) (p q : Progress host)
        → Correct info path p.1
        → Correct info path q.1
        → Correct info path (if b then p else q).1
    Correct-if info path true p q c d = c
    Correct-if info path false p q c d = d

    Correct-fix_plugins :
        (info : PermInfo) (path : Str) (entries : List FileInfo) (p : Progress host)
        → Apart path entries
        → Correct info path p.1
        → Correct info path (fix_plugins host entries p).1
    unfolding fix_plugins
    Correct-fix_plugins info path [] p a c = c
    Correct-fix_plugins info path (e ∷ es) p (n, a) c = Correct-fix_plugins info path es _ a (
        Correct-if info path _
          (set_perms host plugin_file_perms (host.join_path (plugins_dir host ∷ e.name ∷ [])) p) p
          (Correct-set_perms info plugin_file_perms path _ p n c) c)

    pub Correct-fix_plugins_dir :
        (info : PermInfo) (path : Str) (p : Progress host)
        → Apart path (host.readdir p.1 (plugins_dir host))
        → Correct info path p.1
        → Correct info path (fix_plugins_dir host p).1
    unfolding fix_plugins_dir
    Correct-fix_plugins_dir info path (errors, s) a c = go (fs.open_file s (plugins_dir host))
      where
        go : (r : Result FsError (Unit {0})) → Correct info path (opened_dir host (errors, s) r).1
        go (err e) = c
        go (ok _) =
            Correct-fix_plugins info path (host.readdir s (plugins_dir host)) (errors, s) a c

    pub Correct-if_present :
        (info : PermInfo) (path other : Str) (p : Progress host)
        → path ≢ other
        → Correct info path p.1
        → Correct info path (if_present host other (set_perms host system_file_perms other) p).1
    unfolding if_present
    Correct-if_present info path other (errors, s) n c =
        Correct-if info path (missing host (fs.stat s other)) (errors, s) _ c
          (Correct-set_perms info system_file_perms path other (errors, s) n c)

    pub Correct-mkdir_step :
        (info : PermInfo) (path dir : Str) (mode : ℕ) (p : Progress host)
        → Correct info path p.1
        → Correct info path
            (if_missing host dir
              (attempt host (making_directory dir) λ s. change host (fs.mkdir_all dir mode s))
              p).1
    unfolding if_missing
    Correct-mkdir_step info path dir mode (errors, s) c =
        Correct-if info path (missing host (fs.stat s dir)) _ (errors, s)
          (Correct-attempt info path (making_directory dir)
            (λ s. change host (fs.mkdir_all dir mode s)) (errors, s)
            (λ s. Correct-mkdir info path dir mode s) c)
          c
