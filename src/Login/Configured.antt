-- ===== src/Login/Configured.antt =====
-- A set up that succeeds is found by the next login.
use opkssh.Base.{
  ℕ, Bool, true, false, [], ◌++◌, ◌≡◌, ◌≢◌, refl, sym, subst, ap, ◌∙◌, Option, none, some, Str, str,
  str_eq, str_beq, if◌then◌else◌, Result, ok, err, then_do,
}
use opkssh.Text.{includes}
use opkssh.Text.Includes.{includes-part}
use opkssh.Files.{FsError, not_exist, permission, other, FileInfo}
use opkssh.Files.Load.{IsLawful}
use opkssh.Login.{Client}
use opkssh.Login.Configure.{
  include_directive, user_ssh_config, user_opk_ssh_config, user_opk_ssh_dir, Outcome, included,
  with_read, configure_home, configure_ssh, configure_at, configured_at, read_configured,
  check_ssh_configured, directory_failed, file_failed, unwritable,
}

module _ (client : Client)
    (open_create : Str → ℕ → client.fs.State → Result FsError (Unit {0}) × client.fs.State) where
  open client use {fs}

  -- What the documentation of `OpenFile` and `WriteFile` says of a path that is opened or not
  -- written.
  pub record OpensAndKeeps : Type 0 where
    pub opened :
        (path : Str) (mode : ℕ) (s : fs.State)
        → (open_create path mode s).0 ≡ ok tt
        → (info : FileInfo) × (fs.stat (open_create path mode s).1 path ≡ ok info)
    pub kept :
        (path elsewhere content : Str) (mode : ℕ) (info : FileInfo) (s : fs.State)
        → path ≢ elsewhere
        → fs.stat s path ≡ ok info
        → fs.stat (fs.write_file elsewhere content mode s).1 path ≡ ok info

  -- The directive is in the configuration of the user, and the other configuration is there.
  record Ready (home : Str) (s : fs.State) : Type 0 where
    content : Str
    info : FileInfo
    read : fs.read_file s (user_ssh_config client home) ≡ ok content
    included_in : includes content include_directive ≡ true
    there : fs.stat s (user_opk_ssh_config client home) ≡ ok info

  step_ok :
      {E F : Type 0} (f : E → F) (r : Result E (Unit {0}) × fs.State)
      (next : fs.State → Result F (Unit {0}) × fs.State)
      → (then_do f r next).0 ≡ ok tt
      → (r.0 ≡ ok tt) × ((next r.1).0 ≡ ok tt) × ((then_do f r next).1 ≡ (next r.1).1)
  unfolding then_do
  step_ok f (ok _, s) next h = (refl, h, refl)
  step_ok f (err e, s) next h = cc

  module _ (lawful : IsLawful fs) (laws : OpensAndKeeps) (home : Str)
      (apart : user_opk_ssh_config client home ≢ user_ssh_config client home) where
    Ready-written :
        (s : fs.State) (content : Str) (info : FileInfo)
        → fs.stat s (user_opk_ssh_config client home) ≡ ok info
        → (w : Result FsError (Unit {0}) × fs.State)
        → fs.write_file
            (user_ssh_config client home)
            (include_directive ++ (str "\n\n" ++ content))
            0o600
            s
          ≡ w
        → (w.0 ≡ ok tt)
        → Ready home w.1
    Ready-written s content info there (r, t) e h = record {
      content = include_directive ++ (str "\n\n" ++ content);
      info = info;
      read = lawful.read-write _ _ 0o600 s t (e ∙ ap (λ r. (r, t)) h);
      included_in = includes-part [] include_directive (str "\n\n" ++ content);
      there =
          ap (λ w. fs.stat w.1 (user_opk_ssh_config client home)) (sym e)
          ∙ laws.kept _ _ _ 0o600 info s apart there;
    }

    abbrev write_step : Str → fs.State → Outcome client open_create
    write_step content s =
        then_do unwritable
          (fs.write_file (user_ssh_config client home)
            (include_directive ++ (str "\n\n" ++ content)) 0o600 s)
          λ s. (ok tt, s)

    Ready-write_step :
        (s : fs.State) (content : Str) (info : FileInfo)
        → fs.stat s (user_opk_ssh_config client home) ≡ ok info
        → (write_step content s).0 ≡ ok tt
        → Ready home (write_step content s).1
    Ready-write_step s content info there h =
        let text = include_directive ++ (str "\n\n" ++ content) in
        let write = fs.write_file (user_ssh_config client home) text 0o600 s in
        let (done, _, same) = step_ok unwritable write (λ (s : fs.State). (ok tt, s)) h in
        subst (Ready home) (sym same) (Ready-written s content info there write refl done)

    Ready-included :
        (s : fs.State) (content : Str) (info : FileInfo)
        → fs.read_file s (user_ssh_config client home) ≡ ok content
        → fs.stat s (user_opk_ssh_config client home) ≡ ok info
        → (included client open_create (user_ssh_config client home) s content).0 ≡ ok tt
        → Ready home (included client open_create (user_ssh_config client home) s content).1
    Ready-included s content info read there = go (includes content include_directive) refl
      where
        go :
            (b : Bool)
            → includes content include_directive ≡ b
            → (if b then (ok tt, s) else write_step content s).0 ≡ ok tt
            → Ready home (if b then (ok tt, s) else write_step content s).1
        go true e h = record {
          content = content;
          info = info;
          read = read;
          included_in = e;
          there = there;
        }
        go false e h = Ready-write_step s content info there h

    Ready-with_read :
        (s : fs.State) (info : FileInfo) (rd : Result FsError Str)
        → fs.read_file s (user_ssh_config client home) ≡ rd
        → fs.stat s (user_opk_ssh_config client home) ≡ ok info
        → (with_read client open_create (user_ssh_config client home) s rd).0 ≡ ok tt
        → Ready home (with_read client open_create (user_ssh_config client home) s rd).1
    unfolding includes str_beq
    Ready-with_read s info (ok content) e there h = Ready-included s content info e there h
    Ready-with_read s info (err not_exist) e there h = Ready-write_step s [] info there h
    Ready-with_read s info (err permission) e there h = cc
    Ready-with_read s info (err other) e there h = cc

    Ready-configure_home :
        (s : fs.State)
        → (configure_home client open_create home s).0 ≡ ok tt
        → Ready home (configure_home client open_create home s).1
    Ready-configure_home s h =
        let made = fs.mkdir_all (user_opk_ssh_dir client home) 0o700 s in
        let opened = open_create (user_opk_ssh_config client home) 0o600 made.1 in
        let (_, h1, same1) = step_ok directory_failed made _ h in
        let (created, h2, same2) = step_ok file_failed opened _ h1 in
        let (info, there) = laws.opened (user_opk_ssh_config client home) 0o600 made.1 created in
        subst (Ready home) (sym (same1 ∙ same2)) (Ready-with_read opened.1 info _ refl there h2)

    configured_of_Ready :
        (s : fs.State)
        → Ready home s
        → read_configured client
            (fs.read_file s (user_ssh_config client home))
            (fs.stat s (user_opk_ssh_config client home))
          ≡ true
    configured_of_Ready s r = rw (r.read, r.there) r.included_in

  -- The configuration below a home directory is not that of the user.
  abbrev DifferentFiles : Option Str → Type 0
  DifferentFiles none = Unit
  DifferentFiles (some home) = user_opk_ssh_config client home ≢ user_ssh_config client home

  -- After a set up that succeeds, the check of the next login finds the identity directory set up,
  -- so that keys go there. The file system keeps the laws of a write, an opened file is there, and
  -- writing another file does not remove it.
  pub check-configure_ssh :
      (s : fs.State)
      → IsLawful fs
      → OpensAndKeeps
      → DifferentFiles client.home
      → (configure_ssh client open_create s).0 ≡ ok tt
      → check_ssh_configured client (configure_ssh client open_create s).1 ≡ true
  unfolding configure_ssh check_ssh_configured
  check-configure_ssh s lawful laws apart = at_home client.home apart
    where
      at_home :
          (home : Option Str)
          → DifferentFiles home
          → (configure_at client open_create s home).0 ≡ ok tt
          → configured_at client (configure_at client open_create s home).1 home ≡ true
      at_home none n h = cc
      at_home (some home) n h =
          configured_of_Ready lawful laws home n _ (Ready-configure_home lawful laws home n s h)
