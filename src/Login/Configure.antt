-- ===== src/Login/Configure.antt =====
-- The set up of the identity directory: `configureSSH` and `checkSSHConfigured`.
use opkssh.Base.{
  ℕ, Bool, false, [], ◌∷◌, ◌++◌, Option, none, some, Str, str, str_eq, if◌then◌else◌, Result, ok,
  err, then_do,
}
use opkssh.Text.{includes}
use opkssh.Files.{FsError, not_exist, FileInfo}
use opkssh.Login.{Client}

pub data ConfigureError : Type 0 where
  no_home : ConfigureError
  directory_failed file_failed unreadable unwritable : FsError → ConfigureError

abbrev pub include_directive : Str
include_directive = str "Include ~/.ssh/opkssh/config"

module _ (client : Client) where
  open client use {fs, join_path}

  abbrev pub user_ssh_config : Str → Str
  user_ssh_config home = join_path (home ∷ str ".ssh/config" ∷ [])

  abbrev pub user_opk_ssh_dir : Str → Str
  user_opk_ssh_dir home = join_path (home ∷ str ".ssh/opkssh" ∷ [])

  abbrev pub user_opk_ssh_config : Str → Str
  user_opk_ssh_config home = join_path (user_opk_ssh_dir home ∷ str "config" ∷ [])

  -- `OpenFile(path, O_CREATE, mode)`: like a creation, but it keeps what is there.
  module _ (open_create : Str → ℕ → fs.State → Result FsError (Unit {0}) × fs.State) where
    abbrev pub Outcome : Type 0
    Outcome = Result ConfigureError (Unit {0}) × fs.State

    -- The configuration of the user with the directive at its head.
    abbrev pub included : Str → fs.State → Str → Outcome
    included path s content =
        if includes content include_directive
        then (ok tt, s)
        else then_do unwritable
            (fs.write_file path (include_directive ++ (str "\n\n" ++ content)) 0o600 s)
            λ s. (ok tt, s)

    abbrev pub with_read : Str → fs.State → Result FsError Str → Outcome
    with_read path s (ok content) = included path s content
    with_read path s (err not_exist) = included path s []
    with_read path s (err e) = (err (unreadable e), s)

    abbrev pub configure_home : Str → fs.State → Outcome
    configure_home home s =
        then_do directory_failed (fs.mkdir_all (user_opk_ssh_dir home) 0o700 s) λ s.
          then_do file_failed (open_create (user_opk_ssh_config home) 0o600 s)
            λ s. with_read (user_ssh_config home) s (fs.read_file s (user_ssh_config home))

    abbrev pub configure_at : fs.State → Option Str → Outcome
    configure_at s none = (err no_home, s)
    configure_at s (some home) = configure_home home s

    -- `configureSSH()`; it sets `l.SSHConfigured` exactly if it returns no error.
    unfoldable pub configure_ssh : fs.State → Outcome
    configure_ssh s = configure_at s client.home

  abbrev pub read_configured : Result FsError Str → Result FsError FileInfo → Bool
  read_configured (err e) config = false
  read_configured (ok content) (err e) = false
  read_configured (ok content) (ok info) = includes content include_directive

  abbrev pub configured_at : fs.State → Option Str → Bool
  configured_at s none = false
  configured_at s (some home) =
      read_configured (fs.read_file s (user_ssh_config home)) (fs.stat s (user_opk_ssh_config home))

  -- Whether `checkSSHConfigured()` sets `l.SSHConfigured`.
  unfoldable pub check_ssh_configured : fs.State → Bool
  check_ssh_configured s = configured_at s client.home
