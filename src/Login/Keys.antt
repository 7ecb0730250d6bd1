-- ===== src/Login/Keys.antt =====
-- Where a login writes its keys: `writeKeysToDestination`, `writeKeysToSSHDir`,
-- `writeKeysToOpkSSHDir` and `makeSSHKeyFileName`.
use opkssh.Base.{
  ℕ, Bool, true, false, not, ◌&&◌, ◌||◌, List, [], ◌∷◌, ◌++◌, Option, none, some, Str, str, ◌==◌,
  nat_eq, str_eq, if◌then◌else◌, ltb, leb, Result, ok, err, wrap, then_do, length, zero, suc,
}
use opkssh.Text.{cut_prefix, includes}
use opkssh.Files.{FsError, not_exist}
use opkssh.Login.{
  KeyType, default_ssh_key_file_names, Client, certificate_path, write_keys, write_keys_comment,
}

pub data KeysError : Type 0 where
  no_home no_default_name no_free_name : KeysError
  keys_failed mkdir_failed config_unreadable config_failed : FsError → KeysError

-- `[a-zA-Z0-9_\-.]`
unfoldable pub is_kept : ℕ → Bool
is_kept c =
    (leb b'a' c && leb c b'z')
    || (leb b'A' c && leb c b'Z')
    || (leb b'0' c && leb c b'9')
    || c == b'_'
    || c == b'-'
    || c == b'.'

-- `regex.ReplaceAllString(s, "_")` for runs of bytes that are not kept; the flag tells that the
-- byte before was one.
unfoldable pub replace_runs : Bool → Str → Str
unfolding is_kept
replace_runs in_run [] = []
replace_runs in_run (c ∷ s) =
    let kept = replace_runs false s in
    let replaced = replace_runs true s in
    if is_kept c then c ∷ kept else if in_run then replaced else b'_' ∷ replaced

abbrev pub take : ℕ → Str → Str
take zero s = []
take (suc n) [] = []
take (suc n) (c ∷ s) = c ∷ take n s

-- The issuer and the audience of the PK Token, where they can be read.
pub record Token : Type 0 where
  pub issuer : Option Str
  pub audience : Option Str

abbrev pub or_unknown : Option Str → Str
or_unknown none = str "unknown"
or_unknown (some s) = s

-- `makeSSHKeyFileName(pkt)`
unfoldable pub make_ssh_key_file_name : Token → Str
unfolding replace_runs
make_ssh_key_file_name pkt =
    let issuer = cut_prefix (or_unknown pkt.issuer) (str "https://") in
    let audience = or_unknown pkt.audience in
    let shortened = if ltb 20 (length audience) then take 20 audience else audience in
    replace_runs false (issuer ++ b'-' ∷ shortened)

abbrev pub identity_line : Str → Str
identity_line path = str "IdentityFile " ++ path

-- The configuration with the key in it.
unfoldable pub with_identity : Str → Str → Str
with_identity path content =
    if includes content path then content else identity_line path ++ b'\n' ∷ content

abbrev pub comment_of : Token → Str
comment_of pkt = str " openpubkey: " ++ (or_unknown pkt.issuer ++ b' ' ∷ or_unknown pkt.audience)

module _ (client : Client) where
  open client use {fs, ssh, join_path}

  -- `l.fileExists(fPath)`
  abbrev pub exists_of_open : Result FsError (Unit {0}) → Bool
  exists_of_open (err not_exist) = false
  exists_of_open _ = true

  unfoldable pub file_exists : Str → fs.State → Bool
  file_exists path s = exists_of_open (fs.open_file s path)

  abbrev pub opk_ssh_dir : Str → Str
  opk_ssh_dir home = join_path (home ∷ str ".ssh/opkssh" ∷ [])

  abbrev pub Outcome : Type 0
  Outcome = Result KeysError (Unit {0}) × fs.State

  abbrev pub written : Result FsError (Unit {0}) × fs.State → Outcome
  written (r, s) = (wrap keys_failed r, s)

  abbrev pub with_home : Option Str → fs.State → (Str → Outcome) → Outcome
  with_home none s f = (err no_home, s)
  with_home (some home) s f = f home

  -- Whether the certificate of a key file is one that opkssh wrote.
  abbrev pub generated : Option (ssh.PublicKey × Str) → Bool
  generated none = false
  generated (some (key, comment)) = comment == str "openpubkey"

  abbrev pub overwritable : Result FsError Str → Bool
  overwritable (err e) = false
  overwritable (ok content) = generated (ssh.parse_authorized_key content)

  -- Whether the loop takes the files of a name.
  unfoldable pub is_free : Str → Str → fs.State → Bool
  unfolding file_exists
  is_free seckey_path pubkey_path s =
      if not (file_exists seckey_path s)
      then true
      else if not (file_exists pubkey_path s)
      then false
      else overwritable (fs.read_file s pubkey_path)

  module _ (pem cert_bytes : Str) where
    abbrev pub with_config : Str → Str → Token → fs.State → Result FsError Str → Outcome
    with_config dir path pkt s (err e) = (err (config_unreadable e), s)
    with_config dir path pkt s (ok content) =
        then_do config_failed
          (fs.write_file (join_path (dir ∷ str "config" ∷ [])) (with_identity path content) 0o600 s)
          λ s. written (
            write_keys_comment client path (join_path (certificate_path path ∷ [])) pem cert_bytes
              (comment_of pkt) s)

    abbrev pub in_opk_dir : Str → Token → fs.State → Outcome
    in_opk_dir dir pkt s =
        with_config dir (join_path (dir ∷ make_ssh_key_file_name pkt ∷ [])) pkt s
          (fs.read_file s (join_path (dir ∷ str "config" ∷ [])))

    -- `writeKeysToOpkSSHDir(secKeyPem, certBytes)`
    unfoldable pub write_keys_to_opk_ssh_dir : Token → fs.State → Outcome
    unfolding write_keys_comment with_identity make_ssh_key_file_name
    write_keys_to_opk_ssh_dir pkt s =
        with_home client.home s λ home. in_opk_dir (opk_ssh_dir home) pkt s

    -- The loop over the file names.
    unfoldable pub write_first_free : Str → List Str → fs.State → Outcome
    unfolding is_free write_keys
    write_first_free ssh_path [] s = (err no_free_name, s)
    write_first_free ssh_path (name ∷ names) s =
        let rest = write_first_free ssh_path names s in
        let path = join_path (ssh_path ∷ name ∷ []) in
        if is_free path (certificate_path path) s
        then written (write_keys client path (certificate_path path) pem cert_bytes s)
        else rest

    abbrev pub in_default : Str → Option (List Str) → fs.State → Outcome
    in_default ssh_path none s = (err no_default_name, s)
    in_default ssh_path (some names) s = write_first_free ssh_path names s

    abbrev pub in_ssh_dir : KeyType → Str → fs.State → Outcome
    in_ssh_dir key_type ssh_path s =
        then_do mkdir_failed (fs.mkdir_all ssh_path 0o777 s)
          λ s. in_default ssh_path (default_ssh_key_file_names key_type) s

    -- `writeKeysToSSHDir(seckeySshPem, certBytes)`
    unfoldable pub write_keys_to_ssh_dir : KeyType → fs.State → Outcome
    unfolding write_first_free
    write_keys_to_ssh_dir key_type s =
        with_home client.home s λ home. in_ssh_dir key_type (join_path (home ∷ str ".ssh" ∷ [])) s

    -- `writeKeysToDestination(seckeyPath, seckeySshPem, certBytes)` with `l.SSHConfigured`,
    -- `l.KeyTypeArg` and `l.pkt`.
    unfoldable pub write_keys_to_destination : Str → Bool → KeyType → Token → fs.State → Outcome
    unfolding write_keys write_keys_to_opk_ssh_dir write_keys_to_ssh_dir
    write_keys_to_destination seckey_path configured key_type pkt s =
        if not (seckey_path == [])
        then written (write_keys client seckey_path (certificate_path seckey_path) pem cert_bytes s)
        else if configured
        then write_keys_to_opk_ssh_dir pkt s
        else write_keys_to_ssh_dir key_type s
