-- ===== src/Login.antt =====
-- `opkssh login`: commands/login.go, from the keys that are made on. What login and logout share.
pub mod Lifetime
pub mod Keys
pub mod Kept
pub mod FileName
pub mod Configure
pub mod Configured
pub mod Provider
pub mod Chooser
use opkssh.Base.{ℕ, List, [], ◌∷◌, ◌++◌, Option, none, some, Str, str, Result, then_do}
use opkssh.Files.{FsError, Fs}

-- `KeyType`, an int with two named values.
pub data KeyType : Type 0 where
  ecdsa ed25519 unknown : KeyType

-- `DefaultSSHKeyFileNames`, a map of two keys.
abbrev pub default_ssh_key_file_names : KeyType → Option (List Str)
default_ssh_key_file_names ecdsa = some (str "id_ecdsa" ∷ str "id_ecdsa_sk" ∷ [])
default_ssh_key_file_names ed25519 = some (str "id_ed25519" ∷ str "id_ed25519_sk" ∷ [])
default_ssh_key_file_names unknown = none

-- golang.org/x/crypto/ssh: the parsers of key files, and what is read of a key.
pub record Ssh : Type 1 where
  pub PublicKey : Type 0
  -- `ssh.ParseAuthorizedKey`: the key and the comment.
  pub parse_authorized_key : Str → Option (PublicKey × Str)
  -- `ssh.ParsePrivateKey` and `PublicKey()`.
  pub parse_private_key : Str → Option PublicKey
  -- `key.(*ssh.Certificate)` and its field `Key`.
  pub certificate_key : PublicKey → Option PublicKey
  pub key_type : PublicKey → Str
  pub marshal : PublicKey → Str

-- The machine of a client. `home` is `os.UserHomeDir()` and `join_path` is `filepath.Join`.
pub record Client : Type 1 where
  pub fs : Fs
  pub ssh : Ssh
  pub home : Option Str
  pub join_path : List Str → Str

abbrev pub certificate_path : Str → Str
certificate_path seckey_path = seckey_path ++ str "-cert.pub"

module _ (client : Client) where
  open client use {fs}

  -- `writeKeysComment(seckeyPath, pubkeyPath, seckeySshPem, certBytes, pubKeyComment)`
  unfoldable pub write_keys_comment :
      Str → Str → Str → Str → Str → fs.State → Result FsError (Unit {0}) × fs.State
  write_keys_comment seckey_path pubkey_path pem cert_bytes comment s =
      then_do (λ e. e) (fs.write_file seckey_path pem 0o600 s)
        λ s. fs.write_file pubkey_path (cert_bytes ++ b' ' ∷ comment) 0o644 s

  -- `writeKeys(seckeyPath, pubkeyPath, seckeySshPem, certBytes)`
  unfoldable pub write_keys :
      Str → Str → Str → Str → fs.State → Result FsError (Unit {0}) × fs.State
  write_keys seckey_path pubkey_path pem cert_bytes s =
      then_do (λ e. e) (fs.write_file seckey_path pem 0o600 s)
        λ s. fs.write_file pubkey_path (cert_bytes ++ str " openpubkey") 0o644 s
