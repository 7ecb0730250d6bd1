-- ===== src/Logout/Match.antt =====
-- `verifyKeyPairMatch` and `isOpenpubkeyComment`.
use opkssh.Base.{
  Bool, false, Option, none, some, Str, str, ◌==◌, nat_eq, str_eq, Result, ok, err, ◌>>=◌, ◌>>◌,
  guard,
}
use opkssh.Text.{has_prefix}
use opkssh.Login.{Ssh}

pub data MatchError : Type 0 where
  key_unparsed certificate_unparsed no_certificate keys_differ : MatchError
  types_differ : Str → Str → MatchError

module _ (ssh : Ssh) where
  open ssh use {PublicKey}

  abbrev required {ℓ} : {A : Type ℓ} → Option A → MatchError → Result MatchError A
  required none e = err e
  required (some a) e = ok a

  -- `verifyKeyPairMatch(secKeyBytes, pubKeyBytes)`
  unfoldable pub verify_key_pair_match : Str → Str → Result MatchError (Unit {0})
  verify_key_pair_match sec_bytes pub_bytes =
      required (ssh.parse_private_key sec_bytes) key_unparsed >>= λ sec.
      required (ssh.parse_authorized_key pub_bytes) certificate_unparsed >>= λ parsed.
      required (ssh.certificate_key parsed.0) no_certificate >>= λ cert_key.
      guard (ssh.key_type sec == ssh.key_type cert_key)
        (types_differ (ssh.key_type sec) (ssh.key_type cert_key))
      >> guard (ssh.marshal sec == ssh.marshal cert_key) keys_differ

  abbrev pub has_comment : Option (PublicKey × Str) → Bool
  has_comment none = false
  has_comment (some (key, comment)) = has_prefix comment (str "openpubkey")

  -- `isOpenpubkeyComment(pubKeyBytes)`
  unfoldable pub is_openpubkey_comment : Str → Bool
  is_openpubkey_comment pub_bytes = has_comment (ssh.parse_authorized_key pub_bytes)
