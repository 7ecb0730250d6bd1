-- ===== src/SshCert.antt =====
-- The SSH certificate that carries a PK Token: sshcert/sshcert.go.
pub mod Smuggle
use opkssh.Base.{
  ℕ, Bool, true, false, List, [], ◌∷◌, ◌++◌, Option, none, some, Str, str, ◌==◌, str_eq,
  if◌then◌else◌, Result, ok, err,
}
use opkssh.Plugins.{Run, returned, crash}

-- The libraries of tokens, keys and SSH. `decode` is `pktoken.NewFromCompact`, `compact` the
-- method `Compact`, `user_key` the method `GetCicValues` with `PublicKey`, `email_of` the read of
-- the email claim from the payload, `ssh_key` is `ssh.NewPublicKey`, `crypto_key` the conversion
-- to `ssh.CryptoPublicKey`, which panics for a key of another kind, and `import_key` is
-- `jwk.Import`.
pub record Crypto : Type 1 where
  pub Pkt : Type 0
  pub Key : Type 0
  pub SshKey : Type 0
  pub Jwk : Type 0
  pub decode : Str → Option Pkt
  pub compact : Pkt → Option Str
  pub email_of : Pkt → Option Str
  pub user_key : Pkt → Option Key
  pub ssh_key : Key → Option SshKey
  pub crypto_key : SshKey → Option Key
  pub import_key : Key → Option Jwk
  pub same_key : Jwk → Jwk → Bool
  -- `pktVerifier.VerifyPKToken`, within its time limit.
  pub verify : Pkt → Bool

pub data CertError : Type 0 where
  bad_claims bad_key not_compact : CertError
  missing_extension bad_extension : CertError
  unverified no_user_key import_failed key_mismatch : CertError

-- The fields of `ssh.Certificate` that are used; `signature_key` is the marshalled CA key.
pub record Certificate (SshKey : Type 0) : Type 0 where
  pub key : SshKey
  pub key_id : Str
  pub valid_principals : List Str
  pub extensions : List (Str × Str)
  pub signature_key : Str

unfoldable pub extension : Str → List (Str × Str) → Option Str
extension k [] = none
extension k ((j, v) ∷ es) = if j == k then some v else extension k es

abbrev pub pkt_extension : Str
pkt_extension = str "openpubkey-pkt"

abbrev pub act_extension : Str
act_extension = str "openpubkey-act"

-- The map of extensions; an access token of nil adds none.
abbrev pub extensions_of : Str → Option Str → List (Str × Str)
extensions_of pkt token =
    (str "permit-X11-forwarding", [])
    ∷ (str "permit-agent-forwarding", [])
    ∷ (str "permit-port-forwarding", [])
    ∷ (str "permit-pty", [])
    ∷ (str "permit-user-rc", [])
    ∷ (pkt_extension, pkt)
    ∷ elim token [ none ↦ [] | some t ↦ (act_extension, t) ∷ [] ]

module _ (c : Crypto) where
  open c use {Pkt, SshKey}

  -- `sshPubkeyFromPKT(pkt)`
  unfoldable pub ssh_pubkey_from_pkt : Pkt → Option SshKey
  ssh_pubkey_from_pkt pkt = elim (c.user_key pkt) [ none ↦ none | some k ↦ c.ssh_key k ]

  -- `New(pkt, accessToken, principals)`; the certificate has no signature yet.
  unfoldable pub new : Pkt → Option Str → List Str → Result CertError (Certificate SshKey)
  unfolding ssh_pubkey_from_pkt
  new pkt token principals = elim (c.email_of pkt) [
    | none ↦ err bad_claims
    | some email ↦ elim (ssh_pubkey_from_pkt pkt) [
      | none ↦ err bad_key
      | some k ↦ elim (c.compact pkt) [
        | none ↦ err not_compact
        | some text ↦ ok (record {
          key = k;
          key_id = email;
          valid_principals = principals;
          extensions = extensions_of text token;
          signature_key = [];
        })
      ]
    ]
  ]

  -- `GetPKToken()`
  unfoldable pub get_pk_token : Certificate SshKey → Result CertError Pkt
  unfolding extension
  get_pk_token cert = elim (extension pkt_extension cert.extensions) [
    | none ↦ err missing_extension
    | some text ↦ elim (c.decode text) [ none ↦ err bad_extension | some pkt ↦ ok pkt ]
  ]

  -- `GetAccessToken()`
  unfoldable pub get_access_token : Certificate SshKey → Str
  unfolding extension
  get_access_token cert = elim (extension act_extension cert.extensions) [
    | none ↦ []
    | some token ↦ token
  ]

  abbrev pub compare_keys : Pkt → Option c.Jwk → Option c.Jwk → Result CertError Pkt
  compare_keys pkt (some cert_key) (some upk) =
      if c.same_key cert_key upk then ok pkt else err key_mismatch
  compare_keys pkt _ _ = err import_failed

  abbrev pub check_cert_key : Certificate SshKey → Pkt → c.Jwk → Run (Result CertError Pkt)
  check_cert_key cert pkt upk = elim (c.crypto_key cert.key) [
    | none ↦ crash
    | some k ↦ returned (compare_keys pkt (c.import_key k) (some upk))
  ]

  abbrev pub check_user_key : Certificate SshKey → Pkt → Run (Result CertError Pkt)
  check_user_key cert pkt = elim (c.user_key pkt) [
    | none ↦ returned (err no_user_key)
    | some k ↦ elim (c.import_key k) [
      | none ↦ returned (err import_failed)
      | some upk ↦ check_cert_key cert pkt upk
    ]
  ]

  -- `VerifySshPktCert(ctx, pktVerifier)`
  unfoldable pub verify_ssh_pkt_cert : Certificate SshKey → Run (Result CertError Pkt)
  unfolding get_pk_token
  verify_ssh_pkt_cert cert = elim (get_pk_token cert) [
    | err e ↦ returned (err e)
    | ok pkt ↦ if c.verify pkt then check_user_key cert pkt else returned (err unverified)
  ]
