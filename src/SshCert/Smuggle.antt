-- ===== src/SshCert/Smuggle.antt =====
-- What goes into a certificate comes out of it, and what a verified certificate guarantees.
use opkssh.Base.{
  true, List, [], ◌≡◌, ◌↔◌, Result-cases, arith, Option, none, some, Str, str_eq, str_beq, ok,
  Option-cases, inl, inr, Bool-cases,
}
use opkssh.Plugins.{returned}
use opkssh.SshCert.{
  Crypto, Certificate, new, get_pk_token, get_access_token, check_user_key, verify_ssh_pkt_cert,
}

abbrev pub token_or_empty : Option Str → Str
token_or_empty none = []
token_or_empty (some t) = t

module _ (c : Crypto) where
  -- The token, the access token and the principals that `New` puts into a certificate are those
  -- that are read from it, if the compact form of the token decodes to it.
  pub get-new :
      (pkt : c.Pkt) (token : Option Str) (principals : List Str) (text : Str)
      (cert : Certificate c.SshKey)
      → c.compact pkt ≡ some text
      → c.decode text ≡ some pkt
      → new c pkt token principals ≡ ok cert
      → (get_pk_token c cert ≡ ok pkt)
        × (get_access_token c cert ≡ token_or_empty token)
        × (cert.valid_principals ≡ principals)
  unfolding new get_pk_token get_access_token str_beq
  get-new pkt none principals text cert e d h = (ground arith, ground arith, ground arith)
  get-new pkt (some t) principals text cert e d h = (ground arith, ground arith, ground arith)

  -- What a token that was accepted has to do with its certificate.
  pub record IsBound (cert : Certificate c.SshKey) (pkt : c.Pkt) : Type 0 where
    pub carried : get_pk_token c cert ≡ ok pkt
    pub verified : c.verify pkt ≡ true
    pub user_key : c.Key
    pub user_key_eq : c.user_key pkt ≡ some user_key
    pub cert_key : c.Key
    pub cert_key_eq : c.crypto_key cert.key ≡ some cert_key
    pub upk : c.Jwk
    pub upk_eq : c.import_key user_key ≡ some upk
    pub jwk : c.Jwk
    pub jwk_eq : c.import_key cert_key ≡ some jwk
    pub same : c.same_key jwk upk ≡ true

  check_user_key_same :
      (cert : Certificate c.SshKey) (found pkt : c.Pkt)
      → check_user_key c cert found ≡ returned (ok pkt)
      → found ≡ pkt
  check_user_key_same cert found pkt h = ground arith

  bound :
      (cert : Certificate c.SshKey) (pkt : c.Pkt)
      → get_pk_token c cert ≡ ok pkt
      → c.verify pkt ≡ true
      → check_user_key c cert pkt ≡ returned (ok pkt)
      → IsBound cert pkt
  bound cert pkt g v h = elim (Option-cases (c.user_key pkt)) [
    | inl e ↦ absurd (ground arith)
    | inr (k, e) ↦ elim (Option-cases (c.import_key k)) [
      | inl i ↦ absurd (ground arith)
      | inr (upk, i) ↦ elim (Option-cases (c.crypto_key cert.key)) [
        | inl d ↦ absurd (ground arith)
        | inr (ck, d) ↦ elim (Option-cases (c.import_key ck)) [
          | inl j ↦ absurd (ground arith)
          | inr (jwk, j) ↦ record {
            carried = g;
            verified = v;
            user_key = k;
            user_key_eq = e;
            cert_key = ck;
            cert_key_eq = d;
            upk = upk;
            upk_eq = i;
            jwk = jwk;
            jwk_eq = j;
            same = ground arith;
          }
        ]
      ]
    ]
  ]

  sound :
      (cert : Certificate c.SshKey) (pkt : c.Pkt)
      → verify_ssh_pkt_cert c cert ≡ returned (ok pkt)
      → IsBound cert pkt
  unfolding verify_ssh_pkt_cert
  sound cert pkt h = elim (Result-cases (get_pk_token c cert)) [
    | inr (e, g) ↦ absurd (ground arith)
    | inl (found, g) ↦ elim (Bool-cases (c.verify found)) [
      | inr v ↦ absurd (ground arith)
      | inl v ↦
          let k : check_user_key c cert found ≡ returned (ok pkt) = ground arith in
          let same : found ≡ pkt = check_user_key_same cert found pkt k in
          bound cert pkt (rw same at g) (rw same at v) (rw same at k)
    ]
  ]

  complete :
      (cert : Certificate c.SshKey) (pkt : c.Pkt)
      → IsBound cert pkt
      → verify_ssh_pkt_cert c cert ≡ returned (ok pkt)
  unfolding verify_ssh_pkt_cert
  complete cert pkt b =
      ground
        (arith, b.carried, b.verified, b.user_key_eq, b.cert_key_eq, b.upk_eq, b.jwk_eq, b.same)

  -- A certificate is accepted with a token exactly if it carries the token, the token verifies,
  -- and the key of the certificate is the user key of the token.
  pub verify_ssh_pkt_cert_iff :
      (cert : Certificate c.SshKey) (pkt : c.Pkt)
      → (verify_ssh_pkt_cert c cert ≡ returned (ok pkt)) ↔ IsBound cert pkt
  verify_ssh_pkt_cert_iff cert pkt = (sound cert pkt, complete cert pkt)
