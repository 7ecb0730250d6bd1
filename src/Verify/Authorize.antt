-- ===== src/Verify/Authorize.antt =====
-- What a line printed for sshd stands for.
use opkssh.Base.{
  List, [], ◌∷◌, ◌++◌, ◌≡◌, ◌≢◌, refl, subst, arith, none, some, Str, str, str_eq, str_beq,
  str_beq_iff, Result, ok, err, Option-cases, inl, inr,
}
use opkssh.Text.{join, trim_space}
use opkssh.Plugins.{Run, returned, crash}
use opkssh.Enforcer.{DenyList}
use opkssh.SshCert.{Crypto, Certificate, CertError, verify_ssh_pkt_cert}
use opkssh.SshCert.Smuggle.{IsBound, verify_ssh_pkt_cert_iff}
use opkssh.Verify.{
  Deps, authorized_line, valid_principal, error_on_unsafe_principal, user_info, permitted_line,
  checked_line, authorized_keys_command,
}
use opkssh.Verify.Principals.{IsFaithful, join-IsFaithful}

-- The line for sshd: without the option if the certificate names no principal, else with the
-- principals, joined by commas, as its text.
abbrev pub Prints : List Str → Str → Str → Type 0
Prints [] key line = line ≡ str "cert-authority " ++ key
Prints (p ∷ ps) key line =
    line ≡ str "cert-authority,principals=\"" ++ (join (p ∷ ps) (str ",") ++ (str "\" " ++ key))

join-ne_nil :
    (p : Str) (ps : List Str)
    → error_on_unsafe_principal (p ∷ ps) ≡ none
    → join (p ∷ ps) (str ",") ≢ []
unfolding error_on_unsafe_principal valid_principal join
join-ne_nil [] ps h e = ground arith
join-ne_nil (c ∷ p) [] h e = cc
join-ne_nil (c ∷ p) (q ∷ ps) h e = cc

Prints-authorized_line :
    (ps : List Str) (key : Str)
    → error_on_unsafe_principal ps ≡ none
    → Prints ps key (authorized_line (join ps (str ",")) key)
unfolding join str_beq
Prints-authorized_line [] key h = refl
Prints-authorized_line (p ∷ ps) key h =
    ground (arith, join-ne_nil p ps h, str_beq_iff (join (p ∷ ps) (str ",")) [])

module _ (c : Crypto) (d : Deps c) (user typ cert64 : Str) (extra : List Str)
    (deny : DenyList) where
  -- The certificate and the token behind a line, the permission for the user, and the line.
  pub record Vouches (line : Str) : Type 0 where
    pub cert : Certificate c.SshKey
    pub parsed : d.parse_cert typ cert64 ≡ some cert
    pub pkt : c.Pkt
    pub bound : IsBound c cert pkt
    pub permitted :
        d.check user pkt (user_info c d cert pkt) cert64 typ deny extra ≡ returned (ok tt)
    pub faithful : IsFaithful cert.valid_principals (join cert.valid_principals (str ","))
    pub printed : Prints cert.valid_principals (trim_space cert.signature_key) line

  vouched :
      (cert : Certificate c.SshKey) (pkt : c.Pkt) (line : Str)
      → d.parse_cert typ cert64 ≡ some cert
      → IsBound c cert pkt
      → permitted_line c d cert (d.check user pkt (user_info c d cert pkt) cert64 typ deny extra)
        ≡ returned (ok line)
      → Vouches line
  vouched cert pkt line p b h = record {
    cert = cert;
    parsed = p;
    pkt = pkt;
    bound = b;
    permitted = ground arith;
    faithful = join-IsFaithful cert.valid_principals (ground arith);
    printed = subst (Prints cert.valid_principals (trim_space cert.signature_key)) (ground arith) (
        Prints-authorized_line cert.valid_principals (trim_space cert.signature_key)
          (ground arith));
  }

  from_cert :
      (cert : Certificate c.SshKey) (line : Str)
      → d.parse_cert typ cert64 ≡ some cert
      → checked_line c d user typ cert64 deny extra cert (verify_ssh_pkt_cert c cert)
        ≡ returned (ok line)
      → Vouches line
  from_cert cert line p h = go (verify_ssh_pkt_cert c cert) refl h
    where
      go :
          (r : Run (Result CertError c.Pkt))
          → verify_ssh_pkt_cert c cert ≡ r
          → checked_line c d user typ cert64 deny extra cert r ≡ returned (ok line)
          → Vouches line
      go crash e h = cc
      go (returned (err f)) e h = cc
      go (returned (ok pkt)) e h =
          vouched cert pkt line p ((verify_ssh_pkt_cert_iff c cert pkt).0 e) h

  -- A line is printed for sshd only for a certificate that carries a verified token of its own
  -- key, whose user the policy permits. It has the certificate's key and, unless the certificate
  -- names no principal, an option with the principals joined by commas, in text that can neither
  -- end the quotes nor be read as other principals.
  pub authorized_keys_command_sound :
      (line : Str)
      → authorized_keys_command c d user typ cert64 extra deny ≡ returned (ok line)
      → Vouches line
  authorized_keys_command_sound line h = elim (Option-cases (d.parse_cert typ cert64)) [
    | inl e ↦ absurd (unfold authorized_keys_command in ground arith)
    | inr (cert, e) ↦ from_cert cert line e (unfold authorized_keys_command in ground arith)
  ]
