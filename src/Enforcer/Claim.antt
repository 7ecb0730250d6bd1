-- ===== src/Enforcer/Claim.antt =====
-- When `validateClaim` accepts an identity attribute.
use opkssh.Base.{
  true, false, [], ◌++◌, ◌≡◌, ◌≢◌, ◌↔◌, inl, inr, sym, arith, some, Str, str_eq, str_beq_iff,
  length, drop, Bool-cases, true_of_and,
}
use opkssh.Text.{has_prefix, has_suffix}
use opkssh.Text.Trim.{append-drop_of_has_prefix, has_prefix-append, drop-append}
use opkssh.Policy.{User}
use opkssh.Enforcer.{
  Unicode, CheckedClaims, oidc_claims, oidc_wildcard_email, repo_claim, escaped_split,
  section_match, is_unsafe, wildcard_match, glob_matched, repo_match, validate_claim,
}

module _ (u : Unicode) (claims : CheckedClaims) (attribute : Str) where
  -- The attribute is not empty and matches no one in particular, and the email claim does not pose
  -- as a pattern.
  pub record IsUsable : Type 0 where
    pub ne_nil : attribute ≢ []
    pub email_plain : has_prefix claims.email oidc_wildcard_email ≡ false
    pub specific : is_unsafe u attribute ≡ false

  -- The ways in which an attribute can match.
  pub data Matches : Type 0 where
    by_claim :
        has_prefix attribute oidc_claims ≡ true
        → section_match claims (escaped_split attribute b':') ≡ true
        → Matches
    by_email :
        has_prefix attribute oidc_claims ≡ false
        → u.equal_fold claims.email attribute ≡ true
        → Matches
    by_sub : has_prefix attribute oidc_claims ≡ false → claims.sub ≡ attribute → Matches
    by_domain :
        (domain : Str)
        → has_prefix attribute oidc_claims ≡ false
        → attribute ≡ oidc_wildcard_email ++ domain
        → has_suffix (u.to_lower claims.email) (u.to_lower domain) ≡ true
        → Matches
    by_repo :
        (pattern : Str)
        → has_prefix attribute oidc_claims ≡ false
        → attribute ≡ repo_claim ++ pattern
        → u.path_match attribute claims.sub ≡ some true
        → Matches

module _ (u : Unicode) (claims : CheckedClaims) (user : User) where
  open user use {identity_attribute as attribute}

  wildcard_domain :
      wildcard_match u claims attribute ≡ true
      → has_prefix attribute oidc_claims ≡ false
      → Matches u claims attribute
  wildcard_domain h n =
      let parts =
        true_of_and (has_prefix attribute oidc_wildcard_email)
          (has_suffix (u.to_lower claims.email)
            (u.to_lower (drop (length oidc_wildcard_email) attribute)))
          h in
      by_domain (drop (length oidc_wildcard_email) attribute) n
        (sym (append-drop_of_has_prefix oidc_wildcard_email attribute parts.0)) parts.1

  repo_pattern :
      repo_match u claims attribute ≡ true
      → has_prefix attribute oidc_claims ≡ false
      → Matches u claims attribute
  repo_pattern h n =
      let parts =
        true_of_and (has_prefix attribute repo_claim)
          (glob_matched u (u.path_match attribute claims.sub)) h in
      by_repo (drop (length repo_claim) attribute) n
        (sym (append-drop_of_has_prefix repo_claim attribute parts.0)) (ground (arith, parts.1))

  wildcard_of_domain :
      (domain : Str)
      → attribute ≡ oidc_wildcard_email ++ domain
      → has_suffix (u.to_lower claims.email) (u.to_lower domain) ≡ true
      → wildcard_match u claims attribute ≡ true
  wildcard_of_domain domain e s =
      rw (e, has_prefix-append oidc_wildcard_email domain, drop-append oidc_wildcard_email domain) s

  repo_of_pattern :
      (pattern : Str)
      → attribute ≡ repo_claim ++ pattern
      → u.path_match attribute claims.sub ≡ some true
      → repo_match u claims attribute ≡ true
  repo_of_pattern pattern e s = rw s (rw e (rw (has_prefix-append repo_claim pattern)))

  sound :
      validate_claim u claims user ≡ true → IsUsable u claims attribute × Matches u claims attribute
  unfolding validate_claim
  sound h = (
    record {
      ne_nil = λ e. ground (arith, str_beq_iff attribute []);
      email_plain = ground arith;
      specific = ground arith;
    },
    elim (Bool-cases (has_prefix attribute oidc_claims)) [
      | inl p ↦ by_claim p (ground arith)
      | inr n ↦ elim (Bool-cases (repo_match u claims attribute)) [
        | inl r ↦ repo_pattern r n
        | inr r ↦ elim (Bool-cases (wildcard_match u claims attribute)) [
          | inl w ↦ wildcard_domain w n
          | inr w ↦ elim (Bool-cases (u.equal_fold claims.email attribute)) [
            | inl e ↦ by_email n e
            | inr e ↦ by_sub n (ground (arith, str_beq_iff claims.sub attribute))
          ]
        ]
      ]
    ],
  )

  complete :
      IsUsable u claims attribute → Matches u claims attribute → validate_claim u claims user ≡ true
  unfolding validate_claim
  complete i (by_claim p s) =
      ground (arith, str_beq_iff attribute [], i.email_plain, i.specific, i.ne_nil)
  complete i (by_email p e) =
      ground (arith, str_beq_iff attribute [], i.email_plain, i.specific, i.ne_nil)
  complete i (by_sub p e) = ground (
    arith,
    str_beq_iff attribute [],
    str_beq_iff claims.sub attribute,
    i.email_plain,
    i.specific,
    i.ne_nil,
  )
  complete i (by_domain domain p e s) = ground (
    arith,
    str_beq_iff attribute [],
    i.email_plain,
    i.specific,
    i.ne_nil,
    wildcard_of_domain domain e s,
  )
  complete i (by_repo pattern p e s) = ground (
    arith,
    str_beq_iff attribute [],
    i.email_plain,
    i.specific,
    i.ne_nil,
    repo_of_pattern pattern e s,
  )

  -- A policy row accepts a token exactly if its identity attribute is usable and matches: by a
  -- claim for `oidc:`, else by the email up to case, by the domain of the email, by the subject,
  -- or by a pattern for the subject.
  pub validate_claim_iff :
      (validate_claim u claims user ≡ true)
      ↔ (IsUsable u claims attribute × Matches u claims attribute)
  validate_claim_iff = (sound, λ h. complete h.0 h.1)
