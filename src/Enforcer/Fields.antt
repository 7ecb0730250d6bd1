-- ===== src/Enforcer/Fields.antt =====
-- `EscapedSplit` on well-formed rows, and what `validateClaim` makes of them.
use opkssh.Base.{
  ℕ, true, false, List, [], ◌∷◌, ◌++◌, ◌≡◌, ◌≢◌, ◌∙◌, ap, arith, Str, str, nat_eq, str_eq,
  str_beq_iff, contains, append_assoc, append-nil,
}
use opkssh.Text.{has_prefix, trim_byte}
use opkssh.Text.Split.{Lacks}
use opkssh.Text.Trim.{has_prefix-append, trim_byte-Lacks, trim_byte_quoted}
use opkssh.Policy.{User}
use opkssh.Enforcer.{
  Unicode, CheckedClaims, oidc_claims, oidc_wildcard_email, values_of, fields_from, escaped_split,
  is_unsafe, validate_claim,
}

module _ (sep : ℕ) where
  fields_from_plain :
      (p rest cur : Str)
      → Lacks sep p
      → Lacks b'"' p
      → fields_from sep false cur (p ++ rest) ≡ fields_from sep false (cur ++ p) rest
  unfolding fields_from
  fields_from_plain [] rest cur _ _ = rw append-nil
  fields_from_plain (c ∷ p) rest cur (n, h) (q, k) =
      ground (arith, fields_from_plain p rest (cur ++ c ∷ []) h k, append_assoc cur (c ∷ []) p)

  fields_from_quoted :
      (p rest cur : Str)
      → Lacks b'"' p
      → fields_from sep true cur (p ++ rest) ≡ fields_from sep true (cur ++ p) rest
  unfolding fields_from
  fields_from_quoted [] rest cur _ = rw append-nil
  fields_from_quoted (c ∷ p) rest cur (q, k) =
      ground (arith, fields_from_quoted p rest (cur ++ c ∷ []) k, append_assoc cur (c ∷ []) p)

  fields_from_sep :
      (rest cur : Str)
      → sep ≢ b'"'
      → cur ≢ []
      → fields_from sep false cur (sep ∷ rest) ≡ cur ∷ fields_from sep false [] rest
  unfolding fields_from
  fields_from_sep rest cur n m = ground (arith, str_beq_iff cur [])

  fields_from_open :
      (rest cur : Str)
      → sep ≢ b'"'
      → fields_from sep false cur (b'"' ∷ rest) ≡ fields_from sep true (cur ++ b'"' ∷ []) rest
  unfolding fields_from
  fields_from_open rest cur n = ground arith

  fields_from_close :
      (rest cur : Str)
      → sep ≢ b'"'
      → fields_from sep true cur (b'"' ∷ rest) ≡ fields_from sep false (cur ++ b'"' ∷ []) rest
  unfolding fields_from
  fields_from_close rest cur n = ground arith

  fields_from_end :
      (p cur : Str)
      → Lacks sep p
      → Lacks b'"' p
      → cur ++ p ≢ []
      → fields_from sep false cur p ≡ (cur ++ p) ∷ []
  unfolding fields_from
  fields_from_end [] cur _ _ n = ground (arith, str_beq_iff cur [], append-nil cur)
  fields_from_end (c ∷ p) cur (m, h) (q, k) n =
      ground (arith, fields_from_end p (cur ++ c ∷ []) h k, append_assoc cur (c ∷ []) p, n)

-- A part of a row that needs no quotes.
pub record IsPlain (s : Str) : Type 0 where
  pub no_colon : Lacks b':' s
  pub no_quote : Lacks b'"' s
  pub ne_nil : s ≢ []

-- `oidc:<claim>:<value>`, and with the claim between quotes.
abbrev pub oidc_row : Str → Str → Str
oidc_row name value = oidc_claims ++ (name ++ b':' ∷ value)

abbrev pub quoted : Str → Str
quoted name = b'"' ∷ (name ++ b'"' ∷ [])

append-ne_nil : (a b : Str) → b ≢ [] → a ++ b ≢ []
append-ne_nil [] b h = h
append-ne_nil (c ∷ a) b h = λ e. cc

escaped_split_start :
    (rest : Str)
    → escaped_split (oidc_claims ++ rest) b':' ≡ str "oidc" ∷ fields_from b':' false [] rest
unfolding escaped_split
escaped_split_start rest =
    fields_from_plain b':' (str "oidc") (b':' ∷ rest) [] (omega arith) (omega arith)
    ∙ fields_from_sep b':' rest (str "oidc") (omega arith) (λ e. cc)

fields_from_value : (value : Str) → IsPlain value → fields_from b':' false [] value ≡ value ∷ []
fields_from_value value v = fields_from_end b':' value [] v.no_colon v.no_quote v.ne_nil

escaped_split_plain :
    (name value : Str)
    → IsPlain name
    → IsPlain value
    → escaped_split (oidc_row name value) b':' ≡ str "oidc" ∷ name ∷ value ∷ []
escaped_split_plain name value n v =
    escaped_split_start (name ++ b':' ∷ value)
    ∙ ap (◌∷◌ (str "oidc")) (
        fields_from_plain b':' name (b':' ∷ value) [] n.no_colon n.no_quote
        ∙ fields_from_sep b':' value name (omega arith) n.ne_nil
        ∙ ap (◌∷◌ name) (fields_from_value value v))

escaped_split-quoted :
    (name value : Str)
    → Lacks b'"' name
    → IsPlain value
    → escaped_split (oidc_row (quoted name) value) b':' ≡ str "oidc" ∷ quoted name ∷ value ∷ []
escaped_split-quoted name value n v =
    escaped_split_start (quoted name ++ b':' ∷ value)
    ∙ ap (◌∷◌ (str "oidc")) (
        fields_from_open b':' ((name ++ b'"' ∷ []) ++ b':' ∷ value) [] (omega arith)
        ∙ ap (fields_from b':' true (b'"' ∷ [])) (append_assoc name (b'"' ∷ []) (b':' ∷ value))
        ∙ fields_from_quoted b':' name (b'"' ∷ b':' ∷ value) (b'"' ∷ []) n
        ∙ fields_from_close b':' (b':' ∷ value) (b'"' ∷ name) (omega arith)
        ∙ fields_from_sep b':' value (quoted name) (omega arith) (λ e. cc)
        ∙ ap (◌∷◌ (quoted name)) (fields_from_value value v))

module _ (u : Unicode) (claims : CheckedClaims) (name value : Str) (principals : List Str)
    (issuer : Str) where
  abbrev pub row : Str → User
  row attribute = record {
    identity_attribute = attribute;
    principals = principals;
    issuer = issuer;
  }

  validate_section :
      (attribute field : Str)
      → has_prefix attribute oidc_claims ≡ true
      → is_unsafe u attribute ≡ false
      → has_prefix claims.email oidc_wildcard_email ≡ false
      → attribute ≢ []
      → escaped_split attribute b':' ≡ str "oidc" ∷ field ∷ value ∷ []
      → trim_byte field b'"' ≡ name
      → validate_claim u claims (row attribute)
        ≡ contains (values_of name claims.extra_claims) value
  unfolding validate_claim
  validate_section attribute field p s e n split trim = ground (arith, str_beq_iff attribute [])

  -- A row `oidc:<claim>:<value>` accepts a token exactly if the value is among those of the claim,
  -- where neither the claim's name nor the value is empty or has a colon or a quote, the whole
  -- attribute is not an unsafe one, and the email of the token does not start with
  -- `oidc-match-end:email:`.
  pub validate_claim-oidc_row :
      IsPlain name
      → IsPlain value
      → is_unsafe u (oidc_row name value) ≡ false
      → has_prefix claims.email oidc_wildcard_email ≡ false
      → validate_claim u claims (row (oidc_row name value))
        ≡ contains (values_of name claims.extra_claims) value
  validate_claim-oidc_row n v s e =
      validate_section (oidc_row name value) name (has_prefix-append oidc_claims _) s e (λ h. cc)
        (escaped_split_plain name value n v) (trim_byte-Lacks name b'"' n.no_quote)

  -- Between quotes the name of the claim may hold colons, as in a URL.
  pub validate_claim-oidc_row-quoted :
      Lacks b'"' name
      → IsPlain value
      → is_unsafe u (oidc_row (quoted name) value) ≡ false
      → has_prefix claims.email oidc_wildcard_email ≡ false
      → validate_claim u claims (row (oidc_row (quoted name) value))
        ≡ contains (values_of name claims.extra_claims) value
  validate_claim-oidc_row-quoted n v s e =
      validate_section (oidc_row (quoted name) value) (quoted name)
        (has_prefix-append oidc_claims _) s e (λ h. cc) (escaped_split-quoted name value n v)
        (trim_byte_quoted name b'"' n)
