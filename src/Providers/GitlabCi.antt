-- ===== src/Providers/GitlabCi.antt =====
-- The check of a GitLab CI/CD token before its signature: `verifyGitLabCiTokenClaims`.
pub mod Passes
use opkssh.Base.{
  Bool, true, false, not, List, [], ◌∷◌, ◌≡◌, ◌≢◌, ◌⊎◌, ◌↔◌, refl, arith, Option, none, some, Str,
  str, ◌==◌, str_eq, if◌then◌else◌, get_elem?, any, All, inl, inr, Result, ok, err, Bool-cases,
}
use opkssh.Text.{split}
use opkssh.Enforcer.{Json}

pub data TokenError : Type 0 where
  too_few_parts bad_base64 bad_json wrong_audience : TokenError
  missing_claim : Str → TokenError

module _ (json : Json) where
  open json use {Value}

  -- A key that is missing has the value nil, `none`.
  unfoldable pub claim : Str → List (Str × Value) → Option Value
  claim k [] = none
  claim k ((j, v) ∷ claims) = if j == k then some v else claim k claims

  abbrev pub is_audience : Str → Value → Bool
  is_audience expected v = elim (json.as_string v) [ none ↦ false | some s ↦ s == expected ]

  -- `audienceMatches(rawAudience, expectedAudience)`
  unfoldable pub audience_matches : Option Value → Str → Bool
  audience_matches none expected = false
  audience_matches (some raw) expected = elim (json.as_string raw) [
    | some s ↦ s == expected
    | none ↦ elim (json.as_list raw) [
      | none ↦ false
      | some values ↦ any (is_audience expected) values
    ]
  ]

  abbrev not_empty {ℓ} : {A : Type ℓ} → List A → Bool
  not_empty [] = false
  not_empty (_ ∷ _) = true

  -- `claimIsPresent(value)`
  unfoldable pub claim_is_present : Option Value → Bool
  claim_is_present none = false
  claim_is_present (some v) = elim (json.as_string v) [
    | some s ↦ not (s == [])
    | none ↦ elim (json.as_list v) [ some values ↦ not_empty values | none ↦ true ]
  ]

  abbrev pub required_claims : List Str
  required_claims =
      str "ci_config_ref_uri" ∷ str "job_id" ∷ str "job_project_path" ∷ str "pipeline_id" ∷ []

  -- The loop over the names of the required claims.
  pub check_claims : List (Str × Value) → List Str → Result TokenError (Unit {0})
  check_claims claims [] = ok tt
  check_claims claims (name ∷ names) =
      let rest = check_claims claims names in
      if not (claim_is_present (claim name claims)) then err (missing_claim name) else rest

  -- `decodeJwtPayload(idt)`, with the two decoders of base64.
  abbrev pub decode_json : Option Str → Result TokenError (List (Str × Value))
  decode_json none = err bad_base64
  decode_json (some payload) = elim (json.fields payload) [
    | none ↦ err bad_json
    | some claims ↦ ok claims
  ]

  abbrev pub decode_part : (Str → Option Str) → (Str → Option Str) → Str → Option Str
  decode_part raw url part = elim (raw part) [ some p ↦ some p | none ↦ url part ]

  unfoldable pub decode_jwt_payload :
      (Str → Option Str) → (Str → Option Str) → Str → Result TokenError (List (Str × Value))
  decode_jwt_payload raw url idt = elim (get_elem? (split idt b'.') 1) [
    | none ↦ err too_few_parts
    | some part ↦ decode_json (decode_part raw url part)
  ]

  abbrev pub check_audience :
      Str → Result TokenError (List (Str × Value)) → Result TokenError (Unit {0})
  check_audience audience (err e) = err e
  check_audience audience (ok claims) =
      if not (audience_matches (claim (str "aud") claims) audience)
      then err wrong_audience
      else check_claims claims required_claims

  -- `verifyGitLabCiTokenClaims(idt, audience)`
  unfoldable pub verify_gitlab_ci_token_claims :
      (Str → Option Str) → (Str → Option Str) → Str → Str → Result TokenError (Unit {0})
  unfolding check_claims decode_jwt_payload
  verify_gitlab_ci_token_claims raw url idt audience =
      check_audience audience (decode_jwt_payload raw url idt)

  pub check_claims_iff :
      (claims : List (Str × Value)) (names : List Str)
      → (check_claims claims names ≡ ok tt)
        ↔ All (λ name. claim_is_present (claim name claims) ≡ true) names
  unfolding check_claims
  check_claims_iff claims [] = (λ h. tt, λ h. refl)
  check_claims_iff claims (name ∷ names) =
      let ih = check_claims_iff claims names in
      elim (Bool-cases (claim_is_present (claim name claims))) [
        | inl p ↦ (λ h. (p, ih.0 (ground arith)), λ h. ground (arith, ih.1 h.1))
        | inr a ↦ (λ h. ground arith, λ h. ground arith)
      ]

  -- The expected audience, as the value itself or among those of a list.
  abbrev pub Lists : Str → List Value → Type 0
  Lists expected [] = ⊥
  Lists expected (v ∷ vs) = (json.as_string v ≡ some expected) ⊎ Lists expected vs

  pub data IsAudience (expected : Str) (v : Value) : Type 0 where
    by_text : json.as_string v ≡ some expected → IsAudience expected v
    by_list :
        (vs : List Value)
        → json.as_string v ≡ none
        → json.as_list v ≡ some vs
        → Lists expected vs
        → IsAudience expected v

  -- A value that is not an empty text and not an empty list.
  pub data IsPresent (v : Value) : Type 0 where
    text : (s : Str) → json.as_string v ≡ some s → s ≢ [] → IsPresent v
    list :
        (w : Value) (ws : List Value)
        → json.as_string v ≡ none
        → json.as_list v ≡ some (w ∷ ws)
        → IsPresent v
    other : json.as_string v ≡ none → json.as_list v ≡ none → IsPresent v

  abbrev pub Has : List (Str × Value) → Str → Type 0
  Has claims name = (v : Value) × (claim name claims ≡ some v) × IsPresent v

  -- A token of the form that is asked for: a second part, which one of the decoders decodes to
  -- JSON, the audience, and the claims of a pipeline.
  pub record IsPipelineToken (raw url : Str → Option Str) (idt audience : Str) : Type 0 where
    pub part : Str
    pub second : get_elem? (split idt b'.') 1 ≡ some part
    pub payload : Str
    pub decoded : (raw part ≡ some payload) ⊎ ((raw part ≡ none) × (url part ≡ some payload))
    pub claims : List (Str × Value)
    pub read : json.fields payload ≡ some claims
    pub aud : Value
    pub named : claim (str "aud") claims ≡ some aud
    pub fits : IsAudience audience aud
    pub ci_config_ref_uri : Has claims (str "ci_config_ref_uri")
    pub job_id : Has claims (str "job_id")
    pub job_project_path : Has claims (str "job_project_path")
    pub pipeline_id : Has claims (str "pipeline_id")
