-- ===== src/Enforcer.antt =====
-- The decision on a login: policy/enforcer.go.
pub mod Check
pub mod Claim
pub mod Decision
pub mod Fields
use mathlib.Core.Option
use opkssh.Base.{
  ℕ, Bool, true, false, not, ◌&&◌, ◌||◌, List, [], ◌∷◌, ◌++◌, map, Option, none, some, Str, str,
  ◌==◌, nat_eq, str_eq, contains, if◌then◌else◌, length, drop, get_elem?, ltb, last_or, any, Result,
  ok, err,
}
use opkssh.Text.{has_prefix, has_suffix, trim_byte}
use opkssh.Policy.{User, Policy}
use opkssh.Plugins.{PluginResult, Run, returned, crash, results_allowed}

-- The functions of Go's library that go by the tables of Unicode, and `path.Match` (`none` is
-- its error for a malformed pattern).
pub record Unicode : Type 0 where
  pub equal_fold : Str → Str → Bool
  pub to_lower : Str → Str
  pub path_match : Str → Str → Option Bool

-- `encoding/json`: the two struct fields of an object, its fields as `map[string]any`, and the
-- type switch on a value. `sprint` is `fmt.Sprint`.
pub record Json : Type 1 where
  pub Value : Type 0
  pub email_and_sub : Str → Option (Str × Str)
  pub fields : Str → Option (List (Str × Value))
  pub as_string : Value → Option Str
  pub as_list : Value → Option (List Value)
  pub sprint : Value → Str

abbrev pub oidc_claims : Str
oidc_claims = str "oidc:"

abbrev pub oidc_wildcard_email : Str
oidc_wildcard_email = str "oidc-match-end:email:"

abbrev pub repo_claim : Str
repo_claim = str "repo:"

-- `checkedClaims`
pub record CheckedClaims : Type 0 where
  pub email : Str
  pub sub : Str
  pub extra_claims : List (Str × List Str)

-- `DenyList`
pub record DenyList : Type 0 where
  pub emails : List Str
  pub users : List Str

-- A missing key has the value nil.
unfoldable pub values_of : Str → List (Str × List Str) → List Str
values_of name [] = []
values_of name ((k, vs) ∷ claims) = if k == name then vs else values_of name claims

module _ (json : Json) where
  open json use {Value}

  abbrev element : Value → Str
  element e = elim (json.as_string e) [ some s ↦ s | none ↦ json.sprint e ]

  -- The type switch of `UnmarshalJSON`.
  pub claim_values : Value → List Str
  claim_values v = elim (json.as_string v) [
    | some s ↦ s ∷ []
    | none ↦ elim (json.as_list v) [ some es ↦ map element es | none ↦ json.sprint v ∷ [] ]
  ]

  abbrev extra_of : List (Str × Value) → List (Str × List Str)
  extra_of = map (λ (k, v). (k, claim_values v))

  -- `checkedClaims.UnmarshalJSON(data)`
  unfoldable pub unmarshal_claims : Str → Option CheckedClaims
  unfolding claim_values
  unmarshal_claims payload = elim (json.email_and_sub payload) [
    | none ↦ none
    | some (email, sub) ↦ elim (json.fields payload) [
      | none ↦ none
      | some raw ↦ some (record { email = email; sub = sub; extra_claims = extra_of raw })
    ]
  ]

-- `strings.FieldsFunc` with the closure of `EscapedSplit`: a separator ends a field unless it
-- stands between quotes, and empty fields are dropped. The field read so far is `cur`.
pub fields_from : ℕ → Bool → Str → Str → List Str
fields_from sep quoted cur [] = if cur == [] then [] else cur ∷ []
fields_from sep quoted cur (c ∷ s) =
    let quoted' = if c == b'"' then not quoted else quoted in
    let is_sep = not quoted' && c == sep in
    let rest = fields_from sep quoted' (if is_sep then [] else cur ++ c ∷ []) s in
    if is_sep && not (cur == []) then cur ∷ rest else rest

-- `EscapedSplit(s, sep)`
unfoldable pub escaped_split : Str → ℕ → List Str
unfolding fields_from
escaped_split s sep = fields_from sep false [] s

-- The branch of `validateClaim` for `oidc:`, on the sections of the attribute.
pub section_match : CheckedClaims → List Str → Bool
section_match claims (a ∷ name ∷ c ∷ more) =
    contains (values_of (trim_byte name b'"') claims.extra_claims) (last_or c more)
section_match claims _ = false

module _ (u : Unicode) where
  -- An attribute that would match any value.
  abbrev pub is_unsafe : Str → Bool
  is_unsafe attribute =
      u.equal_fold attribute oidc_wildcard_email
      || (u.equal_fold attribute oidc_claims || u.equal_fold attribute repo_claim)

  abbrev pub wildcard_match : CheckedClaims → Str → Bool
  wildcard_match claims attribute =
      has_prefix attribute oidc_wildcard_email
      && has_suffix (u.to_lower claims.email)
          (u.to_lower (drop (length oidc_wildcard_email) attribute))

  abbrev pub glob_matched : Option Bool → Bool
  glob_matched none = false
  glob_matched (some matched) = matched

  abbrev pub repo_match : CheckedClaims → Str → Bool
  repo_match claims attribute =
      has_prefix attribute repo_claim && glob_matched (u.path_match attribute claims.sub)

  -- `validateClaim(claims, user)`; warnings are left out.
  unfoldable pub validate_claim : CheckedClaims → User → Bool
  unfolding section_match
  validate_claim claims user =
      let attribute = user.identity_attribute in
      if attribute == []
      then false
      else if has_prefix claims.email oidc_wildcard_email
      then false
      else if is_unsafe attribute
      then false
      else if has_prefix attribute oidc_claims
      then section_match claims (escaped_split attribute b':')
      else if repo_match claims attribute
      then true
      else (wildcard_match claims attribute || u.equal_fold claims.email attribute)
        || claims.sub == attribute
