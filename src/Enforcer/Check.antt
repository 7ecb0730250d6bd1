-- ===== src/Enforcer/Check.antt =====
-- `CheckPolicy` of policy/enforcer.go: the deny lists, the plugins and the rows.
use mathlib.Core.Option
use opkssh.Base.{
  Bool, true, false, not, List, [], ◌∷◌, Option, none, some, Str, ◌==◌, nat_eq, str_eq, contains,
  if◌then◌else◌, Result, ok, err,
}
use opkssh.Policy.{User, Policy}
use opkssh.Plugins.{PluginResult, Run, returned, crash, results_allowed}
use opkssh.Enforcer.{CheckedClaims, DenyList, Json, Unicode, unmarshal_claims, validate_claim}

-- The errors of `CheckPolicy`.
pub data Denial : Type 0 where
  bad_payload no_issuer load_failed bad_user_info : Denial
  denied_email denied_user : Str → Denial
  sub_mismatch : Str → Str → Denial
  no_policy : Str → Denial

-- The first entry of a deny list that the value equals up to case.
abbrev pub denied_by : Unicode → Str → List Str → Option Str
denied_by u value [] = none
denied_by u value (d ∷ ds) =
    let rest = denied_by u value ds in if u.equal_fold value d then some d else rest

-- A decision is nil or an error.
abbrev pub Decision : Type 0
Decision = Result Denial (Unit {0})

-- The claims of the userinfo endpoint name another subject.
abbrev pub mismatch : CheckedClaims → Option CheckedClaims → Option Str
mismatch claims none = none
mismatch claims (some info) = if claims.sub == info.sub then none else some info.sub

module _ (u : Unicode) where
  abbrev pub validate_user_info : Option CheckedClaims → User → Bool
  validate_user_info none user = false
  validate_user_info (some info) user = validate_claim u info user

  -- The loop over `policy.Users`.
  unfoldable pub check_users :
      Str → Str → CheckedClaims → Option CheckedClaims → Str → List User → Decision
  check_users principal issuer claims info source [] = err (no_policy source)
  check_users principal issuer claims info source (user ∷ users) =
      let rest = check_users principal issuer claims info source users in
      elim (mismatch claims info) [
        | some sub ↦ err (sub_mismatch sub claims.sub)
        | none ↦
            if not (issuer == user.issuer)
            then rest
            else if not (contains user.principals principal)
            then rest
            else if validate_claim u claims user
            then ok tt
            else if validate_user_info info user
            then ok tt
            else rest
      ]

  -- What `CheckPolicy` makes of the policy that the loader returns, once the userinfo is read.
  abbrev pub decide_by_policy :
      {E : Type 0}
      → Str
      → Str
      → CheckedClaims
      → Option (Option CheckedClaims)
      → Result E (Policy × Str)
      → Decision
  decide_by_policy principal issuer claims info (err e) = err load_failed
  decide_by_policy principal issuer claims none (ok (policy, source)) = err bad_user_info
  decide_by_policy principal issuer claims (some info) (ok (policy, source)) =
      check_users principal issuer claims info source policy.users

  -- Policy plugins can only widen what is allowed: an error of theirs is passed over.
  abbrev pub decide_by_plugins :
      {E : Type 0} → Result E (List PluginResult) → Decision → Run Decision
  decide_by_plugins (err e) rest = returned rest
  decide_by_plugins (ok results) rest = elim (results_allowed results) [
    | crash ↦ crash
    | returned true ↦ returned (ok tt)
    | returned false ↦ returned rest
  ]

  abbrev pub decide_by_deny_list : CheckedClaims → Str → DenyList → Run Decision → Run Decision
  decide_by_deny_list claims principal deny rest = elim (denied_by u claims.email deny.emails) [
    | some email ↦ returned (err (denied_email email))
    | none ↦ elim (denied_by u principal deny.users) [
      | some user ↦ returned (err (denied_user user))
      | none ↦ rest
    ]
  ]

-- `userInfoClaims`: nil without a text, `none` where the text cannot be read.
abbrev pub read_user_info : Json → Str → Option (Option CheckedClaims)
read_user_info json text =
    if text == [] then some none else Option.map some (unmarshal_claims json text)

-- `Enforcer.CheckPolicy`. `plugins` and `loaded` are what `CheckPolicies` and `PolicyLoader.Load`
-- return, `issuer` what `pkt.Issuer()` does.
unfoldable pub check_policy :
    Unicode
    → Json
    → {E F : Type 0} → Str
    → Str
    → Option Str
    → Str
    → DenyList
    → Result E (List PluginResult)
    → Result F (Policy × Str)
    → Run Decision
unfolding check_users unmarshal_claims
check_policy u json principal payload issuer user_info deny plugins loaded =
    elim (unmarshal_claims json payload) [
      | none ↦ returned (err bad_payload)
      | some claims ↦ elim issuer [
        | none ↦ returned (err no_issuer)
        | some iss ↦ decide_by_deny_list u claims principal deny (
            decide_by_plugins u plugins
              (decide_by_policy u principal iss claims (read_user_info json user_info) loaded))
      ]
    ]
