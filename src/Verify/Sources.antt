-- ===== src/Verify/Sources.antt =====
-- `OpkPolicyEnforcerFunc`: where the permission for a login can come from.
use opkssh.Base.{
  Bool, true, ◌||◌, List, [], ◌∷◌, ◌≡◌, ◌⊎◌, refl, arith, Option, none, some, Str, str_eq,
  str_beq_iff, any, Result, ok, err, Bool-cases, inl, inr,
}
use opkssh.ConfigLog.{ConfigLog}
use opkssh.Policy.{User, Policy, user_grants}
use opkssh.Plugins.{PluginResult, Run, returned}
use opkssh.Loader.{Env, OptionalLoader, MultiError, load_multi}
use opkssh.Loader.Multi.{granted, policy_of, root_result, home_result, grants-load_multi}
use opkssh.Enforcer.{Unicode, Json, CheckedClaims, DenyList, unmarshal_claims, validate_claim}
use opkssh.Enforcer.Check.{Decision, validate_user_info, mismatch, read_user_info, check_policy}
use opkssh.Enforcer.Decision.{PluginsAllow, AdmittedBy, admits, check_policy_granted_iff}

-- `OpkPolicyEnforcerFunc(username)`, called for the principal: the policy is loaded for the
-- user, and `plugins` is what the policy plugins return.
unfoldable pub opk_policy_enforcer :
    {E : Type 0} (env : Env)
    → OptionalLoader
    → Unicode
    → Json
    → env.fs.State
    → ConfigLog
    → Result E (List PluginResult)
    → Str
    → Str
    → Str
    → Option Str
    → Str
    → DenyList
    → Run Decision
opk_policy_enforcer env script u json s log plugins username principal payload issuer info deny =
    check_policy u json principal payload issuer info deny plugins
      (load_multi env username script s log).0

module _ (u : Unicode) (principal iss : Str) (claims : CheckedClaims)
    (info : Option CheckedClaims) where
  -- The identity attribute accepts the claims of the token, or those of the userinfo endpoint.
  abbrev pub accepts : Str → Bool
  accepts id =
      let row : User = record { identity_attribute = id; principals = []; issuer = [] } in
      validate_claim u claims row || validate_user_info u info row

  abbrev bare : User → User
  bare user = record { identity_attribute = user.identity_attribute; principals = []; issuer = [] }

  validate_claim-bare :
      (cs : CheckedClaims) (user : User)
      → validate_claim u cs user ≡ validate_claim u cs (bare user)
  unfolding validate_claim
  validate_claim-bare cs user = refl

  validate_user_info-bare :
      (i : Option CheckedClaims) (user : User)
      → validate_user_info u i user ≡ validate_user_info u i (bare user)
  validate_user_info-bare none user = refl
  validate_user_info-bare (some cs) user = validate_claim-bare cs user

  user_grants-admits :
      (user : User)
      → admits u principal iss claims info user ≡ true
      → (user_grants principal user.identity_attribute iss user ≡ true)
        × (accepts user.identity_attribute ≡ true)
  user_grants-admits user h = (
    ground (
      arith,
      str_beq_iff user.identity_attribute user.identity_attribute,
      str_beq_iff iss user.issuer,
      str_beq_iff user.issuer iss,
    ),
    ground (arith, validate_claim-bare claims user, validate_user_info-bare info user),
  )

  any-admits :
      (users : List User)
      → any (admits u principal iss claims info) users ≡ true
      → (id : Str) × (any (user_grants principal id iss) users ≡ true) × (accepts id ≡ true)
  any-admits [] h = cc
  any-admits (user ∷ users) h = elim (Bool-cases (admits u principal iss claims info user)) [
    | inl a ↦ let (g, v) = user_grants-admits user a in (user.identity_attribute, ground arith, v)
    | inr n ↦ let (id, g, v) = any-admits users (ground arith) in (id, ground arith, v)
  ]

-- A row that lets the user in: of the system policy, or of the user's own file and for the login
-- as that user.
pub record Source (u : Unicode) (env : Env) (script : OptionalLoader) (s : env.fs.State)
    (log : ConfigLog) (username principal iss : Str) (claims : CheckedClaims)
    (info : Option CheckedClaims) : Type 0 where
  pub identity : Str
  pub accepted : accepts u principal iss claims info identity ≡ true
  pub listed :
      (granted (root_result env username script s log) principal identity iss ≡ true)
      ⊎ ((username ≡ principal)
          × (granted (policy_of (home_result env username script s log)) username identity iss
              ≡ true))

module _ {E : Type 0} (u : Unicode) (json : Json) (env : Env) (script : OptionalLoader)
    (s : env.fs.State) (log : ConfigLog) (plugins : Result E (List PluginResult)) where
  Source-of_grants :
      (username principal iss : Str) (claims : CheckedClaims) (info : Option CheckedClaims)
      (p : Policy) (src : Str)
      → (load_multi env username script s log).0 ≡ ok (p, src)
      → any (admits u principal iss claims info) p.users ≡ true
      → Source u env script s log username principal iss claims info
  Source-of_grants username principal iss claims info p src l a =
      let (id, g, v) = any-admits u principal iss claims info p.users a in
      record {
        identity = id;
        accepted = v;
        listed = ground (
          arith,
          grants-load_multi env username script s log principal id iss p src l,
          str_beq_iff username principal,
        );
      }

  Source-of_admitted :
      (username principal iss : Str) (claims : CheckedClaims) (info : Option (Option CheckedClaims))
      (loaded : Result MultiError (Policy × Str))
      → (load_multi env username script s log).0 ≡ loaded
      → AdmittedBy u principal iss claims info loaded
      → (i : Option CheckedClaims) × (info ≡ some i)
        × (mismatch claims i ≡ none)
        × Source u env script s log username principal iss claims i
  Source-of_admitted username principal iss claims info (err e) l a = absurd a
  Source-of_admitted username principal iss claims none (ok p) l a = absurd a
  Source-of_admitted username principal iss claims (some i) (ok (p, src)) l a =
      (i, refl, a.0, Source-of_grants username principal iss claims i p src l a.1)

  -- A login that is granted and that no plugin allows rests on a row of the system policy, or on a
  -- row of the file of the very user who is logged in to. The row names the principal and the
  -- issuer of the token, and its identity attribute accepts the claims that the token's payload
  -- holds, or those of the userinfo endpoint, which are of the same subject.
  pub opk_policy_enforcer-Source :
      (username principal payload : Str) (issuer : Option Str) (text : Str) (deny : DenyList)
      → opk_policy_enforcer env script u json s log plugins username principal payload issuer text
          deny
        ≡ returned (ok tt)
      → ¬ (PluginsAllow plugins)
      → (claims : CheckedClaims) × (iss : Str) × (info : Option CheckedClaims) × (unmarshal_claims
            json payload
          ≡ some claims)
        × (issuer ≡ some iss)
        × (read_user_info json text ≡ some info)
        × (mismatch claims info ≡ none)
        × Source u env script s log username principal iss claims info
  unfolding opk_policy_enforcer
  opk_policy_enforcer-Source username principal payload issuer text deny h silent =
      let a =
        (check_policy_granted_iff u json principal payload issuer text deny plugins
            (load_multi env username script s log).0).0
          h in
      let admitted : AdmittedBy u principal a.iss a.claims (read_user_info json text)
          (load_multi env username script s log).0 =
        elim a.allowed [ inl p ↦ absurd (silent p) | inr (q, p) ↦ p ] in
      let (i, e, same, src) =
        Source-of_admitted username principal a.iss a.claims (read_user_info json text)
          (load_multi env username script s log).0 refl admitted in
      (a.claims, a.iss, i, a.readable, a.issued, e, same, src)
