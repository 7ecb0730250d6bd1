-- ===== src/Enforcer/Decision.antt =====
-- When `CheckPolicy` grants access.
use opkssh.Base.{
  Bool, true, false, ◌&&◌, ◌||◌, List, [], ◌∷◌, ◌≡◌, ◌≢◌, ◌⊎◌, ◌↔◌, inl, inr, refl, ◌∙◌, sym, arith,
  Option, none, some, Str, ◌==◌, str_eq, contains, if◌then◌else◌, any, Result, ok, err,
  Option-cases,
}
use opkssh.Policy.{User, Policy}
use opkssh.Plugins.{PluginResult, Run, returned, crash, results_allowed}
use opkssh.Enforcer.{Unicode, Json, CheckedClaims, DenyList, unmarshal_claims, validate_claim}
use opkssh.Enforcer.Check.{
  validate_user_info, Decision, no_policy, denied_by, mismatch, check_users, decide_by_policy,
  decide_by_plugins, decide_by_deny_list, read_user_info, check_policy,
}

module _ (u : Unicode) (principal iss : Str) (claims : CheckedClaims) where
  -- A row admits the login: its issuer and principal are those asked for, and its attribute
  -- accepts the claims of the token or those of the userinfo endpoint.
  abbrev pub admits : Option CheckedClaims → User → Bool
  admits info user =
      iss == user.issuer
      && (contains user.principals principal
          && (validate_claim u claims user || validate_user_info u info user))

  check_users_lem :
      (info : Option CheckedClaims) (source : Str) (users : List User)
      → mismatch claims info ≡ none
      → check_users u principal iss claims info source users
        ≡ (if any (admits info) users then ok tt else err (no_policy source))
  unfolding check_users
  check_users_lem info source [] m = refl
  check_users_lem info source (user ∷ users) m = ground (arith, check_users_lem info source users m)

  check_users-mismatch :
      (info : Option CheckedClaims) (source : Str) (users : List User) (sub : Str)
      → mismatch claims info ≡ some sub
      → check_users u principal iss claims info source users ≢ ok tt
  unfolding check_users
  check_users-mismatch info source [] sub m h = cc
  check_users-mismatch info source (user ∷ users) sub m h = ground arith

  -- The policy that was loaded admits the login, and the userinfo is of the same subject.
  abbrev pub AdmittedBy :
      {E : Type 0} → Option (Option CheckedClaims) → Result E (Policy × Str) → Type 0
  AdmittedBy info (err e) = ⊥
  AdmittedBy none (ok _) = ⊥
  AdmittedBy (some info) (ok (policy, source)) =
      (mismatch claims info ≡ none) × (any (admits info) policy.users ≡ true)

  decide_by_policy_iff :
      {E : Type 0} (info : Option (Option CheckedClaims)) (loaded : Result E (Policy × Str))
      → (decide_by_policy u principal iss claims info loaded ≡ ok tt) ↔ AdmittedBy info loaded
  decide_by_policy_iff info (err e) = (λ h. cc, λ h. absurd h)
  decide_by_policy_iff none (ok p) = (λ h. cc, λ h. absurd h)
  decide_by_policy_iff (some info) (ok (policy, source)) =
      elim (Option-cases (mismatch claims info)) [
        | inl m ↦ (
          λ h. (m, ground (arith, check_users_lem info source policy.users m)),
          λ h. check_users_lem info source policy.users m ∙ rw (h.1),
        )
        | inr (sub, m) ↦
            (λ h. absurd (check_users-mismatch info source policy.users sub m h), λ h. cc)
      ]

-- A plugin allows the login.
abbrev pub PluginsAllow : {E : Type 0} → Result E (List PluginResult) → Type 0
PluginsAllow (err e) = ⊥
PluginsAllow (ok results) = results_allowed results ≡ returned true

-- The plugins failed, or none allows the login.
abbrev pub PluginsSilent : {E : Type 0} → Result E (List PluginResult) → Type 0
PluginsSilent (err e) = Unit
PluginsSilent (ok results) = results_allowed results ≡ returned false

Run-cases {ℓ} : {A : Type ℓ} (r : Run A) → (r ≡ crash) ⊎ ((a : A) × (r ≡ returned a))
Run-cases crash = inl refl
Run-cases (returned a) = inr (a, refl)

module _ (u : Unicode) where
  decide_by_plugins_iff :
      {E : Type 0} (plugins : Result E (List PluginResult)) (rest : Decision)
      → (decide_by_plugins u plugins rest ≡ returned (ok tt))
        ↔ (PluginsAllow plugins ⊎ (PluginsSilent plugins × (rest ≡ ok tt)))
  decide_by_plugins_iff (err e) rest = (λ h. inr (tt, ground arith), ground arith)
  decide_by_plugins_iff (ok results) rest = elim (Run-cases (results_allowed results)) [
    | inl c ↦ (ground arith, ground arith)
    | inr (b, c) ↦ (ground arith, ground arith)
  ]

  decide_by_deny_list_iff :
      (claims : CheckedClaims) (principal : Str) (deny : DenyList) (rest : Run Decision)
      → (decide_by_deny_list u claims principal deny rest ≡ returned (ok tt)) ↔ (
          (denied_by u claims.email deny.emails ≡ none)
          × (denied_by u principal deny.users ≡ none)
          × (rest ≡ returned (ok tt)))
  decide_by_deny_list_iff claims principal deny rest = (ground arith, ground arith)

-- What it takes to be granted access.
pub record IsAuthorized (u : Unicode) (json : Json) {E F : Type 0} (principal payload : Str)
    (issuer : Option Str) (user_info : Str) (deny : DenyList)
    (plugins : Result E (List PluginResult)) (loaded : Result F (Policy × Str)) : Type 0 where
  pub claims : CheckedClaims
  pub readable : unmarshal_claims json payload ≡ some claims
  pub iss : Str
  pub issued : issuer ≡ some iss
  pub email_allowed : denied_by u claims.email deny.emails ≡ none
  pub user_allowed : denied_by u principal deny.users ≡ none
  pub allowed :
      PluginsAllow plugins
      ⊎ (PluginsSilent plugins
          × AdmittedBy u principal iss claims (read_user_info json user_info) loaded)

module _ (u : Unicode) (json : Json) {E F : Type 0} (principal payload : Str) (issuer : Option Str)
    (user_info : Str) (deny : DenyList) (plugins : Result E (List PluginResult))
    (loaded : Result F (Policy × Str)) where
  abbrev decided : CheckedClaims → Str → Run Decision
  decided claims iss = decide_by_deny_list u claims principal deny (
      decide_by_plugins u plugins
        (decide_by_policy u principal iss claims (read_user_info json user_info) loaded))

  check_policy_lem :
      (claims : CheckedClaims) (iss : Str)
      → unmarshal_claims json payload ≡ some claims
      → issuer ≡ some iss
      → check_policy u json principal payload issuer user_info deny plugins loaded
        ≡ decided claims iss
  unfolding check_policy
  check_policy_lem claims iss e i = rw (e, check_policy) (rw i)

  authorized :
      (claims : CheckedClaims) (iss : Str)
      → unmarshal_claims json payload ≡ some claims
      → issuer ≡ some iss
      → decided claims iss ≡ returned (ok tt)
      → IsAuthorized u json principal payload issuer user_info deny plugins loaded
  authorized claims iss e i h =
      let (email, user, rest) = (decide_by_deny_list_iff u claims principal deny _).0 h in
      record {
        claims = claims;
        readable = e;
        iss = iss;
        issued = i;
        email_allowed = email;
        user_allowed = user;
        allowed = elim ((decide_by_plugins_iff u plugins _).0 rest) [
          | inl a ↦ inl a
          | inr (silent, granted) ↦
              inr (silent, (decide_by_policy_iff u principal iss claims _ loaded).0 granted)
        ];
      }

  sound :
      check_policy u json principal payload issuer user_info deny plugins loaded ≡ returned (ok tt)
      → IsAuthorized u json principal payload issuer user_info deny plugins loaded
  sound h = elim (Option-cases (unmarshal_claims json payload)) [
    | inl e ↦ absurd (unfold check_policy in ground arith)
    | inr (claims, e) ↦ elim (Option-cases issuer) [
      | inl i ↦ absurd (unfold check_policy in ground arith)
      | inr (iss, i) ↦ authorized claims iss e i (sym (check_policy_lem claims iss e i) ∙ h)
    ]
  ]

  complete :
      IsAuthorized u json principal payload issuer user_info deny plugins loaded
      → check_policy u json principal payload issuer user_info deny plugins loaded
        ≡ returned (ok tt)
  complete a =
      check_policy_lem a.claims a.iss a.readable a.issued
      ∙ (decide_by_deny_list_iff u a.claims principal deny _).1 (
        a.email_allowed,
        a.user_allowed,
        (decide_by_plugins_iff u plugins _).1 (elim a.allowed [
          | inl p ↦ inl p
          | inr (silent, p) ↦
              inr (silent, (decide_by_policy_iff u principal a.iss a.claims _ loaded).1 p)
        ]),
      )

  -- Access is granted exactly if the claims and the issuer of the token can be read, neither its
  -- email nor the principal is on a deny list, and a plugin allows the login, or no plugin does
  -- and the loaded policy has a row that admits it, with a userinfo of the same subject.
  pub check_policy_granted_iff :
      (check_policy u json principal payload issuer user_info deny plugins loaded
        ≡ returned (ok tt))
      ↔ IsAuthorized u json principal payload issuer user_info deny plugins loaded
  check_policy_granted_iff = (sound, complete)
