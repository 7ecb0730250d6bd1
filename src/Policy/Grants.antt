-- ===== src/Policy/Grants.antt =====
-- What the operations do to the set of rows that a policy stands for.
use opkssh.Base.{
  Bool, true, ◌&&◌, ◌||◌, List, [], ◌∷◌, ◌++◌, ◌≡◌, arith, Str, ◌==◌, str_eq, str_beq_iff,
  contains-append, any,
}
use opkssh.Policy.{User, Policy, matches, add_allowed_principal, user_grants, grants}
use opkssh.Policy.Add.{insert_first, add_allowed_principal_lem}

module _ (principal email issuer q id iss : Str) where
  abbrev pub is_added : Bool
  is_added = principal == q && (email == id && issuer == iss)

  user_grants-extend :
      (u : User)
      → matches email issuer u ≡ true
      → user_grants q id iss (record u { principals = u.principals ++ principal ∷ [] })
        ≡ (user_grants q id iss u || is_added)
  user_grants-extend u m = ground (
    arith,
    contains-append u.principals (principal ∷ []) q,
    str_beq_iff u.identity_attribute email,
    str_beq_iff u.issuer issuer,
  )

  any-insert_first :
      (us : List User)
      → any (user_grants q id iss) (insert_first principal email issuer us)
        ≡ (any (user_grants q id iss) us || is_added)
  unfolding insert_first
  any-insert_first [] = ground arith
  any-insert_first (u ∷ us) = ground (arith, any-insert_first us, user_grants-extend u)

  any_of_added :
      (us : List User)
      → any (user_grants principal email issuer) us ≡ true
      → is_added ≡ true
      → any (user_grants q id iss) us ≡ true
  any_of_added us h a =
      ground (arith, str_beq_iff principal q, str_beq_iff email id, str_beq_iff issuer iss)

  -- `AddAllowedPrincipal` allows exactly what was allowed before, and the principal that is added
  -- to the user of that identity and issuer.
  pub grants-add_allowed_principal :
      (p : Policy)
      → grants (add_allowed_principal principal email issuer p) q id iss
        ≡ (grants p q id iss || is_added)
  grants-add_allowed_principal p = ground (
    arith,
    add_allowed_principal_lem principal email issuer p,
    any-insert_first p.users,
    any_of_added p.users,
  )
