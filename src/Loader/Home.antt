-- ===== src/Loader/Home.antt =====
-- What a home policy can grant.
use opkssh.Base.{
  true, ◌&&◌, ◌||◌, List, [], ◌∷◌, ◌≡◌, ◌∙◌, arith, Str, ◌==◌, str_eq, contains, any, any-append,
  Bool-cases, inl, inr,
}
use opkssh.Policy.{User, Policy, user_grants, grants}
use opkssh.Loader.{valid_users, valid_policy}

module _ (username q id iss : Str) where
  valid_one :
      (u : User)
      → contains u.principals username ≡ true
      → user_grants q id iss (record u { principals = username ∷ [] })
        ≡ (username == q && user_grants username id iss u)
  valid_one u h = ground arith

  valid_users_grants :
      (us out : List User)
      → any (user_grants q id iss) (valid_users username out us) ≡ (
          any (user_grants q id iss) out || (username == q && any (user_grants username id iss) us))
  unfolding valid_users
  valid_users_grants [] out = ground arith
  valid_users_grants (u ∷ us) out = elim (Bool-cases (contains u.principals username)) [
    | inl h ↦ rw h (
        valid_users_grants us _
        ∙ ground (
          arith,
          any-append (user_grants q id iss) out (record u { principals = username ∷ [] } ∷ []),
          valid_one u h,
        ))
    | inr h ↦ rw h (valid_users_grants us out ∙ ground arith)
  ]

  -- The entries that `LoadHomePolicy` keeps allow no principal but the user whose file it is, and
  -- for that user what the file allows.
  pub grants-valid_policy :
      (p : Policy)
      → grants (valid_policy username p) q id iss ≡ (username == q && grants p username id iss)
  unfolding valid_policy
  grants-valid_policy p = valid_users_grants p.users []
