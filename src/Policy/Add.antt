-- ===== src/Policy/Add.antt =====
-- `AddAllowedPrincipal` against a recursion over the entries.
use mathlib.Core.Option
use opkssh.Base.{
  ℕ, suc, Bool, true, List, [], ◌∷◌, ◌++◌, ◌≡◌, refl, ap, ◌∙◌, arith, Option, none, some, Str,
  str_eq, str_beq_refl, contains-concat_self, if◌then◌else◌, any,
}
use opkssh.Policy.{
  User, Policy, already, first_match, matches, search_users, append_principal, finish_add,
  add_allowed_principal, user_grants,
}

module _ (principal email issuer : Str) where
  abbrev pub has : List User → Bool
  has = any (user_grants principal email issuer)

  abbrev first_index : ℕ → List User → Option ℕ
  first_index i [] = none
  first_index i (u ∷ us) = if matches email issuer u then some i else first_index (suc i) us

  abbrev new_user : User
  new_user = record { identity_attribute = email; principals = principal ∷ []; issuer = issuer }

  abbrev extend : User → User
  extend u = record u { principals = u.principals ++ principal ∷ [] }

  -- The first entry of the user is extended, or a new one is put at the end.
  unfoldable pub insert_first : List User → List User
  insert_first [] = new_user ∷ []
  insert_first (u ∷ us) = if matches email issuer u then extend u ∷ us else u ∷ insert_first us

  search_users_found :
      (i j : ℕ) (us : List User)
      → search_users principal email issuer i (some j) us
        ≡ (if has us then already else first_match (some j))
  unfolding search_users
  search_users_found i j [] = refl
  search_users_found i j (u ∷ us) = ground (arith, search_users_found (suc i) j us)

  search_users_lem :
      (i : ℕ) (us : List User)
      → search_users principal email issuer i none us
        ≡ (if has us then already else first_match (first_index i us))
  unfolding search_users
  search_users_lem i [] = refl
  search_users_lem i (u ∷ us) =
      ground (arith, search_users_lem (suc i) us, search_users_found (suc i) i us)

  first_index-suc :
      (i : ℕ) (us : List User) → first_index (suc i) us ≡ Option.map suc (first_index i us)
  first_index-suc i [] = refl
  first_index-suc i (u ∷ us) = ground (arith, first_index-suc (suc i) us)

  finish_add-map :
      (u : User) (us : List User) (o : Option ℕ)
      → finish_add principal email issuer (u ∷ us) (first_match (Option.map suc o))
        ≡ u ∷ finish_add principal email issuer us (first_match o)
  unfolding append_principal
  finish_add-map u us none = refl
  finish_add-map u us (some i) = refl

  finish_add-insert_first :
      (us : List User)
      → finish_add principal email issuer us (first_match (first_index 0 us)) ≡ insert_first us
  unfolding insert_first append_principal
  finish_add-insert_first [] = refl
  finish_add-insert_first (u ∷ us) = ground (
    arith,
    first_index-suc 0 us,
    finish_add-map u us (first_index 0 us),
    finish_add-insert_first us,
  )

  -- Nothing changes if an entry of the user has the principal. Else the first entry of the user
  -- with this issuer gets it at the end of its principals, and if there is none, a new entry
  -- stands behind all others.
  pub add_allowed_principal_lem :
      (p : Policy)
      → (add_allowed_principal principal email issuer p).users
        ≡ (if has p.users then p.users else insert_first p.users)
  unfolding add_allowed_principal
  add_allowed_principal_lem p =
      ground (arith, search_users_lem 0 p.users, finish_add-insert_first p.users)

  has-insert_first : (us : List User) → has (insert_first us) ≡ true
  unfolding insert_first
  has-insert_first [] =
      ground (arith, str_beq_refl principal, str_beq_refl email, str_beq_refl issuer)
  has-insert_first (u ∷ us) =
      ground (arith, has-insert_first us, contains-concat_self u.principals principal)

  -- Afterwards the principal is allowed, so adding it once more changes nothing.
  pub add_allowed_principal_idem :
      (p : Policy)
      → add_allowed_principal principal email issuer
          (add_allowed_principal principal email issuer p)
        ≡ add_allowed_principal principal email issuer p
  add_allowed_principal_idem p =
      ap (λ us. record { users = us })
        (add_allowed_principal_lem (add_allowed_principal principal email issuer p)
          ∙ ground (arith, add_allowed_principal_lem p, has-insert_first p.users))
