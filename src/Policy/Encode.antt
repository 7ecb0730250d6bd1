-- ===== src/Policy/Encode.antt =====
-- `ToTable`, and `FromTable` after it.
use opkssh.Base.{
  Bool, ◌&&◌, List, [], ◌∷◌, ◌++◌, ◌≡◌, ◌≢◌, refl, ◌∙◌, sym, arith, Str, ◌==◌, str_eq, str_beq_iff,
  append-nil, append_assoc, contains, any, any-append, All,
}
use opkssh.Table.{Shell, Row, Table, to_string}
use opkssh.Table.RoundTrip.{Storable, new_table-to_string}
use opkssh.ConfigLog.{ConfigLog}
use opkssh.Policy.{
  User, Policy, from_row, from_table, principal_rows, user_rows, policy_rows, to_table, matches,
  user_grants, grants,
}
use opkssh.Policy.Parse.{row_users, all_users, from_table_lem}

-- The rows of one user.
abbrev rows_of : User → List Str → List Row
rows_of u [] = []
rows_of u (p ∷ ps) = (p ∷ u.identity_attribute ∷ u.issuer ∷ []) ∷ rows_of u ps

abbrev pub rows_of_all : List User → List Row
rows_of_all [] = []
rows_of_all (u ∷ us) = rows_of u u.principals ++ rows_of_all us

principal_rows_lem :
    (u : User) (ps : List Str) (t : Table) → (principal_rows u ps t).rows ≡ t.rows ++ rows_of u ps
unfolding principal_rows
principal_rows_lem u [] t = sym (append-nil t.rows)
principal_rows_lem u (p ∷ ps) t = principal_rows_lem u ps _ ∙ append_assoc t.rows _ (rows_of u ps)

user_rows_lem : (us : List User) (t : Table) → (user_rows us t).rows ≡ t.rows ++ rows_of_all us
unfolding user_rows
user_rows_lem [] t = sym (append-nil t.rows)
user_rows_lem (u ∷ us) t =
    user_rows_lem us (principal_rows u u.principals t)
    ∙ rw (principal_rows_lem u u.principals t) (append_assoc t.rows _ (rows_of_all us))

policy_rows_lem : (p : Policy) → (policy_rows p).rows ≡ rows_of_all p.users
unfolding policy_rows
policy_rows_lem p = user_rows_lem p.users (record { rows = [] })

module _ (path q id iss : Str) where
  abbrev granted : List User → Bool
  granted = any (user_grants q id iss)

  granted_row :
      (u : User) (p : Str)
      → u.identity_attribute ≢ []
      → granted (row_users (p ∷ u.identity_attribute ∷ u.issuer ∷ []))
        ≡ (p == q && matches id iss u)
  unfolding from_row
  granted_row u p n = ground (arith, str_beq_iff u.identity_attribute [])

  granted-rows_of :
      (u : User) (ps : List Str)
      → u.identity_attribute ≢ []
      → granted (all_users (rows_of u ps)) ≡ (contains ps q && matches id iss u)
  granted-rows_of u [] n = refl
  granted-rows_of u (p ∷ ps) n =
      any-append (user_grants q id iss) (row_users (p ∷ u.identity_attribute ∷ u.issuer ∷ [])) _
      ∙ ground (arith, granted_row u p n, granted-rows_of u ps n)

  all_users-append : (xs ys : List Row) → all_users (xs ++ ys) ≡ all_users xs ++ all_users ys
  all_users-append [] ys = refl
  all_users-append (x ∷ xs) ys =
      rw (all_users-append xs ys) (sym (append_assoc (row_users x) _ (all_users ys)))

  granted-rows_of_all :
      (us : List User)
      → All (λ (u : User). u.identity_attribute ≢ []) us
      → granted (all_users (rows_of_all us)) ≡ granted us
  granted-rows_of_all [] _ = refl
  granted-rows_of_all (u ∷ us) (n, h) =
      rw (all_users-append (rows_of u u.principals) (rows_of_all us), any-append)
        (ground (arith, granted-rows_of u u.principals n, granted-rows_of_all us h))

  -- A policy that is written and read back allows the same, if its lines can be stored and no
  -- identity is empty. The entries themselves may differ: each principal gets one of its own.
  pub grants-from_table-to_table :
      (sh : Shell) (p : Policy) (log : ConfigLog)
      → All (Storable sh) (policy_rows p).rows
      → All (λ (u : User). u.identity_attribute ≢ []) p.users
      → grants (from_table sh (to_table sh p) path log).policy q id iss ≡ grants p q id iss
  unfolding to_table
  grants-from_table-to_table sh p log s n =
      rw (from_table_lem path sh (to_string sh (policy_rows p)) log) (
        rw (new_table-to_string sh (policy_rows p) s, policy_rows_lem p)
          (granted-rows_of_all p.users n))
