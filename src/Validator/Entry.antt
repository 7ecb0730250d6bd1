-- ===== src/Validator/Entry.antt =====
-- The result of `ValidateEntry`.
use opkssh.Base.{
  ℕ, Bool, true, false, not, ◌||◌, List, [], ◌∷◌, ◌≡◌, inl, inr, refl, arith, Option, none, some,
  Str, str, ◌==◌, str_eq, str_beq_iff, if◌then◌else◌, Option-cases, any, ◌∙◌, length,
}
use opkssh.Text.{has_prefix, has_suffix}
use opkssh.Validator.{
  ValidationStatus, success, warning, error, ProvidersRow, IssuerMap, lookup_issuer, insert_issuer,
  add_rows, new_policy_validator, validate_entry,
}

abbrev is_some {ℓ} : {A : Type ℓ} → Option A → Bool
is_some none = false
is_some (some a) = true

lookup-insert_issuer :
    (j k : Str) (row : ProvidersRow) (m : IssuerMap)
    → lookup_issuer j (insert_issuer k row m) ≡ (if k == j then some row else lookup_issuer j m)
unfolding lookup_issuer insert_issuer
lookup-insert_issuer j k row [] = refl
lookup-insert_issuer j k row ((i, old) ∷ m) =
    ground
      (arith, str_beq_iff i k, str_beq_iff i j, str_beq_iff k j, lookup-insert_issuer j k row m)

abbrev has_issuer : Str → List ProvidersRow → Bool
has_issuer issuer = any (λ (row : ProvidersRow). row.issuer == issuer)

add_rows_known :
    (issuer : Str) (rows : List ProvidersRow) (m : IssuerMap)
    → is_some (lookup_issuer issuer (add_rows m rows))
      ≡ (has_issuer issuer rows || is_some (lookup_issuer issuer m))
unfolding add_rows
add_rows_known issuer [] m = refl
add_rows_known issuer (row ∷ rows) m =
    add_rows_known issuer rows (insert_issuer row.issuer row m)
    ∙ ground (arith, lookup-insert_issuer issuer row.issuer row m)

known :
    (issuer : Str) (rows : List ProvidersRow)
    → is_some (lookup_issuer issuer (new_policy_validator rows)) ≡ has_issuer issuer rows
unfolding new_policy_validator lookup_issuer
known issuer rows = add_rows_known issuer rows [] ∙ ground arith

-- The status as the providers and the issuer determine it.
abbrev pub expected_status : List ProvidersRow → Str → ValidationStatus
expected_status rows issuer =
    if issuer == [] || (not (has_issuer issuer rows) || has_suffix issuer (str "/"))
    then error
    else if has_prefix issuer (str "https://")
    then success
    else warning

module _ (rows : List ProvidersRow) (principal identity issuer : Str) (line : ℕ) where
  -- A row is an error if its issuer is empty, is that of no provider or ends in a slash. Otherwise
  -- it is a success with https and a warning without. Where there is something to do, there is
  -- exactly one hint, except for an empty issuer, which has none.
  pub validate_entry_status :
      let r = validate_entry (new_policy_validator rows) principal identity issuer line in
      (r.status ≡ expected_status rows issuer)
      × (length r.hints ≡ (if issuer == [] then 0 else elim r.status [ success ↦ 0 | _ ↦ 1 ]))
      × (r.line_number ≡ line)
  unfolding validate_entry
  validate_entry_status = elim (Option-cases (lookup_issuer issuer (new_policy_validator rows))) [
    | inl e ↦ (ground (arith, known issuer rows), ground arith, ground arith)
    | inr (row, e) ↦ (ground (arith, known issuer rows), ground arith, ground arith)
  ]
