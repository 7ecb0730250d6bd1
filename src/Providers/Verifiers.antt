-- ===== src/Providers/Verifiers.antt =====
-- The verifiers that `CreateVerifier` makes.
use opkssh.Base.{
  Bool, true, List, [], ◌∷◌, ◌++◌, ◌≡◌, ◌≢◌, ◌↔◌, refl, ap, ◌∙◌, sym, arith, Str, append-nil,
  append_assoc, Option, none, some, Result, ok, err, Option-cases, inl, inr,
}
use opkssh.Validator.{ProvidersRow}
use opkssh.Providers.{
  ExpirationPolicy, get_expiration_policy, provider_verifier_from_row, VerifierError, Expiring,
  verifiers_from, from_many, create_verifier,
}

module _ (is_forgejo : Str → Bool) where
  -- The verifier of each row with the expiration of the row, if every row has a valid one.
  pub expected_verifiers : List ProvidersRow → Option (List Expiring)
  expected_verifiers [] = some []
  expected_verifiers (row ∷ rows) = elim (get_expiration_policy row) [
    | none ↦ none
    | some e ↦ elim (expected_verifiers rows) [
      | none ↦ none
      | some pvs ↦
          some
            (record { verifier = provider_verifier_from_row is_forgejo row; expiration = e } ∷ pvs)
    ]
  ]

  abbrev pub pvs_of :
      Result VerifierError (List Expiring × Option ExpirationPolicy) → Option (List Expiring)
  pvs_of (err e) = none
  pvs_of (ok (pvs, last)) = some pvs

  abbrev behind : List Expiring → Option (List Expiring) → Option (List Expiring)
  behind pvs none = none
  behind pvs (some more) = some (pvs ++ more)

  behind-concat :
      (pvs : List Expiring) (pv : Expiring) (o : Option (List Expiring))
      → behind (pvs ++ pv ∷ []) o
        ≡ behind pvs (elim o [ none ↦ none | some more ↦ some (pv ∷ more) ])
  behind-concat pvs pv none = refl
  behind-concat pvs pv (some more) = ap some (append_assoc pvs (pv ∷ []) more)

  verifiers_from_lem :
      (rows : List ProvidersRow) (pvs : List Expiring) (last : Option ExpirationPolicy)
      → pvs_of (verifiers_from is_forgejo pvs last rows) ≡ behind pvs (expected_verifiers rows)
  unfolding verifiers_from expected_verifiers
  verifiers_from_lem [] pvs last = ap some (sym (append-nil pvs))
  verifiers_from_lem (row ∷ rows) pvs last = elim (Option-cases (get_expiration_policy row)) [
    | inl e ↦ rw (e, verifiers_from, expected_verifiers)
    | inr (x, e) ↦
        rw (e, verifiers_from, expected_verifiers)
          (verifiers_from_lem rows _ (some x) ∙ behind-concat pvs _ (expected_verifiers rows))
  ]

  -- A verifier is made exactly if there are rows, each with a valid expiration policy, and the
  -- library takes their verifiers; it is then of the verifier of each row with the expiration of
  -- that row, in their order. So one row with an invalid policy leaves no verifier for any issuer.
  pub create_verifier_iff :
      (accepts : List Expiring → Bool) (rows : List ProvidersRow) (pvs : List Expiring)
      → (pvs_of (create_verifier is_forgejo accepts rows) ≡ some pvs)
        ↔ ((expected_verifiers rows ≡ some pvs) × (pvs ≢ []) × (accepts pvs ≡ true))
  unfolding create_verifier
  create_verifier_iff accepts rows pvs =
      go (verifiers_from is_forgejo [] none rows) (verifiers_from_lem rows [] none)
    where
      go :
          (r : Result VerifierError (List Expiring × Option ExpirationPolicy))
          → pvs_of r ≡ behind [] (expected_verifiers rows)
          → (pvs_of (from_many accepts r) ≡ some pvs)
            ↔ ((expected_verifiers rows ≡ some pvs) × (pvs ≢ []) × (accepts pvs ≡ true))
      go (err e) h = (ground arith, ground arith)
      go (ok ([], last)) h = (ground arith, ground arith)
      go (ok (pv ∷ more, last)) h = (ground arith, ground arith)
