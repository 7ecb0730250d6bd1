-- ===== src/Files/Perms.antt =====
-- When `CheckPerm` passes.
use opkssh.Base.{
  ℕ, true, List, [], ◌∷◌, ◌≡◌, ◌⊎◌, ◌↔◌, inl, inr, arith, Option, none, some, Str, nat_eq, str_eq,
  str_beq_iff, contains, ok, Option-cases,
}
use opkssh.Text.{split, trim_space}
use opkssh.Files.{FileInfo, perm, Check, passed, check_mode, check_owner, check_perm}

abbrev Meets : Str → Str → Type 0
Meets wanted found = (wanted ≡ []) ⊎ (wanted ≡ found)

-- The command prints exactly two words, and each is the one asked for, if one is.
abbrev pub OwnerMatches : Str → Str → List Str → Type 0
OwnerMatches owner group (o ∷ g ∷ []) = Meets owner o × Meets group g
OwnerMatches owner group _ = ⊥

abbrev pub OutputMatches : Str → Str → Option Str → Type 0
OutputMatches owner group none = ⊥
OutputMatches owner group (some output) = OwnerMatches owner group (split (trim_space output) b' ')

-- What `CheckPerm` promises of a file.
pub record IsSafe (run_stat : Str → Option Str) (info : FileInfo) (path : Str) (require : List ℕ)
    (owner group : Str) : Type 0 where
  pub mode_listed : contains require (perm info.mode) ≡ true
  pub owned : ((owner ≡ []) × (group ≡ [])) ⊎ OutputMatches owner group (run_stat path)

module _ (owner group : Str) where
  check_owner_passed :
      (parts : List Str) (next : Check)
      → check_owner owner group parts next ≡ passed
      → OwnerMatches owner group parts × (next ≡ passed)
  unfolding check_owner
  check_owner_passed [] next h = cc
  check_owner_passed (o ∷ []) next h = cc
  check_owner_passed (o ∷ g ∷ []) next h =
      ground (
        arith,
        str_beq_iff owner [],
        str_beq_iff owner o,
        str_beq_iff group [],
        str_beq_iff group g,
      )
  check_owner_passed (o ∷ g ∷ x ∷ more) next h = cc

  check_owner-of_matches :
      (parts : List Str) (next : Check)
      → OwnerMatches owner group parts
      → check_owner owner group parts next ≡ next
  unfolding check_owner
  check_owner-of_matches [] next m = absurd m
  check_owner-of_matches (o ∷ []) next m = absurd m
  check_owner-of_matches (o ∷ g ∷ []) next m =
      ground (
        arith,
        str_beq_iff owner [],
        str_beq_iff owner o,
        str_beq_iff group [],
        str_beq_iff group g,
      )
  check_owner-of_matches (o ∷ g ∷ x ∷ more) next m = absurd m

module _ (run_stat : Str → Option Str) (info : FileInfo) (path : Str) (require : List ℕ)
    (owner group : Str) where
  sound :
      check_perm run_stat (ok info) path require owner group ≡ passed
      → IsSafe run_stat info path require owner group
  unfolding check_perm
  sound h = elim (Option-cases (run_stat path)) [
    | inl none_eq ↦ ground (arith, str_beq_iff owner [], str_beq_iff group [])
    | inr (out, e) ↦ ground (
      arith,
      str_beq_iff owner [],
      str_beq_iff group [],
      check_owner_passed owner group (split (trim_space out) b' ') (check_mode require info.mode),
    )
  ]

  complete :
      IsSafe run_stat info path require owner group
      → check_perm run_stat (ok info) path require owner group ≡ passed
  unfolding check_perm
  complete safe = elim (Option-cases (run_stat path)) [
    | inl none_eq ↦ ground (arith, str_beq_iff owner [], str_beq_iff group [])
    | inr (out, e) ↦ ground (
      arith,
      str_beq_iff owner [],
      str_beq_iff group [],
      check_owner-of_matches owner group (split (trim_space out) b' ')
          (check_mode require info.mode),
    )
  ]

  -- The check of an existing file passes exactly if its permission bits are among those listed
  -- and, where an owner or a group is asked for, `stat` prints two words that are the ones asked
  -- for.
  pub check_perm_passed_iff :
      (check_perm run_stat (ok info) path require owner group ≡ passed)
      ↔ IsSafe run_stat info path require owner group
  check_perm_passed_iff = (sound, complete)
