-- ===== src/Login/FileName.antt =====
-- What names `makeSSHKeyFileName` makes.
use opkssh.Base.{
  ℕ, ◌≤◌, Bool, true, false, [], ◌∷◌, ◌++◌, ◌≡◌, ◌≢◌, ◌⊎◌, refl, ap, arith, Str, str, nat_eq,
  str_eq, All, contains, if◌then◌else◌, ltb, length,
}
use opkssh.Text.{cut_prefix}
use opkssh.Login.Keys.{Token, or_unknown, take, is_kept, replace_runs, make_ssh_key_file_name}

-- A letter, a digit, or one of `_`, `-` and `.`.
abbrev IsPlain : ℕ → Type 0
IsPlain c =
    ((b'a' ≤ c) × (c ≤ b'z'))
    ⊎ ((b'A' ≤ c) × (c ≤ b'Z'))
    ⊎ ((b'0' ≤ c) × (c ≤ b'9'))
    ⊎ (c ≡ b'_')
    ⊎ (c ≡ b'-')
    ⊎ (c ≡ b'.')

IsPlain-is_kept : (c : ℕ) → is_kept c ≡ true → IsPlain c
unfolding is_kept
IsPlain-is_kept c h = ground arith

IsPlain-replace_runs : (in_run : Bool) (s : Str) → All IsPlain (replace_runs in_run s)
unfolding replace_runs
IsPlain-replace_runs b [] = tt
IsPlain-replace_runs b (c ∷ s) =
    ground (arith, IsPlain-is_kept c, IsPlain-replace_runs false s, IsPlain-replace_runs true s)

dash-is_kept : is_kept b'-' ≡ true
unfolding is_kept
dash-is_kept = refl

step_dash :
    (kept in_run : Bool) (c : ℕ) (r q : Str)
    → contains r b'-' ≡ true
    → contains q b'-' ≡ true
    → contains (if kept then c ∷ r else if in_run then q else b'_' ∷ q) b'-' ≡ true
step_dash true b c r q h k = ground arith
step_dash false true c r q h k = k
step_dash false false c r q h k = k

keeps_dash :
    (in_run : Bool) (s t : Str) → contains (replace_runs in_run (s ++ b'-' ∷ t)) b'-' ≡ true
unfolding replace_runs
keeps_dash b [] t = ground (arith, dash-is_kept)
keeps_dash b (c ∷ s) t = step_dash (is_kept c) b c _ _ (keeps_dash false s t) (keeps_dash true s t)

dash_elsewhere : (name t : Str) → contains name b'-' ≡ true → contains t b'-' ≡ false → name ≢ t
dash_elsewhere name t d n e = ground (arith, ap (λ u. contains u b'-') e)

-- A name that can stand for a file of the directory: no separator, no blank, no line break, and
-- none of the names `.`, `..` and `config`.
pub record IsFileName (name : Str) : Type 0 where
  pub plain : All IsPlain name
  pub other_than_config : name ≢ str "config"
  pub no_parent : name ≢ str ".."
  pub no_self : name ≢ str "."
  pub no_empty : name ≢ []

of_dash : (name : Str) → contains name b'-' ≡ true → All IsPlain name → IsFileName name
of_dash name d p = record {
  plain = p;
  other_than_config = dash_elsewhere name _ d refl;
  no_parent = dash_elsewhere name _ d refl;
  no_self = dash_elsewhere name _ d refl;
  no_empty = dash_elsewhere name _ d refl;
}

-- Whatever the issuer and the audience of the token are, the name that is made for the key has only
-- letters, digits and the bytes _, - and . in it, and is not empty, `.`, `..` or `config`, the name
-- of the file beside it.
pub make_ssh_key_file_name-IsFileName : (pkt : Token) → IsFileName (make_ssh_key_file_name pkt)
unfolding make_ssh_key_file_name
make_ssh_key_file_name-IsFileName pkt =
    let issuer = cut_prefix (or_unknown pkt.issuer) (str "https://") in
    let audience = or_unknown pkt.audience in
    let shortened = if ltb 20 (length audience) then take 20 audience else audience in
    of_dash (replace_runs false (issuer ++ b'-' ∷ shortened)) (keeps_dash false issuer shortened)
      (IsPlain-replace_runs false (issuer ++ b'-' ∷ shortened))
