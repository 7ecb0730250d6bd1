-- ===== src/Logout/Config.antt =====
-- The configuration of the identity directory: what a login adds, a logout takes off.
use opkssh.Base.{
  ℕ, false, List, [], ◌∷◌, ◌++◌, ◌≡◌, ◌≢◌, refl, subst, ap, ◌∙◌, arith, Str, str, nat_eq, str_eq,
  str_beq_iff, All, All-append,
}
use opkssh.Text.{split, join, trim_space, includes}
use opkssh.Text.Split.{Lacks, split_at_sep}
use opkssh.Text.Includes.{
  includes-append_left, includes-part, trim_space-part, join-split, split-excludes,
}
use opkssh.Login.Keys.{identity_line, with_identity}
use opkssh.Logout.{unix_lines, other_lines, without_identity}

unix_lines-Lacks : (s : Str) → Lacks b'\r' s → unix_lines s ≡ s
unfolding unix_lines
unix_lines-Lacks [] h = refl
unix_lines-Lacks (c ∷ s) (n, h) = ground (arith, unix_lines-Lacks s h)

-- A line that holds no path is not the line of the path.
other_line : (path line : Str) → includes line path ≡ false → trim_space line ≢ identity_line path
other_line path line h e =
    let (a, b, whole) = trim_space-part line in
    let found =
      includes-append_left a (identity_line path ++ b) path
        (includes-part (str "IdentityFile ") path b) in
    let same = subst (λ t. line ≡ a ++ (t ++ b)) e whole in
    ground (arith, ap (λ t. includes t path) same)

other_lines-same :
    (path : Str) (lines : List Str)
    → All (λ l. includes l path ≡ false) lines
    → other_lines (identity_line path) lines ≡ lines
unfolding other_lines
other_lines-same path [] h = refl
other_lines-same path (l ∷ lines) (h, hs) = ground (
  arith,
  other_lines-same path lines hs,
  str_beq_iff (trim_space l) (identity_line path),
  other_line path l h,
)

drop_own_line :
    (path : Str) (lines : List Str)
    → trim_space (identity_line path) ≡ identity_line path
    → other_lines (identity_line path) (identity_line path ∷ lines)
      ≡ other_lines (identity_line path) lines
unfolding other_lines
drop_own_line path lines h =
    ground (arith, str_beq_iff (trim_space (identity_line path)) (identity_line path))

abbrev keyword : Str
keyword = str "IdentityFile "

identity-Lacks :
    (path : Str) (c : ℕ) → All (λ d. d ≢ c) keyword → Lacks c path → Lacks c (identity_line path)
identity-Lacks path c k h = All-append (λ d. d ≢ c) keyword path k h

added :
    (path content : Str)
    → includes content path ≡ false
    → with_identity path content ≡ identity_line path ++ b'\n' ∷ content
unfolding with_identity
added path content new = rw new refl

-- The configuration that a login writes for a key that it did not mention is, without the lines
-- of the key, the configuration from before. The path has no line break in it and no white space
-- at its end, and the configuration has no carriage return.
pub without_identity-with_identity :
    (path content : Str)
    → includes content path ≡ false
    → Lacks b'\n' path
    → Lacks b'\r' path
    → trim_space (identity_line path) ≡ identity_line path
    → Lacks b'\r' content
    → without_identity path (with_identity path content) ≡ content
unfolding without_identity with_identity
without_identity-with_identity path content new one_line plain trimmed unix =
    let identity = identity_line path in
    let text = identity ++ b'\n' ∷ content in
    let lines = split content b'\n' in
    let no_return =
      All-append (λ c. c ≢ b'\r') identity (b'\n' ∷ content)
        (identity-Lacks path b'\r' (ground arith) plain) (ground arith, unix) in
    ap (λ t. without_identity path t) (added path content new)
    ∙ ap (λ t. join (other_lines identity (split t b'\n')) (b'\n' ∷ []))
        (unix_lines-Lacks text no_return)
    ∙ ap (λ ls. join (other_lines identity ls) (b'\n' ∷ []))
        (split_at_sep identity content b'\n' (identity-Lacks path b'\n' (ground arith) one_line))
    ∙ ap (λ ls. join ls (b'\n' ∷ []))
        (drop_own_line path lines trimmed
          ∙ other_lines-same path lines (split-excludes content path b'\n' new))
    ∙ join-split content b'\n'
