-- ===== src/Verify/Principals.antt =====
-- What a principal that is let through cannot contain.
use opkssh.Base.{
  ℕ, zero, suc, true, ◌&&◌, List, [], ◌∷◌, ◌≡◌, ◌≢◌, ◌⊎◌, inl, inr, ◌≤◌, refl, arith, none, Str,
  str, ◌==◌, nat_eq, str_eq, str_beq_iff, All, All-append,
}
use opkssh.Text.{join, split}
use opkssh.Text.Split.{Lacks, split-join}
use opkssh.Verify.{is_word, is_tail, tail_matches, valid_principal, error_on_unsafe_principal}

-- The bytes that may stand in a principal.
abbrev pub IsSafe : ℕ → Type 0
IsSafe c = (c ≢ b'"') × (c ≢ b'\\') × (c ≢ b',') × (33 ≤ c) × (c ≤ 126)

is_word-IsSafe : (c : ℕ) → is_word c ≡ true → IsSafe c
unfolding is_word
is_word-IsSafe c h = ground arith

is_tail-IsSafe : (c : ℕ) → is_tail c ≡ true → IsSafe c
unfolding is_tail is_word
is_tail-IsSafe c h = ground arith

last-IsSafe : (c : ℕ) (s : Str) → (c == b'$' && s == []) ≡ true → IsSafe c × All IsSafe s
last-IsSafe c [] h = ground arith
last-IsSafe c (d ∷ s) h = ground (arith, str_beq_iff (d ∷ s) [])

tail_matches-IsSafe : (n : ℕ) (s : Str) → tail_matches n s ≡ true → All IsSafe s
unfolding tail_matches
tail_matches-IsSafe n [] h = tt
tail_matches-IsSafe zero (c ∷ s) h = last-IsSafe c s h
tail_matches-IsSafe (suc n) (c ∷ s) h =
    ground (arith, tail_matches-IsSafe n s, last-IsSafe c s, is_tail-IsSafe c)

-- A valid principal is printable ASCII with no quote, backslash, comma or space.
valid_principal-IsSafe : (p : Str) → valid_principal p ≡ true → All IsSafe p
unfolding valid_principal
valid_principal-IsSafe [] h = tt
valid_principal-IsSafe (c ∷ s) h = ground (arith, is_word-IsSafe c, tail_matches-IsSafe 127 s)

pub IsSafe-principals : (ps : List Str) → error_on_unsafe_principal ps ≡ none → All (All IsSafe) ps
unfolding error_on_unsafe_principal
IsSafe-principals [] h = tt
IsSafe-principals (p ∷ ps) h = ground (arith, valid_principal-IsSafe p, IsSafe-principals ps)

IsSafe-Lacks : (b : ℕ) → ((c : ℕ) → IsSafe c → c ≢ b) → (p : Str) → All IsSafe p → Lacks b p
IsSafe-Lacks b h [] s = tt
IsSafe-Lacks b h (c ∷ p) (s, ss) = (h c s, IsSafe-Lacks b h p ss)

All-Lacks :
    (b : ℕ)
    → ((c : ℕ) → IsSafe c → c ≢ b)
    → (ps : List Str) → All (All IsSafe) ps
    → All (Lacks b) ps
All-Lacks b h [] s = tt
All-Lacks b h (p ∷ ps) (s, ss) = (IsSafe-Lacks b h p s, All-Lacks b h ps ss)

-- A byte of the option's text: one of a principal, or the comma between two.
abbrev pub IsOptionByte : ℕ → Type 0
IsOptionByte c = (c ≢ b'"') × (c ≢ b'\\') × (33 ≤ c) × (c ≤ 126)

option_bytes : (p : Str) → All IsSafe p → All IsOptionByte p
option_bytes [] s = tt
option_bytes (c ∷ p) (s, ss) = ((s.0, s.1, s.3, s.4), option_bytes p ss)

join_bytes :
    (p : Str) (ps : List Str)
    → All (All IsSafe) (p ∷ ps)
    → All IsOptionByte (join (p ∷ ps) (str ","))
unfolding join
join_bytes p [] (s, _) = option_bytes p s
join_bytes p (q ∷ ps) (s, ss) =
    All-append IsOptionByte p _ (option_bytes p s) (omega arith, join_bytes q ps ss)

-- The text of the principals option cannot end its quotes or its field, and sshd reads from it
-- the principals of the certificate and no others.
pub record IsFaithful (ps : List Str) (text : Str) : Type 0 where
  pub bytes : All IsOptionByte text
  pub reads_back : ((ps ≡ []) × (text ≡ [])) ⊎ (split text b',' ≡ ps)

-- Principals that are let through are joined to a text that cannot end the quotes of its option,
-- and that is split at its commas into the same principals.
pub join-IsFaithful :
    (ps : List Str) → error_on_unsafe_principal ps ≡ none → IsFaithful ps (join ps (str ","))
unfolding join
join-IsFaithful [] h = record { bytes = tt; reads_back = inl (refl, refl) }
join-IsFaithful (p ∷ ps) h = record {
  bytes = join_bytes p ps (IsSafe-principals (p ∷ ps) h);
  reads_back =
      inr (
        split-join p ps b',' (All-Lacks b',' (λ c s. s.2) (p ∷ ps) (IsSafe-principals (p ∷ ps) h)));
}
