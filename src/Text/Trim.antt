-- ===== src/Text/Trim.antt =====
-- Prefixes, and texts with no white space at either end.
use mathlib.Core.List.{reverse, reverse-append, reverse-reverse}
use opkssh.Base.{
  ℕ, true, [], ◌∷◌, ◌++◌, ◌≡◌, ◌≢◌, refl, ap, ◌∙◌, arith, Str, nat_eq, length, drop, All-append,
}
use opkssh.Text.Split.{Lacks}
use opkssh.Text.{drop_byte, trim_byte, has_prefix, has_suffix}

pub has_prefix-append : (p s : Str) → has_prefix (p ++ s) p ≡ true
unfolding has_prefix
has_prefix-append [] s = refl
has_prefix-append (c ∷ p) s = ground (arith, has_prefix-append p s)

-- A string with a prefix is the prefix and what `s[len(prefix):]` leaves.
pub append-drop_of_has_prefix : (p s : Str) → has_prefix s p ≡ true → p ++ drop (length p) s ≡ s
unfolding has_prefix
append-drop_of_has_prefix [] s h = refl
append-drop_of_has_prefix (c ∷ p) [] h = cc
append-drop_of_has_prefix (c ∷ p) (d ∷ s) h = ground (arith, append-drop_of_has_prefix p s)

pub has_prefix-append_left : (s t p : Str) → has_prefix s p ≡ true → has_prefix (s ++ t) p ≡ true
unfolding has_prefix
has_prefix-append_left s t [] h = refl
has_prefix-append_left [] t (c ∷ p) h = cc
has_prefix-append_left (d ∷ s) t (c ∷ p) h = ground (arith, has_prefix-append_left s t p)

pub drop-append : (p s : Str) → drop (length p) (p ++ s) ≡ s
drop-append [] s = refl
drop-append (c ∷ p) s = drop-append p s

drop_byte-Lacks : (s : Str) (b : ℕ) → Lacks b s → drop_byte b s ≡ s
drop_byte-Lacks [] b h = refl
drop_byte-Lacks (c ∷ s) b (n, h) = ground arith

Lacks-append : (s t : Str) (b : ℕ) → Lacks b s → Lacks b t → Lacks b (s ++ t)
Lacks-append s t b = All-append (λ c. c ≢ b) s t

Lacks-reverse : (s : Str) (b : ℕ) → Lacks b s → Lacks b (reverse s)
Lacks-reverse [] b h = tt
Lacks-reverse (c ∷ s) b (n, h) =
    rw (reverse-append (c ∷ []) s)
      (Lacks-append (reverse s) (c ∷ []) b (Lacks-reverse s b h) (n, tt))

-- A string without the byte is left as it is.
pub trim_byte-Lacks : (s : Str) (b : ℕ) → Lacks b s → trim_byte s b ≡ s
unfolding trim_byte
trim_byte-Lacks s b h =
    rw (drop_byte-Lacks s b h, drop_byte-Lacks (reverse s) b (Lacks-reverse s b h))
      (reverse-reverse s)

drop_byte_self : (s : Str) (b : ℕ) → Lacks b s → drop_byte b (b ∷ s) ≡ s
drop_byte_self s b h = ground (arith, drop_byte-Lacks s b h)

drop_byte_quoted :
    (c : ℕ) (s : Str) (b : ℕ) → c ≢ b → drop_byte b (b ∷ ((c ∷ s) ++ b ∷ [])) ≡ (c ∷ s) ++ b ∷ []
drop_byte_quoted c s b n = ground arith

-- The quotes around a string that has none inside are taken off.
pub trim_byte_quoted : (s : Str) (b : ℕ) → Lacks b s → trim_byte (b ∷ (s ++ b ∷ [])) b ≡ s
unfolding trim_byte
trim_byte_quoted [] b h = ground arith
trim_byte_quoted (c ∷ s) b (n, h) =
    ap (λ t. reverse (drop_byte b (reverse t))) (drop_byte_quoted c s b n)
    ∙ ap (λ t. reverse (drop_byte b t)) (reverse-append (c ∷ s) (b ∷ []))
    ∙ ap reverse (drop_byte_self (reverse (c ∷ s)) b (Lacks-reverse (c ∷ s) b (n, h)))
    ∙ reverse-reverse (c ∷ s)

pub has_suffix-append : (s p : Str) → has_suffix (s ++ p) p ≡ true
unfolding has_suffix
has_suffix-append s p = rw (reverse-append s p) (has_prefix-append (reverse p) (reverse s))
