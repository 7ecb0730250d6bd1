-- ===== src/Text/Split.antt =====
-- `split` and lines.
use opkssh.Base.{ℕ, List, [], ◌∷◌, ◌++◌, ◌≡◌, ◌≢◌, refl, ap, ◌∙◌, arith, Str, nat_eq, All}
use opkssh.Text.{split, join}

-- A byte does not occur in a string.
abbrev pub Lacks : ℕ → Str → Type 0
Lacks b = All (λ c. c ≢ b)

pub split-Lacks : (s : Str) (sep : ℕ) → Lacks sep s → split s sep ≡ s ∷ []
unfolding split
split-Lacks [] sep h = refl
split-Lacks (c ∷ s) sep (n, h) = ground (arith, split-Lacks s sep h)

-- The part in front of the first separator comes first.
pub split_at_sep :
    (s rest : Str) (sep : ℕ) → Lacks sep s → split (s ++ sep ∷ rest) sep ≡ s ∷ split rest sep
unfolding split
split_at_sep [] rest sep h = ground arith
split_at_sep (c ∷ s) rest sep (n, h) = ground (arith, split_at_sep s rest sep h)

-- Splitting a join gives the parts back, if there is a part and none holds the separator.
pub split-join :
    (p : Str) (ps : List Str) (sep : ℕ)
    → All (Lacks sep) (p ∷ ps)
    → split (join (p ∷ ps) (sep ∷ [])) sep ≡ p ∷ ps
unfolding join
split-join p [] sep (h, _) = split-Lacks p sep h
split-join p (q ∷ ps) sep (h, hs) =
    split_at_sep p (join (q ∷ ps) (sep ∷ [])) sep h ∙ ap (◌∷◌ p) (split-join q ps sep hs)
