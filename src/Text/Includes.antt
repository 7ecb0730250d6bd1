-- ===== src/Text/Includes.antt =====
-- Parts of strings: `Contains`, `TrimSpace` and the lines of a text.
use mathlib.Core.List.{reverse, reverse-append, reverse-reverse}
use opkssh.Base.{
  ℕ, true, false, List, [], ◌∷◌, ◌++◌, ◌≡◌, ◌≢◌, ◌⊎◌, inl, inr, refl, sym, ap, ◌∙◌, arith, Str,
  ◌==◌, nat_eq, str_eq, str_beq, All, Bool-cases,
}
use opkssh.Text.{has_prefix, includes, is_space, trim_left, trim_space, split, join}
use opkssh.Text.Trim.{has_prefix-append}

pub includes-append_left : (a s p : Str) → includes s p ≡ true → includes (a ++ s) p ≡ true
unfolding includes
includes-append_left [] s p h = h
includes-append_left (c ∷ a) s p h = ground (arith, includes-append_left a s p h)

pub includes_of_has_prefix : (s p : Str) → has_prefix s p ≡ true → includes s p ≡ true
unfolding includes has_prefix str_beq
includes_of_has_prefix [] [] h = refl
includes_of_has_prefix [] (c ∷ p) h = cc
includes_of_has_prefix (d ∷ s) p h = ground arith

-- A text includes each of its parts.
pub includes-part : (a p b : Str) → includes (a ++ (p ++ b)) p ≡ true
includes-part a p b =
    includes-append_left a (p ++ b) p (includes_of_has_prefix (p ++ b) p (has_prefix-append p b))

trim_left-part : (s : Str) → (a : Str) × (s ≡ a ++ trim_left s)
unfolding trim_left
trim_left-part [] = ([], refl)
trim_left-part (c ∷ s) = let (a, e) = trim_left-part s in go a e (Bool-cases (is_space c))
  where
    go :
        (a : Str)
        → s ≡ a ++ trim_left s
        → (is_space c ≡ true) ⊎ (is_space c ≡ false)
        → (b : Str) × (c ∷ s ≡ b ++ trim_left (c ∷ s))
    go a e (inl h) = (c ∷ a, rw h (ap (◌∷◌ c) e))
    go a e (inr h) = ([], rw h refl)

-- A trimmed text is a part of the text.
pub trim_space-part : (s : Str) → (a : Str) × (b : Str) × (s ≡ a ++ (trim_space s ++ b))
unfolding trim_space
trim_space-part s =
    let u = trim_left s in
    let (a, e) = trim_left-part s in
    let (b, f) = trim_left-part (reverse u) in
    (
      a,
      reverse b,
      e
          ∙ ap (◌++◌ a)
              (sym (reverse-reverse u) ∙ ap reverse f ∙ reverse-append b (trim_left (reverse u))),
    )

-- The parts of a text are its first part and others, each of them a part of the text.
record Parts (s : Str) (sep : ℕ) : Type 0 where
  first : Str
  others : List Str
  are : split s sep ≡ first ∷ others
  joined : join (first ∷ others) (sep ∷ []) ≡ s
  prefix_of_first : (p : Str) → has_prefix first p ≡ true → has_prefix s p ≡ true
  part_of : (p : Str) → includes s p ≡ false → All (λ l. includes l p ≡ false) (first ∷ others)

join-cons :
    (c sep : ℕ) (l : Str) (ls : List Str)
    → join ((c ∷ l) ∷ ls) (sep ∷ []) ≡ c ∷ join (l ∷ ls) (sep ∷ [])
unfolding join
join-cons c sep l [] = refl
join-cons c sep l (m ∷ ls) = refl

not_included :
    (c : ℕ) (s p : Str)
    → includes (c ∷ s) p ≡ false
    → (has_prefix (c ∷ s) p ≡ false) × (includes s p ≡ false)
unfolding includes
not_included c s p h = (ground arith, ground arith)

included_cons :
    (c : ℕ) (s p : Str)
    → has_prefix (c ∷ s) p ≡ false
    → includes s p ≡ false
    → includes (c ∷ s) p ≡ false
unfolding includes
included_cons c s p h k = ground arith

prefix_of_empty : (s p : Str) → has_prefix [] p ≡ true → has_prefix s p ≡ true
unfolding has_prefix
prefix_of_empty s [] h = refl
prefix_of_empty s (c ∷ p) h = cc

empty_part : (s p : Str) → includes s p ≡ false → includes [] p ≡ false
unfolding includes
empty_part [] p h = h
empty_part (c ∷ s) p h = empty_part s p (ground arith)

separated : (c : ℕ) (s : Str) (sep : ℕ) → c ≡ sep → Parts s sep → Parts (c ∷ s) sep
unfolding split join
separated c s sep e i = record {
  first = [];
  others = i.first ∷ i.others;
  are = ground (arith, i.are);
  joined = ap (◌∷◌ sep) i.joined ∙ ap (λ d. d ∷ s) (sym e);
  prefix_of_first = λ p h. prefix_of_empty (c ∷ s) p h;
  part_of = λ p h. (empty_part (c ∷ s) p h, i.part_of p (not_included c s p h).1);
}

prefix_cons :
    (c : ℕ) (s l : Str)
    → ((p : Str) → has_prefix l p ≡ true → has_prefix s p ≡ true)
    → (p : Str) → has_prefix (c ∷ l) p ≡ true
    → has_prefix (c ∷ s) p ≡ true
unfolding has_prefix
prefix_cons c s l f [] h = refl
prefix_cons c s l f (d ∷ p) h = ground (arith, f p)

part_cons :
    (c : ℕ) (s p l : Str) (ls : List Str)
    → ((p : Str) → has_prefix l p ≡ true → has_prefix s p ≡ true)
    → All (λ l. includes l p ≡ false) (l ∷ ls)
    → has_prefix (c ∷ s) p ≡ false
    → All (λ l. includes l p ≡ false) ((c ∷ l) ∷ ls)
part_cons c s p l ls f (h, hs) n =
    (included_cons c l p (ground (arith, prefix_cons c s l f p)) h, hs)

inside : (c : ℕ) (s : Str) (sep : ℕ) → c ≢ sep → Parts s sep → Parts (c ∷ s) sep
unfolding split
inside c s sep n i = record {
  first = c ∷ i.first;
  others = i.others;
  are = ground (arith, i.are);
  joined = join-cons c sep i.first i.others ∙ ap (◌∷◌ c) i.joined;
  prefix_of_first = prefix_cons c s i.first i.prefix_of_first;
  part_of = λ p h.
      part_cons c s p i.first i.others (i.prefix_of_first) (i.part_of p (not_included c s p h).1)
        (not_included c s p h).0;
}

parts : (s : Str) (sep : ℕ) → Parts s sep
unfolding split join
parts [] sep = record {
  first = [];
  others = [];
  are = refl;
  joined = refl;
  prefix_of_first = λ p h. h;
  part_of = λ p h. (h, tt);
}
parts (c ∷ s) sep = elim (Bool-cases (c == sep)) [
  | inl e ↦ separated c s sep (ground arith) (parts s sep)
  | inr e ↦ inside c s sep (ground arith) (parts s sep)
]

-- Joining the parts of a split text gives the text back.
pub join-split : (s : Str) (sep : ℕ) → join (split s sep) (sep ∷ []) ≡ s
join-split s sep = let i = parts s sep in rw i.are i.joined

-- What a text does not include, its parts do not.
pub split-excludes :
    (s p : Str) (sep : ℕ) → includes s p ≡ false → All (λ l. includes l p ≡ false) (split s sep)
split-excludes s p sep h = let i = parts s sep in rw i.are (i.part_of p h)
