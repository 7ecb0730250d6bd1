-- ===== src/Text.antt =====
-- The functions of Go's `strings` package that the code calls, on strings as lists of bytes.
-- White space is ASCII here: `TrimSpace` and `Fields` also know the white space of Unicode.
pub mod Split
pub mod Trim
pub mod Includes
use mathlib.Core.List.{reverse}
use opkssh.Base.{
  ℕ, Bool, true, false, ◌&&◌, ◌||◌, List, [], ◌∷◌, ◌++◌, Str, ◌==◌, nat_eq, str_eq, if◌then◌else◌,
  drop, length,
}

-- `strings.HasPrefix(s, prefix)`
unfoldable pub has_prefix : Str → Str → Bool
has_prefix s [] = true
has_prefix [] (p ∷ ps) = false
has_prefix (c ∷ s) (p ∷ ps) = c == p && has_prefix s ps

-- `strings.HasSuffix(s, suffix)`
unfoldable pub has_suffix : Str → Str → Bool
unfolding has_prefix
has_suffix s suffix = has_prefix (reverse s) (reverse suffix)

abbrev pub prepend : ℕ → List Str → List Str
prepend c [] = (c ∷ []) ∷ []
prepend c (s ∷ ss) = (c ∷ s) ∷ ss

-- `strings.Split(s, sep)` for a separator of one byte
unfoldable pub split : Str → ℕ → List Str
split [] sep = [] ∷ []
split (c ∷ s) sep = let rest = split s sep in if c == sep then [] ∷ rest else prepend c rest

-- `strings.Join(parts, sep)`
unfoldable pub join : List Str → Str → Str
join [] sep = []
join (s ∷ []) sep = s
join (s ∷ t ∷ ss) sep = s ++ (sep ++ join (t ∷ ss) sep)

abbrev pub is_space : ℕ → Bool
is_space c = c == b' ' || c == b'\t' || c == b'\n' || c == 11 || c == 12 || c == b'\r'

unfoldable pub trim_left : Str → Str
trim_left [] = []
trim_left (c ∷ s) = let rest = trim_left s in if is_space c then rest else c ∷ s

-- `strings.TrimSpace(s)`
unfoldable pub trim_space : Str → Str
unfolding trim_left
trim_space s = reverse (trim_left (reverse (trim_left s)))

abbrev pub drop_byte : ℕ → Str → Str
drop_byte b [] = []
drop_byte b (c ∷ s) = let rest = drop_byte b s in if c == b then rest else c ∷ s

-- `strings.Trim(s, cutset)` for a cutset of one byte
unfoldable pub trim_byte : Str → ℕ → Str
trim_byte s b = reverse (drop_byte b (reverse (drop_byte b s)))

-- `strings.Replace(s, old, new, 1)`
unfoldable pub replace_first : Str → Str → Str → Str
unfolding has_prefix
replace_first [] old new = if old == [] then new else []
replace_first (c ∷ s) old new =
    let rest = replace_first s old new in
    if has_prefix (c ∷ s) old then new ++ drop (length old) (c ∷ s) else c ∷ rest

-- `s[0:len(s)-1]`
unfoldable pub drop_last : Str → Str
drop_last [] = []
drop_last (c ∷ []) = []
drop_last (c ∷ d ∷ s) = c ∷ drop_last (d ∷ s)

-- `strings.Contains(s, substr)`
unfoldable pub includes : Str → Str → Bool
unfolding has_prefix
includes [] sub = sub == []
includes (c ∷ s) sub = let rest = includes s sub in has_prefix (c ∷ s) sub || rest

-- `strings.CutPrefix(s, prefix)`, less its flag
unfoldable pub cut_prefix : Str → Str → Str
cut_prefix s prefix = if has_prefix s prefix then drop (length prefix) s else s

-- `strings.TrimSuffix(s, suffix)`
unfoldable pub trim_suffix : Str → Str → Str
unfolding has_suffix
trim_suffix s suffix = if has_suffix s suffix then reverse (drop (length suffix) (reverse s)) else s
