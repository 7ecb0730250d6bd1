-- ===== src/Base/Equality.antt =====
-- Go's `==` on numbers and strings, as one operator with an instance for each type.
-- A Go string is the list of its bytes.
use Prim.Native.Nat.{ℕ}
use Prim.Native.Char.{code}
use Prim.Native.String.{String}
use mathlib.Core.Path.{◌≡◌, refl}
use mathlib.Core.Logic.{◌↔◌}
use mathlib.Core.Bool.{Bool, true, false, ◌&&◌, ◌||◌}
use mathlib.Core.List.{List, [], ◌∷◌, ◌++◌}
use native.Mathlib.Omega.{arith}
use opkssh.Base.Tests.{nat_beq}

abbrev pub Str : Type 0
Str = List ℕ

-- The bytes of an ASCII literal.
abbrev pub str : String → Str
str String.[] = []
str (String.◌∷◌ c s) = code c ∷ str s

-- A type whose values Go compares with `==`.
pub record Comparable {ℓ} (A : Type ℓ) : Type ℓ where
  pub equals : A → A → Bool
  pub equals_iff : (x y : A) → (equals x y ≡ true) ↔ (x ≡ y)

unfoldable pub str_beq : Str → Str → Bool
str_beq [] [] = true
str_beq (x ∷ xs) (y ∷ ys) = nat_beq x y && str_beq xs ys
str_beq _ _ = false

pub nat_beq_iff : (m n : ℕ) → (nat_beq m n ≡ true) ↔ (m ≡ n)
nat_beq_iff m n = ground arith

pub str_beq_iff : (s t : Str) → (str_beq s t ≡ true) ↔ (s ≡ t)
unfolding str_beq
str_beq_iff (x ∷ s) (y ∷ t) = ground (arith, str_beq_iff s t)
str_beq_iff _ _ = ground arith

instance abbrev pub str_eq : Comparable Str
str_eq = record { equals = str_beq; equals_iff = str_beq_iff }

instance abbrev pub nat_eq : Comparable ℕ
nat_eq = record { equals = nat_beq; equals_iff = nat_beq_iff }

infix 50 ◌==◌
abbrev pub ◌==◌ {ℓ} : {A : Type ℓ} ⦃c : Comparable A⦄ → A → A → Bool
◌==◌ ⦃c⦄ = c.equals

pub str_beq_refl : (s : Str) → str_beq s s ≡ true
str_beq_refl s = (str_beq_iff s s).1 refl

-- `slices.Contains`.
module _ {ℓ} {A : Type ℓ} ⦃c : Comparable A⦄ where
  abbrev pub contains : List A → A → Bool
  contains [] a = false
  contains (x ∷ xs) a = x == a || contains xs a

  pub contains-append :
      (xs ys : List A) (a : A) → contains (xs ++ ys) a ≡ (contains xs a || contains ys a)
  contains-append [] ys a = refl
  contains-append (x ∷ xs) ys a = ground (arith, contains-append xs ys a)

  pub contains-concat_self : (xs : List A) (a : A) → contains (xs ++ a ∷ []) a ≡ true
  contains-concat_self [] a = ground (arith, c.equals_iff a a)
  contains-concat_self (x ∷ xs) a = ground (arith, contains-concat_self xs a)
