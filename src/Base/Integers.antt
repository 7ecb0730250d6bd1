-- ===== src/Base/Integers.antt =====
-- Signed integers over the native numbers, and Go's 64 bit arithmetic on them.
use Prim.Native.Nat.{ℕ, ◌-◌, ◌*◌, ◌%◌}
use mathlib.Core.Bool.{Bool, true, false}
use opkssh.Base.Tests.{ltb, if◌then◌else◌}

-- `negsuc n` is -(n + 1).
pub data ℤ : Type 0 where
  pos : ℕ → ℤ
  negsuc : ℕ → ℤ

-- `i < n` and `n < i` for a constant n that is not negative.
abbrev pub ltb_constant : ℤ → ℕ → Bool
ltb_constant (pos m) n = ltb m n
ltb_constant (negsuc m) n = true

abbrev pub gtb_constant : ℤ → ℕ → Bool
gtb_constant (pos m) n = ltb n m
gtb_constant (negsuc m) n = false

-- The bits of a 64 bit word, read as a signed integer.
abbrev pub to_int64 : ℕ → ℤ
to_int64 w = if ltb w 0x8000000000000000 then pos w else negsuc (0xFFFFFFFFFFFFFFFF - w)

-- `i * n` on int64, for operands that are not negative.
abbrev pub mul_int64 : ℕ → ℕ → ℤ
mul_int64 m n = to_int64 (m * n % 0x10000000000000000)
