-- ===== src/Prelude/Int.antt =====
-- Go's `int` as an integer, and its conversion to `int32`, which keeps the low 32 bits.
use Prim.Native.Nat.{ℕ, ◌-◌, ◌%◌, ◌^◌, ◌<◌}
use mathlib.Core.Path.{◌≡◌}
use mathlib.Core.Bool.{Bool, false}
use native.Mathlib.Omega.{arith}
use agents_kong.Prelude.Tests.{ltb, nat_eq, if◌then◌else◌}

-- `negsuc n` is -(n + 1).
pub data ℤ : Type 0 where
  pos : ℕ → ℤ
  negsuc : ℕ → ℤ

abbrev pub is_zero : ℤ → Bool
is_zero (pos n) = nat_eq n 0
is_zero (negsuc n) = false

-- the bit pattern of an integer in 32 bits, in two's complement
word32 : ℤ → ℕ
word32 (pos n) = n % 2 ^ 32
word32 (negsuc n) = 2 ^ 32 - 1 - n % 2 ^ 32

-- the integer of a bit pattern
signed32 : ℕ → ℤ
signed32 w = if ltb w (2 ^ 31) then pos w else negsuc (2 ^ 32 - 1 - w)

unfoldable pub int32 : ℤ → ℤ
unfolding word32 signed32
int32 x = signed32 (word32 x)

-- A port number passes through the conversion unchanged.
pub int32_port : (n : ℕ) → n < 65536 → int32 (pos n) ≡ pos n
unfolding int32
int32_port n h = ground arith
