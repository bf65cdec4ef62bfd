-- ===== src/Prelude/Words.antt =====
-- Machine words as native numbers: the casts of the source to its fixed widths, complement, the top
-- digit, and the number that a 32-bit pattern stands for when it is read as signed.
use Prim.Native.Nat.{ℕ, ◌+◌, ◌-◌, ◌%◌, ◌^◌, ◌<◌, bit_and}
use mathlib.Core.Path.{◌≡◌}
use mathlib.Core.Bool.{Bool, not}
use native.Mathlib.Omega.{arith}
use ceres_vm.Prelude.Tests.{leb, ◌==◌}
use ceres_vm.Prelude.Bits.{bit, bit-lt, bit-eq, bit_and-pow}

abbrev pub u8 : ℕ → ℕ
u8 n = n % 2 ^ 8

abbrev pub u16 : ℕ → ℕ
u16 n = n % 2 ^ 16

abbrev pub u32 : ℕ → ℕ
u32 n = n % 2 ^ 32

abbrev pub u64 : ℕ → ℕ
u64 n = n % 2 ^ 64

-- `~x` on 32 bits.
abbrev pub not32 : ℕ → ℕ
not32 x = 2 ^ 32 - 1 - x

-- `a + b` and `a - b` on 32 bits; `-` on ℕ stops at 0, so the modulus is added first.
abbrev pub add32 : ℕ → ℕ → ℕ
add32 a b = u32 (a + b)

abbrev pub sub32 : ℕ → ℕ → ℕ
sub32 a b = u32 (a + 2 ^ 32 - b)

-- `(x & 0x80000000) != 0`
unfoldable pub top_bit : ℕ → Bool
top_bit x = not (bit_and x 0x80000000 == 0)

-- The top digit is a comparison with 2 ^ 31.
pub top_bit-eq : (x : ℕ) → x < 2 ^ 32 → top_bit x ≡ leb (2 ^ 31) x
unfolding top_bit
top_bit-eq x h = ground (arith, bit_and-pow x 31, bit-eq x 31)

pub top_bit-bit : (x : ℕ) → top_bit x ≡ (bit x 31 == 1)
unfolding top_bit
top_bit-bit x = ground (arith, bit_and-pow x 31, bit-lt x 31)
