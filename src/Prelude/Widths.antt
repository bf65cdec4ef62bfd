-- ===== src/Prelude/Widths.antt =====
-- Numbers of a given width in binary digits: what `|` and `&` keep inside it.
use Prim.Native.Nat.{ℕ, suc, ◌%◌, ◌^◌, ◌<◌, bit_and, bit_or}
use mathlib.Core.Path.{◌≡◌}
use native.Mathlib.Nat.{pow-suc, pow-le-pow_right}
use native.Mathlib.Omega.{arith}
use ceres_vm.Prelude.Bits.{
  bit-mod-pow, bit-bit_or, bit-bit_and, bit-pow, bit-high, bit_ext, mod-pow-lt, pow_pos,
}

pub pow-lt : (n w : ℕ) → n < w → 2 ^ n < 2 ^ w
pow-lt n w h =
    omega
      (arith, pow-le-pow_right {n = 2} (omega arith) {i = suc n} {j = w} h, pow-suc 2 n, pow_pos n)

-- One more digit keeps a word in its width.
pub bit_or-lt : (x w s : ℕ) → x < 2 ^ w → s < w → bit_or x (2 ^ s) < 2 ^ w
bit_or-lt x w s h p = rw (← whole) (mod-pow-lt (bit_or x (2 ^ s)) w)
  where
    whole : bit_or x (2 ^ s) % 2 ^ w ≡ bit_or x (2 ^ s)
    whole = bit_ext _ _ λ k. ground (
      arith,
      bit-mod-pow (bit_or x (2 ^ s)) w k,
      bit-bit_or x (2 ^ s) k,
      bit-pow s k,
      bit-high x w k h,
    )

-- `&` keeps the digits of the first number at most.
pub bit_and-lt : (x y w : ℕ) → x < 2 ^ w → bit_and x y < 2 ^ w
bit_and-lt x y w h = rw (← whole) (mod-pow-lt (bit_and x y) w)
  where
    whole : bit_and x y % 2 ^ w ≡ bit_and x y
    whole =
        bit_ext _ _
          λ k. ground (arith, bit-mod-pow (bit_and x y) w k, bit-bit_and x y k, bit-high x w k h)
