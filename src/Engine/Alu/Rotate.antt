-- ===== src/Engine/Alu/Rotate.antt =====
-- Rotations: a rotation left by `n` and then right by `n` gives the word back.
use ceres_vm.Prelude.{ℕ, ◌+◌, ◌-◌, ◌*◌, ◌/◌, ◌%◌, ◌^◌, ◌<◌, ◌≡◌, ap, arith}
use ceres_vm.Prelude.Tests.{ltb, leb, if◌then◌else◌}
use ceres_vm.Prelude.Bits.{
  bit, bit-lt, bit-bit_or, bit-mod-pow, bit-mul-pow, bit-div-pow, bit-high, bit_ext,
}
use ceres_vm.Prelude.Words.{u32}
use ceres_vm.Engine.Alu.{rotate_left}

-- A digit of a rotated word is a digit of the word.
rotate_left-digit :
    (x n k : ℕ)
    → x < 2 ^ 32
    → bit (rotate_left x n) k ≡ (
        if ltb k 32
        then bit x (if leb (n % 2 ^ 5) k then k - n % 2 ^ 5 else 32 - n % 2 ^ 5 + k)
        else 0)
unfolding rotate_left
rotate_left-digit x n k h = ground (
  arith,
  bit-bit_or (u32 (x * 2 ^ (n % 2 ^ 5))) (x / 2 ^ (32 - n % 2 ^ 5)) k,
  bit-mod-pow (x * 2 ^ (n % 2 ^ 5)) 32 k,
  bit-mul-pow x (n % 2 ^ 5) k,
  bit-div-pow x (32 - n % 2 ^ 5) k,
  bit-high x 32 k h,
  bit-high x 32 (32 - n % 2 ^ 5 + k) h,
  bit-lt x (k - n % 2 ^ 5),
  bit-lt x (32 - n % 2 ^ 5 + k),
)

rotate_left-lt : (x n : ℕ) → x < 2 ^ 32 → rotate_left x n < 2 ^ 32
rotate_left-lt x n h = omega (arith, whole)
  where
    whole : rotate_left x n ≡ rotate_left x n % 2 ^ 32
    whole =
        bit_ext _ _
          λ k. ground (arith, rotate_left-digit x n k h, bit-mod-pow (rotate_left x n) 32 k)

-- The place that digit `k` comes from.
abbrev pub source_digit : ℕ → ℕ → ℕ
source_digit r k = if leb r k then k - r else 32 - r + k

source_digit_back :
    (r k : ℕ) → r < 32 → k < 32 → source_digit r (source_digit ((32 - r) % 2 ^ 5) k) ≡ k
source_digit_back r k hr hk = ground arith

source_digit-lt : (r k : ℕ) → r < 32 → k < 32 → source_digit r k < 32
source_digit-lt r k hr hk = ground arith

-- `ror` after `rol` by the same amount, whatever it is, gives the word back; 32 minus the low five bits
-- of the amount is what the ROR instructions rotate left by.
pub rotate_back : (x n : ℕ) → x < 2 ^ 32 → rotate_left (rotate_left x n) (32 - n % 2 ^ 5) ≡ x
rotate_back x n h =
    let r = n % 2 ^ 5 in
    bit_ext _ _ λ k. ground (
      arith,
      rotate_left-digit (rotate_left x n) (32 - r) k (rotate_left-lt x n h),
      rotate_left-digit x n (source_digit ((32 - r) % 2 ^ 5) k) h,
      source_digit-lt ((32 - r) % 2 ^ 5) k,
      bit-high x 32 k h,
      ap_digit k,
    )
  where
    ap_digit :
        (k : ℕ)
        → k < 32
        → bit x (source_digit (n % 2 ^ 5) (source_digit ((32 - n % 2 ^ 5) % 2 ^ 5) k)) ≡ bit x k
    ap_digit k hk = ap (bit x) (source_digit_back (n % 2 ^ 5) k (omega arith) hk)
