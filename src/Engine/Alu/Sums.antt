-- ===== src/Engine/Alu/Sums.antt =====
-- Addition and subtraction: the result is the sum or difference modulo 2 ^ 32, Carry is the unsigned
-- carry or borrow, Overflow says that the signed result does not fit.
use ceres_vm.Prelude.{
  ℕ, ◌+◌, ◌-◌, ◌*◌, ◌%◌, ◌^◌, ◌<◌, bit_and, bit_xor, ◌≡◌, refl, ◌∙◌, Bool, not, ◌&&◌, arith,
}
use ceres_vm.Prelude.Tests.{ltb, leb, ◌==◌, if◌then◌else◌}
use ceres_vm.Prelude.Bits.{
  bit-bit_and, bit-bit_xor, bit-eq, bit_complement, bit_ext, bit-mod-pow, bit-high, mod-pow-lt,
}
use ceres_vm.Prelude.Words.{u32, sub32, not32, top_bit, top_bit-bit, top_bit-eq}
use ceres_vm.Engine.State.{
  Machine, flag_on, get_reg, zero_flag, sign_flag, carry_flag, overflow_flag,
}
use ceres_vm.Engine.Alu.{finish, execute_add, execute_sub}
use ceres_vm.Engine.Alu.Flags.{result_flags_lem}

-- The number that a pattern stands for as an `i32`, plus 2 ^ 31.
abbrev pub biased : ℕ → ℕ
biased x = if ltb x (2 ^ 31) then x + 2 ^ 31 else x - 2 ^ 31

-- Whether the sum and the difference of the signed numbers fit an `i32`.
abbrev pub signed_sum_fits : ℕ → ℕ → Bool
signed_sum_fits a b = leb (2 ^ 31) (biased a + biased b) && ltb (biased a + biased b) (3 * 2 ^ 31)

abbrev pub signed_difference_fits : ℕ → ℕ → Bool
signed_difference_fits a b =
    leb (biased b) (biased a + 2 ^ 31) && ltb (biased a) (biased b + 2 ^ 31)

xor_below : (a b : ℕ) → a < 2 ^ 32 → b < 2 ^ 32 → bit_xor a b < 2 ^ 32
xor_below a b ha hb = omega (arith, whole, mod-pow-lt (bit_xor a b) 32)
  where
    whole : bit_xor a b % 2 ^ 32 ≡ bit_xor a b
    whole = bit_ext _ _ λ k. ground (
      arith,
      bit-mod-pow (bit_xor a b) 32 k,
      bit-bit_xor a b k,
      bit-high a 32 k ha,
      bit-high b 32 k hb,
    )

add_overflow :
    (a b : ℕ)
    → a < 2 ^ 32
    → b < 2 ^ 32
    → top_bit (bit_and (not32 (bit_xor a b)) (bit_xor a (u32 (a + b)))) ≡ not (signed_sum_fits a b)
add_overflow a b ha hb = ground (
  arith,
  top_bit-bit (bit_and (not32 (bit_xor a b)) (bit_xor a (u32 (a + b)))),
  bit-bit_and (not32 (bit_xor a b)) (bit_xor a (u32 (a + b))) 31,
  bit_complement 32 (bit_xor a b) 31 (xor_below a b ha hb),
  bit-bit_xor a b 31,
  bit-bit_xor a (u32 (a + b)) 31,
  bit-eq a 31,
  bit-eq b 31,
  bit-eq (u32 (a + b)) 31,
)

pub sub_overflow :
    (a b : ℕ)
    → a < 2 ^ 32
    → b < 2 ^ 32
    → top_bit (bit_and (bit_xor a b) (bit_xor a (sub32 a b))) ≡ not (signed_difference_fits a b)
sub_overflow a b ha hb = ground (
  arith,
  top_bit-bit (bit_and (bit_xor a b) (bit_xor a (sub32 a b))),
  bit-bit_and (bit_xor a b) (bit_xor a (sub32 a b)) 31,
  bit-bit_xor a b 31,
  bit-bit_xor a (sub32 a b) 31,
  bit-eq a 31,
  bit-eq b 31,
  bit-eq (sub32 a b) 31,
)

-- What an addition or a subtraction leaves in the register and in the four flags.
pub record HasResult {W : Type 0} (dest result : ℕ) (carries overflows : Bool) (m : Machine W)
    : Type 0 where
  pub value : get_reg dest m ≡ result
  pub zero : flag_on zero_flag m ≡ (result == 0)
  pub sign : flag_on sign_flag m ≡ leb (2 ^ 31) result
  pub carry : flag_on carry_flag m ≡ carries
  pub overflow : flag_on overflow_flag m ≡ overflows

pub finish-HasResult :
    {W : Type 0} (z s c o : Bool) (dest result : ℕ) (m : Machine W)
    → z ≡ (result == 0)
    → s ≡ leb (2 ^ 31) result
    → HasResult dest result c o (finish z s c o dest result m)
unfolding finish
finish-HasResult z s c o dest result m hz hs = record {
  value = ground arith;
  zero = result_flags_lem z s c o m.flags zero_flag (omega arith) ∙ hz;
  sign = result_flags_lem z s c o m.flags sign_flag (omega arith) ∙ hs;
  carry = result_flags_lem z s c o m.flags carry_flag (omega arith);
  overflow = result_flags_lem z s c o m.flags overflow_flag (omega arith);
}

-- ADD and its like, on words: the destination holds the sum modulo 2 ^ 32, Zero and Sign are the
-- result's, Carry is set exactly if the unsigned sum does not fit 32 bits and Overflow exactly if the
-- signed sum does not.
pub execute_add-HasResult :
    {W : Type 0} (dest a b : ℕ) (m : Machine W)
    → a < 2 ^ 32
    → b < 2 ^ 32
    → HasResult dest
        ((a + b) % 2 ^ 32)
        (leb (2 ^ 32) (a + b))
        (not (signed_sum_fits a b))
        (execute_add dest a b m)
unfolding execute_add
execute_add-HasResult dest a b m ha hb =
    let carries : ltb 0xFFFFFFFF (a + b) ≡ leb (2 ^ 32) (a + b) = ground arith in
    rw (execute_add, add_overflow a b ha hb, carries)
      (finish-HasResult _ _ _ _ dest ((a + b) % 2 ^ 32) m refl
        (top_bit-eq (u32 (a + b)) (omega arith)))

-- SUB and its like, on words: the difference modulo 2 ^ 32, Carry set exactly on an unsigned borrow and
-- Overflow exactly if the signed difference does not fit 32 bits.
pub execute_sub-HasResult :
    {W : Type 0} (dest a b : ℕ) (m : Machine W)
    → a < 2 ^ 32
    → b < 2 ^ 32
    → HasResult dest
        ((a + 2 ^ 32 - b) % 2 ^ 32)
        (ltb a b)
        (not (signed_difference_fits a b))
        (execute_sub dest a b m)
unfolding execute_sub
execute_sub-HasResult dest a b m ha hb =
    rw (execute_sub, sub_overflow a b ha hb)
      (finish-HasResult _ _ _ _ dest (sub32 a b) m refl (top_bit-eq (sub32 a b) (omega arith)))
