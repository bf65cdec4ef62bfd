-- ===== src/Engine/Pairs/Sums.antt =====
-- Addition and subtraction on register pairs: the 64-bit result, its carry and its overflow.
use ceres_vm.Prelude.{
  ℕ, ◌+◌, ◌-◌, ◌*◌, ◌%◌, ◌^◌, ◌<◌, bit_and, bit_xor, ◌≡◌, ◌∙◌, Bool, true, false, not, ◌&&◌, arith,
}
use ceres_vm.Prelude.Tests.{ltb, leb, ◌==◌, if◌then◌else◌}
use ceres_vm.Prelude.Bits.{
  bit-bit_and, bit-bit_xor, bit-eq, bit_complement, bit_ext, bit-mod-pow, bit-high, mod-pow-lt,
  bit_or_fields, bit_or_comm,
}
use ceres_vm.Prelude.Widths.{bit_and-lt}
use ceres_vm.Prelude.Words.{u8, u64}
use ceres_vm.Engine.State.{
  Machine, flag_on, get_reg, advance_pc, zero_flag, sign_flag, carry_flag, overflow_flag,
}
use ceres_vm.Engine.Alu.Flags.{result_flags_lem}
use ceres_vm.Engine.Pairs.{
  get_pair, set_pair, flags64, execute_add64, execute_sub64, sub64, not64, top_bit64,
}

-- The number that a pattern stands for as an `i64`, plus 2 ^ 63.
abbrev pub biased64 : ℕ → ℕ
biased64 x = if ltb x (2 ^ 63) then x + 2 ^ 63 else x - 2 ^ 63

abbrev pub signed_sum_fits64 : ℕ → ℕ → Bool
signed_sum_fits64 a b =
    leb (2 ^ 63) (biased64 a + biased64 b) && ltb (biased64 a + biased64 b) (3 * 2 ^ 63)

abbrev pub signed_difference_fits64 : ℕ → ℕ → Bool
signed_difference_fits64 a b =
    leb (biased64 b) (biased64 a + 2 ^ 63) && ltb (biased64 a) (biased64 b + 2 ^ 63)

xor_below64 : (a b : ℕ) → a < 2 ^ 64 → b < 2 ^ 64 → bit_xor a b < 2 ^ 64
xor_below64 a b ha hb = omega (arith, whole, mod-pow-lt (bit_xor a b) 64)
  where
    whole : bit_xor a b % 2 ^ 64 ≡ bit_xor a b
    whole = bit_ext _ _ λ k. ground (
      arith,
      bit-mod-pow (bit_xor a b) 64 k,
      bit-bit_xor a b k,
      bit-high a 64 k ha,
      bit-high b 64 k hb,
    )

add_overflow64 :
    (a b : ℕ)
    → a < 2 ^ 64
    → b < 2 ^ 64
    → top_bit64 (bit_and (not64 (bit_xor a b)) (bit_xor a (u64 (a + b))))
      ≡ not (signed_sum_fits64 a b)
add_overflow64 a b ha hb = ground (
  arith,
  bit_and-lt (not64 (bit_xor a b)) (bit_xor a (u64 (a + b))) 64 (omega arith),
  bit-eq (bit_and (not64 (bit_xor a b)) (bit_xor a (u64 (a + b)))) 63,
  bit-bit_and (not64 (bit_xor a b)) (bit_xor a (u64 (a + b))) 63,
  bit_complement 64 (bit_xor a b) 63 (xor_below64 a b ha hb),
  bit-bit_xor a b 63,
  bit-bit_xor a (u64 (a + b)) 63,
  bit-eq a 63,
  bit-eq b 63,
  bit-eq (u64 (a + b)) 63,
)

sub_overflow64 :
    (a b : ℕ)
    → a < 2 ^ 64
    → b < 2 ^ 64
    → top_bit64 (bit_and (bit_xor a b) (bit_xor a (sub64 a b))) ≡ not (signed_difference_fits64 a b)
sub_overflow64 a b ha hb = ground (
  arith,
  bit_and-lt (bit_xor a b) (bit_xor a (sub64 a b)) 64 (xor_below64 a b ha hb),
  bit-eq (bit_and (bit_xor a b) (bit_xor a (sub64 a b))) 63,
  bit-bit_and (bit_xor a b) (bit_xor a (sub64 a b)) 63,
  bit-bit_xor a b 63,
  bit-bit_xor a (sub64 a b) 63,
  bit-eq a 63,
  bit-eq b 63,
  bit-eq (sub64 a b) 63,
)

-- The two words of a pair are the digits of its number.
pub get_pair-sum :
    {W : Type 0} (f : ℕ) (m : Machine W)
    → get_reg f m < 2 ^ 32
    → get_pair f m ≡ get_reg (u8 (f + 1)) m * 2 ^ 32 + get_reg f m
unfolding get_pair
get_pair-sum f m h = bit_or_comm _ _ ∙ bit_or_fields 32 (get_reg (u8 (f + 1)) m) (get_reg f m) h

pub get_pair-set_pair :
    {W : Type 0} (f v : ℕ) (m : Machine W) → f < 15 → v < 2 ^ 64 → get_pair f (set_pair f v m) ≡ v
unfolding set_pair
get_pair-set_pair f v m low h = get_pair-sum f (set_pair f v m) (ground (arith)) ∙ ground (arith)

-- What an addition or a subtraction leaves in the pair, in the four flags and in the other registers.
pub record HasPair {W : Type 0} (dest result : ℕ) (carries overflows : Bool) (m m' : Machine W)
    : Type 0 where
  pub value : get_pair dest m' ≡ result
  pub others :
      (r : ℕ) → ((r == dest) ≡ false) → ((r == dest + 1) ≡ false) → get_reg r m' ≡ get_reg r m
  pub zero : flag_on zero_flag m' ≡ (result == 0)
  pub sign : flag_on sign_flag m' ≡ leb (2 ^ 63) result
  pub carry : flag_on carry_flag m' ≡ carries
  pub overflow : flag_on overflow_flag m' ≡ overflows

-- A pair and the flags written, in that order of the source, and the next instruction.
pub pair_written-HasPair :
    {W : Type 0} (dest result : ℕ) (c o : Bool) (m : Machine W)
    → dest < 15
    → result < 2 ^ 64
    → HasPair dest result c o m (advance_pc (set_pair dest result (flags64 result c o m)))
unfolding set_pair flags64 get_pair
pair_written-HasPair dest result c o m low h = record {
  value = get_pair-set_pair dest result (flags64 result c o m) low h;
  others = λ r p q. ground (arith, p, q);
  zero = result_flags_lem (result == 0) (top_bit64 result) c o m.flags zero_flag (omega arith);
  sign =
      result_flags_lem (result == 0) (top_bit64 result) c o m.flags sign_flag (omega arith)
      ∙ ground (arith, h);
  carry = result_flags_lem (result == 0) (top_bit64 result) c o m.flags carry_flag (omega arith);
  overflow =
      result_flags_lem (result == 0) (top_bit64 result) c o m.flags overflow_flag (omega arith);
}

-- `add64` on pairs: the destination pair holds the sum modulo 2 ^ 64 and no other register changes;
-- Zero and Sign are the result's, Carry is set exactly if the unsigned sum does not fit 64 bits and
-- Overflow exactly if the signed sum does not.
pub execute_add64-HasPair :
    {W : Type 0} (dest a b : ℕ) (m : Machine W)
    → dest < 15
    → a < 2 ^ 64
    → b < 2 ^ 64
    → HasPair dest
        ((a + b) % 2 ^ 64)
        (leb (2 ^ 64) (a + b))
        (not (signed_sum_fits64 a b))
        m
        (execute_add64 dest a b m)
unfolding execute_add64
execute_add64-HasPair dest a b m low ha hb =
    let carries : ltb ((a + b) % 2 ^ 64) a ≡ leb (2 ^ 64) (a + b) = ground (arith, ha, hb) in
    rw (execute_add64, add_overflow64 a b ha hb, carries)
      (pair_written-HasPair dest ((a + b) % 2 ^ 64) _ _ m low (omega arith))

-- `sub64` on pairs, and `neg64` with 0 for the first: the difference modulo 2 ^ 64, Carry set exactly on
-- an unsigned borrow and Overflow exactly if the signed difference does not fit 64 bits.
pub execute_sub64-HasPair :
    {W : Type 0} (dest a b : ℕ) (m : Machine W)
    → dest < 15
    → a < 2 ^ 64
    → b < 2 ^ 64
    → HasPair dest
        ((a + 2 ^ 64 - b) % 2 ^ 64)
        (ltb a b)
        (not (signed_difference_fits64 a b))
        m
        (execute_sub64 dest a b true m)
unfolding execute_sub64
execute_sub64-HasPair dest a b m low ha hb =
    rw (execute_sub64, sub_overflow64 a b ha hb)
      (pair_written-HasPair dest (sub64 a b) _ _ m low (omega arith))
