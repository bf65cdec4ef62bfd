-- ===== src/Engine/Alu.antt =====
-- The integer arithmetic of the engine: what the `execute…` helpers do to a register and the four
-- result flags. An `i32` is its 32-bit pattern, or a sign and a magnitude where the source computes in
-- `i64`.
pub mod Flags
pub mod Sums
pub mod Rotate
pub mod Divide
use ceres_vm.Prelude.{
  ℕ, zero, suc, ◌+◌, ◌-◌, ◌*◌, ◌/◌, ◌%◌, ◌^◌, bit_and, bit_or, bit_xor, min, max, Bool, true, false,
  not, ◌&&◌, ◌||◌, Option, none, some,
}
use ceres_vm.Prelude.Tests.{ltb, leb, ◌==◌, if◌then◌else◌}
use ceres_vm.Prelude.Words.{u32, add32, sub32, not32, top_bit}
use ceres_vm.Isa.{rd, rs, rt, imm16, simm16, simm24}
use ceres_vm.Engine.State.{
  Machine, Devices, get_reg, set_reg, advance_pc, charge, put_flag, flag_on, zero_flag, sign_flag,
  carry_flag, overflow_flag, trap_flag, set_flag, int_division_by_zero,
}
use ceres_vm.Engine.Access.{faulting}

-- The flags word after `zero(z); sign(s); carry(c); overflow(o)`.
unfoldable pub result_flags : Bool → Bool → Bool → Bool → ℕ → ℕ
result_flags z s c o word =
    set_flag overflow_flag o
      (set_flag carry_flag c (set_flag sign_flag s (set_flag zero_flag z word)))

abbrev pub b2n : Bool → ℕ
b2n true = 1
b2n false = 0

abbrev pub xor : Bool → Bool → Bool
xor true b = not b
xor false b = b

-- A pattern as sign and magnitude, and back: `static_cast` between `u32`, `i32` and `i64`.
abbrev pub is_negative : ℕ → Bool
is_negative x = top_bit x

abbrev pub magnitude : ℕ → ℕ
magnitude x = if top_bit x then 2 ^ 32 - x else x

abbrev pub from_signed : Bool → ℕ → ℕ
from_signed negative mag = if negative then u32 (2 ^ 32 - mag % 2 ^ 32) else u32 mag

-- `std::min` and `std::max` over `i32`: one below the other when the sign bits are flipped.
abbrev pub signed_below : ℕ → ℕ → Bool
signed_below a b = ltb (u32 (a + 2 ^ 31)) (u32 (b + 2 ^ 31))

-- `rotateLeft`
unfoldable pub rotate_left : ℕ → ℕ → ℕ
rotate_left value amount =
    if amount % 2 ^ 5 == 0
    then value
    else bit_or (u32 (value * 2 ^ (amount % 2 ^ 5))) (value / 2 ^ (32 - amount % 2 ^ 5))

-- `std::countl_zero`, `std::countr_zero` and `std::popcount` on 32 bits, over the digits that are left.
unfoldable pub count_leading : ℕ → ℕ → ℕ
count_leading zero x = 0
count_leading (suc w) x = let rest = count_leading w x in if x / 2 ^ w % 2 == 0 then suc rest else 0

unfoldable pub count_trailing : ℕ → ℕ → ℕ
count_trailing zero x = 0
count_trailing (suc w) x = let rest = count_trailing w (x / 2) in if x % 2 == 0 then suc rest else 0

unfoldable pub count_ones : ℕ → ℕ → ℕ
count_ones zero x = 0
count_ones (suc w) x = x % 2 + count_ones w (x / 2)

-- `std::byteswap`
abbrev pub byte_swap : ℕ → ℕ
byte_swap x =
    x % 2 ^ 8 * 2 ^ 24
    + x / 2 ^ 8 % 2 ^ 8 * 2 ^ 16
    + x / 2 ^ 16 % 2 ^ 8 * 2 ^ 8
    + x / 2 ^ 24 % 2 ^ 8

-- `>>` of a negative `i32` brings in ones from the top.
abbrev pub shift_arithmetic : ℕ → ℕ → ℕ
shift_arithmetic a amount = a / 2 ^ amount + (if top_bit a then 2 ^ 32 - 2 ^ (32 - amount) else 0)

module _ {W : Type 0} where
  -- The flags, the destination, the next instruction.
  unfoldable pub finish : Bool → Bool → Bool → Bool → ℕ → ℕ → Machine W → Machine W
  finish z s c o dest result m =
      advance_pc (set_reg dest result (record m { flags = result_flags z s c o m.flags }))

  unfoldable pub execute_result : ℕ → ℕ → Machine W → Machine W
  unfolding finish
  execute_result dest result m = finish (result == 0) (top_bit result) false false dest result m

  unfoldable pub execute_abs : ℕ → ℕ → Machine W → Machine W
  unfolding finish
  execute_abs dest value m =
      let overflowed = value == 0x80000000 in
      let result = if overflowed then value else magnitude value in
      finish (result == 0) (top_bit result) false overflowed dest result m

  unfoldable pub execute_add : ℕ → ℕ → ℕ → Machine W → Machine W
  unfolding finish
  execute_add dest a b m =
      let result = a + b in
      finish (result % 2 ^ 32 == 0) (top_bit (u32 result)) (ltb 0xFFFFFFFF result)
        (top_bit (bit_and (not32 (bit_xor a b)) (bit_xor a (u32 result)))) dest (u32 result) m

  -- The 64-bit difference of the source, cut to the 32 bits that it reads.
  unfoldable pub execute_sub : ℕ → ℕ → ℕ → Machine W → Machine W
  unfolding finish
  execute_sub dest a b m =
      let result = sub32 a b in
      finish (result == 0) (top_bit result) (ltb a b)
        (top_bit (bit_and (bit_xor a b) (bit_xor a result))) dest result m

  unfoldable pub execute_signed_mul : ℕ → ℕ → ℕ → Machine W → Machine W
  unfolding finish
  execute_signed_mul dest a b m =
      let negative = xor (is_negative a) (is_negative b) in
      let mag = magnitude a * magnitude b in
      let result32 = from_signed negative mag in
      let did_overflow = ltb (if negative then 2 ^ 31 else 2 ^ 31 - 1) mag in
      finish (result32 == 0) (top_bit result32) did_overflow did_overflow dest result32 m

  unfoldable pub execute_unsigned_mul : ℕ → ℕ → ℕ → Machine W → Machine W
  unfolding finish
  execute_unsigned_mul dest a b m =
      let result = a * b in
      let did_carry = ltb 0xFFFFFFFF result in
      finish (u32 result == 0) (top_bit (u32 result)) did_carry did_carry dest (u32 result) m

  unfoldable pub execute_not : ℕ → ℕ → Machine W → Machine W
  unfolding finish
  execute_not dest a m = finish (not32 a == 0) (top_bit (not32 a)) false false dest (not32 a) m

  -- `executeAnd`, `executeOr` and `executeXor` differ in the operator alone.
  unfoldable pub execute_bits : (ℕ → ℕ → ℕ) → ℕ → ℕ → ℕ → Machine W → Machine W
  unfolding finish
  execute_bits op dest a b m = finish (op a b == 0) (top_bit (op a b)) false false dest (op a b) m

  -- The shifts. With an amount that is a positive multiple of 32 the source shifts by 2 ^ 32 - 1 for
  -- the carry, which C++ leaves undefined: `host` is what it then gives.
  unfoldable pub execute_shl : (ℕ → Bool) → ℕ → ℕ → ℕ → Machine W → Machine W
  unfolding finish
  execute_shl host dest a b m =
      let amount = b % 2 ^ 5 in
      let result = u32 (a * 2 ^ amount) in
      if b == 0
      then advance_pc (set_reg dest a m)
      else finish (result == 0) (top_bit result)
          (if amount == 0 then host a else top_bit (u32 (a * 2 ^ (amount - 1)))) false dest result m

  unfoldable pub execute_shr : (ℕ → Bool) → ℕ → ℕ → ℕ → Machine W → Machine W
  unfolding finish
  execute_shr host dest a b m =
      let amount = b % 2 ^ 5 in
      let result = a / 2 ^ amount in
      if b == 0
      then advance_pc (set_reg dest a m)
      else finish (result == 0) (top_bit result)
          (if amount == 0 then host a else a / 2 ^ (amount - 1) % 2 == 1) false dest result m

  unfoldable pub execute_sar : (ℕ → Bool) → ℕ → ℕ → ℕ → Machine W → Machine W
  unfolding finish
  execute_sar host dest a b m =
      let amount = b % 2 ^ 5 in
      let result = shift_arithmetic a amount in
      if b == 0
      then advance_pc (set_reg dest a m)
      else finish (result == 0) (top_bit result)
          (if amount == 0 then host a else shift_arithmetic a (amount - 1) % 2 == 1) false dest
          result m

module _ {W : Type 0} (dv : Devices W) (trig : ℕ → Machine W → Option (Bool × Machine W)) where
  unfoldable pub division_by_zero : Machine W → Option (Unit {0} × Machine W)
  division_by_zero m =
      if m.division_faults
      then faulting dv trig int_division_by_zero tt (advance_pc m)
      else some (tt, advance_pc (put_flag trap_flag true m))

  unfoldable pub execute_signed_div : ℕ → ℕ → ℕ → Machine W → Option (Unit {0} × Machine W)
  unfolding finish division_by_zero
  execute_signed_div dest a b m =
      let negative = xor (is_negative a) (is_negative b) in
      let result32 = from_signed negative (magnitude a / magnitude b) in
      if b == 0
      then division_by_zero m
      else some (
        tt,
        finish (result32 == 0) (top_bit result32) false (b == 0xFFFFFFFF && a == 0x80000000) dest
            result32 m,
      )

  unfoldable pub execute_unsigned_div : ℕ → ℕ → ℕ → Machine W → Option (Unit {0} × Machine W)
  unfolding finish division_by_zero
  execute_unsigned_div dest a b m =
      if b == 0
      then division_by_zero m
      else some (tt, finish (a / b == 0) (top_bit (a / b)) false false dest (a / b) m)

  unfoldable pub execute_signed_mod : ℕ → ℕ → ℕ → Machine W → Option (Unit {0} × Machine W)
  unfolding finish division_by_zero
  execute_signed_mod dest a b m =
      let result32 = from_signed (is_negative a) (magnitude a % magnitude b) in
      if b == 0
      then division_by_zero m
      else some (tt, finish (result32 == 0) (top_bit result32) false false dest result32 m)

  unfoldable pub execute_unsigned_mod : ℕ → ℕ → ℕ → Machine W → Option (Unit {0} × Machine W)
  unfolding finish division_by_zero
  execute_unsigned_mod dest a b m =
      if b == 0
      then division_by_zero m
      else some (tt, finish (a % b == 0) (top_bit (a % b)) false false dest (a % b) m)
