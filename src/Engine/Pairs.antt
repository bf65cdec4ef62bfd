-- ===== src/Engine/Pairs.antt =====
-- The 64-bit instructions on register pairs (from `illegal` to `STRDX` of
-- Ceres/libs/vm/include/ceres/vm/execution_engine.h). An `i64` is its 64-bit pattern, or a sign and a
-- magnitude where the source divides or multiplies.
pub mod Sums
pub mod Words
pub mod RoundTrip
pub mod Runs
mod Tests
use ceres_vm.Prelude.{
  ℕ, zero, suc, ◌+◌, ◌-◌, ◌*◌, ◌/◌, ◌%◌, ◌^◌, bit_and, bit_or, bit_xor, Bool, true, false, not,
  ◌&&◌, ◌||◌, Option, none, some,
}
use ceres_vm.Prelude.Tests.{ltb, leb, ◌==◌, if◌then◌else◌}
use ceres_vm.Prelude.Words.{u8, u32, u64, add32}
use ceres_vm.Isa.{rd, rs, rt, get}
use ceres_vm.Isa.Wide
use ceres_vm.Isa.Wide.{shift_kind_field, shift_amount_field, bit_op_field}
use ceres_vm.Engine.State.{
  Machine, Devices, get_reg, set_reg, advance_pc, note_fault, access_read, access_write,
  access_execute, int_illegal_instruction, int_alignment_fault, reason_register_pair,
  reason_bad_subfield, reason_alignment, reason_mmio_width,
}
use ceres_vm.Engine.Access.{and_then, faulting, read, write, reaches_device, check_writable}
use ceres_vm.Engine.Alu.{
  result_flags, xor, is_negative, magnitude, execute_result, division_by_zero, count_leading,
  count_trailing, count_ones,
}
use ceres_vm.Engine.Transfers.{
  Addressing, displaced, indexed, pc_relative, load_address, store_address, illegal,
}

-- `(x >> 63) != 0`
abbrev pub top_bit64 : ℕ → Bool
top_bit64 x = not (x / 2 ^ 63 == 0)

abbrev pub sub64 : ℕ → ℕ → ℕ
sub64 a b = u64 (a + 2 ^ 64 - b)

-- `~x` on 64 bits.
abbrev pub not64 : ℕ → ℕ
not64 x = 2 ^ 64 - 1 - x

abbrev pub magnitude64 : ℕ → ℕ
magnitude64 x = if top_bit64 x then 2 ^ 64 - x else x

-- The pattern of a sign and a magnitude.
abbrev pub from_signed64 : Bool → ℕ → ℕ
from_signed64 negative mag = if negative then u64 (2 ^ 64 - mag % 2 ^ 64) else u64 mag

-- A 32-bit pattern widened by its sign.
abbrev pub widen : ℕ → ℕ
widen x = if is_negative x then x + (2 ^ 64 - 2 ^ 32) else x

-- `>>` of an `i64`.
abbrev pub shift_arithmetic64 : ℕ → ℕ → ℕ
shift_arithmetic64 a amount =
    a / 2 ^ amount + (if top_bit64 a then 2 ^ 64 - 2 ^ (64 - amount) else 0)

-- The instructions of the group that neither divide nor reach memory.
pub data PairOp : Type 0 where
  add64 : PairOp
  sub64_two : PairOp
  neg64 : PairOp
  cmp64 : PairOp
  mull : PairOp
  imull : PairOp
  mul64 : PairOp
  shl64 : PairOp
  shr64 : PairOp
  sar64 : PairOp
  shi64 : PairOp
  sxt64 : PairOp
  bits64 : PairOp
  mov64 : PairOp

pub data DivideOp : Type 0 where
  div64 : DivideOp
  mod64 : DivideOp
  idiv64 : DivideOp
  imod64 : DivideOp

module _ {W : Type 0} where
  unfoldable pub get_pair : ℕ → Machine W → ℕ
  get_pair field m = bit_or (get_reg field m) (get_reg (u8 (field + 1)) m * 2 ^ 32)

  unfoldable pub set_pair : ℕ → ℕ → Machine W → Machine W
  set_pair field value m =
      set_reg (u8 (field + 1)) (u32 (value / 2 ^ 32)) (set_reg field (u32 value) m)

  unfoldable pub flags64 : ℕ → Bool → Bool → Machine W → Machine W
  flags64 result carried overflowed m = record m {
    flags = result_flags (result == 0) (top_bit64 result) carried overflowed m.flags;
  }

  unfoldable pub execute_result64 : ℕ → ℕ → Machine W → Machine W
  execute_result64 dest result m = advance_pc (set_pair dest result (flags64 result false false m))

  unfoldable pub execute_add64 : ℕ → ℕ → ℕ → Machine W → Machine W
  execute_add64 dest a b m =
      let result = u64 (a + b) in
      advance_pc (
        set_pair dest result (
          flags64 result (ltb result a)
            (top_bit64 (bit_and (not64 (bit_xor a b)) (bit_xor a result))) m))

  -- `keep` says whether the difference is stored.
  unfoldable pub execute_sub64 : ℕ → ℕ → ℕ → Bool → Machine W → Machine W
  execute_sub64 dest a b keep m =
      let result = sub64 a b in
      let m' = flags64 result (ltb a b) (top_bit64 (bit_and (bit_xor a b) (bit_xor a result))) m in
      advance_pc (if keep then set_pair dest result m' else m')

  -- `kind` is 0 for the left shift, 1 for the right one and any other number for the arithmetic one.
  unfoldable pub execute_shift64 : ℕ → ℕ → ℕ → ℕ → Machine W → Machine W
  execute_shift64 dest value amount kind m =
      let n = amount % 2 ^ 6 in
      let result =
        if kind == 0
        then u64 (value * 2 ^ n)
        else if kind == 1
        then value / 2 ^ n
        else shift_arithmetic64 value n in
      let out =
        if kind == 0
        then not (value / 2 ^ (64 - n) % 2 == 0)
        else if kind == 1
        then not (value / 2 ^ (n - 1) % 2 == 0)
        else not (shift_arithmetic64 value (n - 1) % 2 == 0) in
      if n == 0
      then advance_pc (set_pair dest value m)
      else advance_pc (set_pair dest result (flags64 result out false m))

  -- The handler of an instruction that was decoded.
  unfoldable pub pair_operation : PairOp → ℕ → Machine W → Machine W
  pair_operation op inst m =
      let d = rd inst in
      let x = get_pair (rs inst) m in
      let y = get_pair (rt inst) m in
      let a = get_reg (rs inst) m in
      let b = get_reg (rt inst) m in
      elim op [
        | add64 ↦ execute_add64 d x y m
        | sub64_two ↦ execute_sub64 d x y true m
        | neg64 ↦ execute_sub64 d 0 x true m
        | cmp64 ↦ execute_sub64 0 x y false m
        | mull ↦ execute_result64 d (a * b) m
        | imull ↦
            execute_result64 d
              (from_signed64 (xor (is_negative a) (is_negative b)) (magnitude a * magnitude b)) m
        | mul64 ↦ execute_result64 d (u64 (x * y)) m
        | shl64 ↦ execute_shift64 d x b 0 m
        | shr64 ↦ execute_shift64 d x b 1 m
        | sar64 ↦ execute_shift64 d x b 2 m
        | shi64 ↦ execute_shift64 d x (get shift_amount_field inst) (get shift_kind_field inst) m
        | sxt64 ↦ execute_result64 d (widen a) m
        | bits64 ↦
            if get bit_op_field inst == 0
            then execute_result d (count_leading 64 x) m
            else if get bit_op_field inst == 1
            then execute_result d (count_trailing 64 x) m
            else execute_result d (count_ones 64 x) m
        | mov64 ↦ advance_pc (set_pair d x m)
      ]

module _ {W : Type 0} (dv : Devices W) (trig : ℕ → Machine W → Option (Bool × Machine W)) where
  -- `decoded`, with the illegal instruction that it raises.
  unfoldable pub decoded : ℕ → Machine W → Option (Bool × Machine W)
  decoded inst m = elim (Wide.check inst) [
    | Wide.ok ↦ some (true, m)
    | Wide.register_pair ↦
        and_then (illegal dv trig reason_register_pair m) (λ t m'. some (false, m'))
    | Wide.bad_subfield ↦
        and_then (illegal dv trig reason_bad_subfield m) (λ t m'. some (false, m'))
  ]

  unfoldable pub run_pair : PairOp → ℕ → Machine W → Option (Unit {0} × Machine W)
  run_pair op inst m =
      and_then (decoded inst m) (λ go m'. some (tt, if go then pair_operation op inst m' else m'))

  -- The quotient or remainder and whether it overflowed. Of `INT64_MIN / -1` the quotient is
  -- `INT64_MIN` and the remainder 0.
  unfoldable pub divide64 : DivideOp → ℕ → ℕ → ℕ × Bool
  divide64 op a b =
      let negative = xor (top_bit64 a) (top_bit64 b) in
      elim op [
        | div64 ↦ (a / b, false)
        | mod64 ↦ (a % b, false)
        | idiv64 ↦
            if a == 2 ^ 63 && b == 2 ^ 64 - 1
            then (a, true)
            else (from_signed64 negative (magnitude64 a / magnitude64 b), false)
        | imod64 ↦
            if b == 2 ^ 64 - 1
            then (0, false)
            else (from_signed64 (top_bit64 a) (magnitude64 a % magnitude64 b), false)
      ]

  unfoldable pub execute_divide64 : DivideOp → ℕ → ℕ → ℕ → Machine W → Option (Unit {0} × Machine W)
  execute_divide64 op dest a b m =
      let r = divide64 op a b in
      if b == 0
      then division_by_zero dv trig m
      else some (tt, advance_pc (set_pair dest r.0 (flags64 r.0 false r.1 m)))

  unfoldable pub run_divide64 : DivideOp → ℕ → Machine W → Option (Unit {0} × Machine W)
  run_divide64 op inst m = and_then (decoded inst m) (λ go m'.
      if go
      then execute_divide64 op (rd inst) (get_pair (rs inst) m') (get_pair (rt inst) m') m'
      else some (tt, m'))

  unfoldable pub check_alignment64 : ℕ → ℕ → Machine W → Option (Bool × Machine W)
  check_alignment64 address access m =
      if address % 4 == 0
      then some (true, m)
      else faulting dv trig int_alignment_fault false (
          note_fault address access 8
            (if reaches_device address m then reason_mmio_width else reason_alignment) m)

  -- `read64`; `none` inside is its `nullopt`.
  unfoldable pub read64 : ℕ → Machine W → Option (Option ℕ × Machine W)
  read64 address m = and_then (check_alignment64 address access_read m) (λ aligned m1.
      if not aligned
      then some (none, m1)
      else and_then (read dv trig 4 address true m1) (λ low m2.
        if m2.faulted
        then some (none, m2)
        else and_then (read dv trig 4 (add32 address 4) false m2) (λ high m3.
          if m3.faulted then some (none, m3) else some (some (bit_or low (high * 2 ^ 32)), m3))))

  unfoldable pub load64 : ℕ → ℕ → Machine W → Option (Unit {0} × Machine W)
  load64 dest address m = and_then (read64 address m) (λ value m'. elim value [
    | none ↦ some (tt, m')
    | some v ↦ some (tt, advance_pc (set_pair dest v m'))
  ])

  unfoldable pub write64 : ℕ → ℕ → Machine W → Option (Bool × Machine W)
  write64 address value m = and_then (check_alignment64 address access_write m) (λ aligned m1.
      if not aligned
      then some (false, m1)
      else and_then (check_writable dv trig address 8 m1) (λ writable m2.
        if not writable
        then some (false, m2)
        else and_then (write dv trig 4 address (u32 value) true m2) (λ t m3.
          if m3.faulted
          then some (false, m3)
          else and_then (write dv trig 4 (add32 address 4) (u32 (value / 2 ^ 32)) false m3)
              (λ t' m4. some (not m4.faulted, m4)))))

  unfoldable pub store64 : ℕ → ℕ → Machine W → Option (Unit {0} × Machine W)
  store64 address value m =
      and_then (write64 address value m) (λ done m'. some (tt, if done then advance_pc m' else m'))

  -- `LDRD`, `LDRDX` and `LDRDP`.
  unfoldable pub ldrd : Addressing → ℕ → Machine W → Option (Unit {0} × Machine W)
  ldrd mode inst m =
      and_then (decoded inst m)
        (λ go m'. if go then load64 (rd inst) (load_address mode inst m') m' else some (tt, m'))

  -- `STRD` and `STRDX`.
  unfoldable pub strd : Addressing → ℕ → Machine W → Option (Unit {0} × Machine W)
  strd mode inst m = and_then (decoded inst m) (λ go m'.
      if go then store64 (store_address mode inst m') (get_pair (rs inst) m') m' else some (tt, m'))
