-- ===== src/Engine/Execute.antt =====
-- The instructions, one function per handler of the source or per family that differs in an operand:
-- arithmetic, comparison and jumps, calls, loads and stores, the stack, the system. `Unit` results say
-- that a handler returns.
pub mod Jumps
pub mod Carry
use ceres_vm.Prelude.{
  ℕ, zero, suc, ◌+◌, ◌-◌, ◌*◌, ◌/◌, ◌%◌, ◌^◌, bit_and, bit_or, bit_xor, min, max, Bool, true, false,
  not, ◌&&◌, ◌||◌, Option, none, some,
}
use ceres_vm.Prelude.Tests.{ltb, leb, ◌==◌, if◌then◌else◌}
use ceres_vm.Prelude.Words.{u8, u16, u32, add32, sub32, not32, top_bit}
use ceres_vm.Isa.{rd, rs, rt, imm8, imm16, simm16, simm20, simm24, sign_extend}
use ceres_vm.Mmu
use ceres_vm.Engine.State.{
  Machine, Devices, get_reg, set_reg, sp, set_sp, fp, set_fp, advance_pc, charge, put_flag, flag_on,
  raise_flag, clear_flag, zero_flag, sign_flag, carry_flag, overflow_flag, interrupt_flag,
  paging_flag, has_stack_room, has_stack_data, note_fault, access_read, access_write,
  access_execute, int_trap, int_reset, int_illegal_instruction, int_stack_overflow,
  reason_bad_subfield,
}
use ceres_vm.Engine.Access.{
  and_then, faulting, read, write, push, pop, check_alignment, check_writable, loaded,
}
use ceres_vm.Engine.Alu.{
  b2n, signed_below, rotate_left, count_leading, count_trailing, count_ones, byte_swap, magnitude,
  is_negative, from_signed, xor, result_flags, execute_result, execute_abs, execute_add,
  execute_sub, execute_signed_mul, execute_unsigned_mul, execute_not, execute_bits, execute_shl,
  execute_shr, execute_sar, execute_signed_div, execute_unsigned_div, execute_signed_mod,
  execute_unsigned_mod,
}

-- The integer handlers from ADD to SXTH that cannot fault.
pub data Arithmetic : Type 0 where
  add : Arithmetic
  addi : Arithmetic
  addc : Arithmetic
  addci : Arithmetic
  sub : Arithmetic
  subi : Arithmetic
  subc : Arithmetic
  subci : Arithmetic
  mul : Arithmetic
  muli : Arithmetic
  imul : Arithmetic
  imuli : Arithmetic
  mulh : Arithmetic
  imulh : Arithmetic
  abs : Arithmetic
  min_two : Arithmetic
  mini : Arithmetic
  imin : Arithmetic
  imini : Arithmetic
  max_two : Arithmetic
  maxi : Arithmetic
  imax : Arithmetic
  imaxi : Arithmetic
  clz : Arithmetic
  ctz : Arithmetic
  popcnt : Arithmetic
  bswap : Arithmetic
  rol : Arithmetic
  roli : Arithmetic
  ror : Arithmetic
  rori : Arithmetic
  sxtb : Arithmetic
  sxth : Arithmetic

-- `getReg(x) + (carry() ? 1 : 0)` is a 32-bit sum.
abbrev pub with_carry : {W : Type 0} → ℕ → Machine W → ℕ
with_carry value m = add32 value (b2n (flag_on carry_flag m))

-- The high word of a signed 64-bit product.
abbrev pub signed_high : ℕ → ℕ → ℕ
signed_high a b =
    let mag = magnitude a * magnitude b in
    (if xor (is_negative a) (is_negative b) then (2 ^ 64 - mag) % 2 ^ 64 else mag) / 2 ^ 32

module _ {W : Type 0} where
  -- One handler of the group; `a`, `b`, `i` and `s` are the registers rs and rt and the immediate, read
  -- as unsigned and as signed.
  unfoldable pub arithmetic : Arithmetic → ℕ → Machine W → Machine W
  arithmetic op inst m =
      let d = rd inst in
      let a = get_reg (rs inst) m in
      let b = get_reg (rt inst) m in
      let i = imm16 inst in
      let s = simm16 inst in
      elim op [
        | add ↦ execute_add d a b m
        | addi ↦ execute_add d a i m
        | addc ↦ execute_add d a (with_carry b m) m
        | addci ↦ execute_add d a (with_carry i m) m
        | sub ↦ execute_sub d a b m
        | subi ↦ execute_sub d a i m
        | subc ↦ execute_sub d a (with_carry b m) m
        | subci ↦ execute_sub d a (with_carry i m) m
        | mul ↦ execute_unsigned_mul d a b m
        | muli ↦ execute_unsigned_mul d a i m
        | imul ↦ execute_signed_mul d a b m
        | imuli ↦ execute_signed_mul d a s m
        | mulh ↦ execute_result d (a * b / 2 ^ 32) m
        | imulh ↦ execute_result d (signed_high a b) m
        | abs ↦ execute_abs d a m
        | min_two ↦ execute_result d (min a b) m
        | mini ↦ execute_result d (min a i) m
        | imin ↦ execute_result d (if signed_below b a then b else a) m
        | imini ↦ execute_result d (if signed_below s a then s else a) m
        | max_two ↦ execute_result d (max a b) m
        | maxi ↦ execute_result d (max a i) m
        | imax ↦ execute_result d (if signed_below a b then b else a) m
        | imaxi ↦ execute_result d (if signed_below a s then s else a) m
        | clz ↦ execute_result d (count_leading 32 a) m
        | ctz ↦ execute_result d (count_trailing 32 a) m
        | popcnt ↦ execute_result d (count_ones 32 a) m
        | bswap ↦ execute_result d (byte_swap a) m
        | rol ↦ execute_result d (rotate_left a b) m
        | roli ↦ execute_result d (rotate_left a i) m
        | ror ↦ execute_result d (rotate_left a (32 - b % 2 ^ 5)) m
        | rori ↦ execute_result d (rotate_left a (32 - i % 2 ^ 5)) m
        | sxtb ↦ execute_result d (sign_extend 8 (a % 2 ^ 8)) m
        | sxth ↦ execute_result d (sign_extend 16 (a % 2 ^ 16)) m
      ]

-- The bitwise operations, the shifts and the moves.
pub data Logic : Type 0 where
  and : Logic
  andi : Logic
  or : Logic
  ori : Logic
  xor_two : Logic
  xori : Logic
  not_one : Logic
  shl : Logic
  shli : Logic
  shr : Logic
  shri : Logic
  sar : Logic
  sari : Logic
  mov : Logic
  li : Logic
  lui : Logic
  lea : Logic

module _ {W : Type 0} (host_left host_right host_arithmetic : ℕ → Bool) where
  -- The host functions are those of the three shifts (see Alu).
  unfoldable pub logic : Logic → ℕ → Machine W → Machine W
  logic op inst m =
      let d = rd inst in
      let a = get_reg (rs inst) m in
      let b = get_reg (rt inst) m in
      let i = imm16 inst in
      elim op [
        | and ↦ execute_bits bit_and d a b m
        | andi ↦ execute_bits bit_and d a i m
        | or ↦ execute_bits bit_or d a b m
        | ori ↦ execute_bits bit_or d a i m
        | xor_two ↦ execute_bits bit_xor d a b m
        | xori ↦ execute_bits bit_xor d a i m
        | not_one ↦ execute_not d a m
        | shl ↦ execute_shl host_left d a b m
        | shli ↦ execute_shl host_left d a i m
        | shr ↦ execute_shr host_right d a b m
        | shri ↦ execute_shr host_right d a i m
        | sar ↦ execute_sar host_arithmetic d a b m
        | sari ↦ execute_sar host_arithmetic d a i m
        | mov ↦ advance_pc (set_reg d a m)
        | li ↦ advance_pc (set_reg d i m)
        | lui ↦ advance_pc (set_reg d (i * 2 ^ 16) m)
        | lea ↦ advance_pc (set_reg d (add32 a (simm16 inst)) m)
      ]

-- The conditional jumps, by what they test.
pub data Condition : Type 0 where
  z : Condition
  nz : Condition
  c : Condition
  nc : Condition
  s : Condition
  ns : Condition
  o : Condition
  no_overflow : Condition
  gr : Condition
  ge : Condition
  ls : Condition
  le : Condition
  ab : Condition
  ae : Condition
  bl : Condition
  be : Condition

module _ {W : Type 0} where
  abbrev pub signed_less : Machine W → Bool
  signed_less m = xor (flag_on sign_flag m) (flag_on overflow_flag m)

  abbrev pub is_equal : Machine W → Bool
  is_equal m = flag_on zero_flag m

  abbrev pub unsigned_below : Machine W → Bool
  unsigned_below m = flag_on carry_flag m

  abbrev pub holds : Condition → Machine W → Bool
  holds z m = flag_on zero_flag m
  holds nz m = not (flag_on zero_flag m)
  holds c m = flag_on carry_flag m
  holds nc m = not (flag_on carry_flag m)
  holds s m = flag_on sign_flag m
  holds ns m = not (flag_on sign_flag m)
  holds o m = flag_on overflow_flag m
  holds no_overflow m = not (flag_on overflow_flag m)
  holds gr m = not (is_equal m) && not (signed_less m)
  holds ge m = not (signed_less m)
  holds ls m = signed_less m
  holds le m = is_equal m || signed_less m
  holds ab m = not (unsigned_below m) && not (is_equal m)
  holds ae m = not (unsigned_below m)
  holds bl m = unsigned_below m
  holds be m = unsigned_below m || is_equal m

  -- `executeJumpIf` and its like, and the forms through a register.
  unfoldable pub jump_if : Condition → ℕ → Machine W → Machine W
  jump_if t inst m =
      if holds t m then charge 1 (record m { pc = add32 m.pc (simm24 inst) }) else advance_pc m

  unfoldable pub jump_reg_if : Condition → ℕ → Machine W → Machine W
  jump_reg_if t inst m =
      if holds t m then charge 1 (record m { pc = get_reg (rs inst) m }) else advance_pc m

  unfoldable pub jp : ℕ → Machine W → Machine W
  jp inst m = record m { pc = add32 m.pc (simm24 inst) }

  unfoldable pub jpr : ℕ → Machine W → Machine W
  jpr inst m = record m { pc = get_reg (rs inst) m }

  -- `CMP` and `CMPI` on the values they compare.
  unfoldable pub compare_values : ℕ → ℕ → Machine W → Machine W
  compare_values a b m = advance_pc (record m {
    flags =
        result_flags (a == b) (top_bit (sub32 a b)) (ltb a b)
          (top_bit (bit_and (bit_xor a b) (bit_xor a (sub32 a b)))) m.flags;
  })

  unfoldable pub cmp : ℕ → Machine W → Machine W
  unfolding compare_values
  cmp inst m = compare_values (get_reg (rs inst) m) (get_reg (rt inst) m) m

  unfoldable pub cmpi : ℕ → Machine W → Machine W
  unfolding compare_values
  cmpi inst m = compare_values (get_reg (rs inst) m) (simm16 inst) m

  unfoldable pub bl_call : ℕ → Machine W → Machine W
  bl_call inst m = record (set_reg (rd inst) (add32 m.pc 4) m) { pc = add32 m.pc (simm20 inst) }

  unfoldable pub blr : ℕ → Machine W → Machine W
  blr inst m =
      let target = get_reg (rs inst) m in
      record (set_reg (rd inst) (add32 m.pc 4) m) { pc = target }

  unfoldable pub cli : Machine W → Machine W
  cli m = advance_pc (record m { flags = clear_flag interrupt_flag m.flags })

  unfoldable pub sti : Machine W → Machine W
  sti m =
      advance_pc (record m { flags = raise_flag interrupt_flag m.flags; interrupt_shadow = true })

  unfoldable pub mtp : ℕ → Machine W → Machine W
  mtp inst m = advance_pc (record m { mmu = Mmu.set_ptbr (get_reg (rs inst) m) m.mmu })

  unfoldable pub mfp : ℕ → Machine W → Machine W
  mfp inst m = advance_pc (set_reg (rd inst) m.mmu.ptbr m)

  unfoldable pub pgon : Machine W → Machine W
  pgon m = advance_pc (record m { flags = raise_flag paging_flag m.flags })

  unfoldable pub pgoff : Machine W → Machine W
  pgoff m = advance_pc (record m { flags = clear_flag paging_flag m.flags })

  unfoldable pub invlpg : ℕ → Machine W → Machine W
  invlpg inst m = advance_pc (record m { mmu = Mmu.invalidate (get_reg (rs inst) m) m.mmu })

  unfoldable pub flpg : Machine W → Machine W
  flpg m = advance_pc (record m { mmu = Mmu.invalidate_all m.mmu })

  unfoldable pub mfpf : ℕ → Machine W → Machine W
  mfpf inst m = advance_pc (set_reg (rd inst) m.mmu.fault_address m)
