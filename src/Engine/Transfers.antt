-- ===== src/Engine/Transfers.antt =====
-- The instructions that reach memory or the stack: loads and stores in their three addressings, calls
-- and returns, pushes and pops, frames, and the software interrupts. `none` is a host call stack that
-- has run out.
pub mod Stack
pub mod Loads
use ceres_vm.Prelude.{
  ℕ, zero, suc, ◌+◌, ◌-◌, ◌*◌, ◌/◌, ◌%◌, ◌^◌, Bool, true, false, not, ◌&&◌, ◌||◌, Option, none,
  some,
}
use ceres_vm.Prelude.Tests.{ltb, leb, ◌==◌, if◌then◌else◌}
use ceres_vm.Prelude.Words.{u32, add32, sub32}
use ceres_vm.Isa.{rd, rs, rt, imm8, imm16, simm16, simm24, sign_extend}
use ceres_vm.Engine.State.{
  Machine, Devices, get_reg, set_reg, sp, set_sp, fp, set_fp, advance_pc, has_stack_room,
  has_stack_data, note_fault, access_read, access_write, access_execute, int_trap, int_reset,
  int_illegal_instruction, int_stack_overflow, reason_bad_subfield,
}
use ceres_vm.Engine.Access.{
  and_then, faulting, read, write, push, pop, check_alignment, check_writable, loaded,
}
use ceres_vm.Engine.Alu.{count_ones}

-- The three ways to name an address: base and displacement, two registers, from the program counter.
pub data Addressing : Type 0 where
  displaced : Addressing
  indexed : Addressing
  pc_relative : Addressing

module _ {W : Type 0} where
  unfoldable pub load_address : Addressing → ℕ → Machine W → ℕ
  load_address displaced inst m = add32 (get_reg (rs inst) m) (simm16 inst)
  load_address indexed inst m = add32 (get_reg (rs inst) m) (get_reg (rt inst) m)
  load_address pc_relative inst m = add32 m.pc (simm16 inst)

  -- A store's base is rd, and rs is what it stores.
  unfoldable pub store_address : Addressing → ℕ → Machine W → ℕ
  store_address displaced inst m = add32 (get_reg (rd inst) m) (simm16 inst)
  store_address indexed inst m = add32 (get_reg (rd inst) m) (get_reg (rt inst) m)
  store_address pc_relative inst m = add32 m.pc (simm16 inst)

  abbrev pub set_freg : ℕ → ℕ → Machine W → Machine W
  set_freg r v m = record m { fregs = λ i. if r == i then v else m.fregs i }

module _ {W : Type 0} (dv : Devices W) (trig : ℕ → Machine W → Option (Bool × Machine W)) where
  -- `LDR`, `LDRB`, `LDRH`, `LDRSB`, `LDRSH` and their indexed and relative forms: `n` bytes, widened by
  -- sign where `signed` says so. A byte needs no alignment.
  unfoldable pub load : ℕ → Bool → Addressing → ℕ → Machine W → Option (Unit {0} × Machine W)
  load n signed mode inst m =
      let address = load_address mode inst m in
      and_then (check_alignment dv trig n address access_read m) (λ aligned m1.
        if not aligned
        then some (tt, m1)
        else and_then (read dv trig n address true m1) (λ value m2.
          some (tt, loaded (rd inst) (if signed then sign_extend (8 * n) value else value) m2)))

  -- `FLDR` and its forms.
  unfoldable pub load_float : Addressing → ℕ → Machine W → Option (Unit {0} × Machine W)
  load_float mode inst m =
      let address = load_address mode inst m in
      and_then (check_alignment dv trig 4 address access_read m) (λ aligned m1.
        if not aligned
        then some (tt, m1)
        else and_then (read dv trig 4 address true m1) (λ value m2.
          some (tt, if m2.faulted then m2 else advance_pc (set_freg (rd inst) value m2))))

  -- The checks and the write of a store of `n` bytes.
  unfoldable pub store_value : ℕ → ℕ → ℕ → Machine W → Option (Unit {0} × Machine W)
  store_value n address value m =
      and_then (check_alignment dv trig n address access_write m) (λ aligned m1.
        if not aligned
        then some (tt, m1)
        else and_then (check_writable dv trig address n m1) (λ writable m2.
          if not writable
          then some (tt, m2)
          else and_then (write dv trig n address value true m2) (λ t m3. some (tt, advance_pc m3))))

  -- `STR`, `STRB`, `STRH` and their forms, and `FSTR`.
  unfoldable pub store : ℕ → Addressing → ℕ → Machine W → Option (Unit {0} × Machine W)
  store n mode inst m =
      store_value n (store_address mode inst m) (get_reg (rs inst) m % 2 ^ (8 * n)) m

  unfoldable pub store_float : Addressing → ℕ → Machine W → Option (Unit {0} × Machine W)
  store_float mode inst m = store_value 4 (store_address mode inst m) (m.fregs (rs inst)) m

  -- The forms through two registers and from the program counter.
  unfoldable pub load_indexed : ℕ → Bool → ℕ → Machine W → Option (Unit {0} × Machine W)
  load_indexed n signed inst m = load n signed indexed inst m

  unfoldable pub store_indexed : ℕ → ℕ → Machine W → Option (Unit {0} × Machine W)
  store_indexed n inst m = store n indexed inst m

  unfoldable pub load_relative : ℕ → Bool → ℕ → Machine W → Option (Unit {0} × Machine W)
  load_relative n signed inst m = load n signed pc_relative inst m

  unfoldable pub store_relative : ℕ → ℕ → Machine W → Option (Unit {0} × Machine W)
  store_relative n inst m = store n pc_relative inst m

  unfoldable pub call : ℕ → Machine W → Option (Unit {0} × Machine W)
  call inst m = and_then (push dv trig (add32 m.pc 4) m) (λ pushed_ok m1.
      some (tt, if pushed_ok then record m1 { pc = add32 m1.pc (simm24 inst) } else m1))

  unfoldable pub callr : ℕ → Machine W → Option (Unit {0} × Machine W)
  callr inst m =
      and_then (push dv trig (add32 m.pc 4) m) (λ pushed_ok m1.
        some (tt, if pushed_ok then record m1 { pc = get_reg (rs inst) m1 } else m1))

  -- An optional value that a pop gave.
  abbrev pub with_popped :
      (ℕ → Machine W → Machine W) → Option ℕ → Machine W → Option (Unit {0} × Machine W)
  with_popped k none m = some (tt, m)
  with_popped k (some v) m = some (tt, k v m)

  unfoldable pub ret : Machine W → Option (Unit {0} × Machine W)
  ret m = and_then (pop dv trig m) (with_popped (λ v m1. record m1 { pc = v }))

  -- `PUSH`, `PUSHF` and `FPUSH` by the value that they push.
  unfoldable pub push_value : ℕ → Machine W → Option (Unit {0} × Machine W)
  push_value value m =
      and_then (push dv trig value m)
        (λ pushed_ok m1. some (tt, if pushed_ok then advance_pc m1 else m1))

  unfoldable pub push_reg : ℕ → Machine W → Option (Unit {0} × Machine W)
  push_reg inst m = push_value (get_reg (rs inst) m) m

  unfoldable pub pop_reg : ℕ → Machine W → Option (Unit {0} × Machine W)
  pop_reg inst m =
      and_then (pop dv trig m) (with_popped (λ v m1. advance_pc (set_reg (rd inst) v m1)))

  unfoldable pub pushf : Machine W → Option (Unit {0} × Machine W)
  pushf m = push_value m.flags m

  unfoldable pub popf : Machine W → Option (Unit {0} × Machine W)
  popf m = and_then (pop dv trig m) (with_popped (λ v m1. advance_pc (record m1 { flags = v })))

  unfoldable pub fpush : ℕ → Machine W → Option (Unit {0} × Machine W)
  fpush inst m = push_value (m.fregs (rs inst)) m

  unfoldable pub fpop : ℕ → Machine W → Option (Unit {0} × Machine W)
  fpop inst m =
      and_then (pop dv trig m) (with_popped (λ v m1. advance_pc (set_freg (rd inst) v m1)))

  -- The loop of `PUSHM`, `left` registers still to be looked at, the highest first.
  unfoldable pub push_masked : ℕ → ℕ → Machine W → Option (Unit {0} × Machine W)
  push_masked mask zero m = some (tt, m)
  push_masked mask (suc i) m = elim (mask / 2 ^ i % 2 == 0) [
    | true ↦ push_masked mask i m
    | false ↦ elim (push dv trig (get_reg i m) m) [
      | none ↦ none
      | some r ↦ elim r.0 [ true ↦ push_masked mask i r.1 | false ↦ some (tt, r.1) ]
    ]
  ]

  unfoldable pub pushm : ℕ → Machine W → Option (Unit {0} × Machine W)
  pushm inst m =
      let mask = imm16 inst in
      if not (has_stack_room (count_ones 16 mask * 4) m)
      then faulting dv trig int_stack_overflow tt m
      else and_then (push_masked mask 16 m) (λ t m1. some (tt, advance_pc m1))

  -- The loop of `POPM`, the lowest register first.
  unfoldable pub pop_masked : ℕ → ℕ → ℕ → Machine W → Option (Unit {0} × Machine W)
  pop_masked mask zero i m = some (tt, m)
  pop_masked mask (suc left) i m = elim (mask / 2 ^ i % 2 == 0) [
    | true ↦ pop_masked mask left (i + 1) m
    | false ↦ elim (pop dv trig m) [
      | none ↦ none
      | some r ↦ elim r.0 [
        | none ↦ some (tt, r.1)
        | some v ↦ pop_masked mask left (i + 1) (set_reg i v r.1)
      ]
    ]
  ]

  unfoldable pub popm : ℕ → Machine W → Option (Unit {0} × Machine W)
  popm inst m =
      let mask = imm16 inst in
      if not (has_stack_data (count_ones 16 mask * 4) m)
      then faulting dv trig int_stack_overflow tt m
      else and_then (pop_masked mask 16 0 m) (λ t m1. some (tt, advance_pc m1))

  unfoldable pub enter : ℕ → Machine W → Option (Unit {0} × Machine W)
  enter inst m =
      let frame_size = imm16 inst in
      if not (has_stack_room (4 + frame_size) m)
      then faulting dv trig int_stack_overflow tt m
      else and_then (push dv trig (fp m) m) (λ pushed_ok m1.
        some (tt, advance_pc (set_sp (sub32 (sp m1) frame_size) (set_fp (sp m1) m1))))

  unfoldable pub leave : Machine W → Option (Unit {0} × Machine W)
  leave m =
      and_then (pop dv trig (set_sp (fp m) m)) (with_popped (λ v m1. advance_pc (set_fp v m1)))

  unfoldable pub illegal : ℕ → Machine W → Option (Unit {0} × Machine W)
  illegal reason m =
      faulting dv trig int_illegal_instruction tt (note_fault m.pc access_execute 4 reason m)

  unfoldable pub trap_instruction : Machine W → Option (Unit {0} × Machine W)
  trap_instruction m = faulting dv trig int_trap tt (advance_pc m)

  unfoldable pub reset_instruction : Machine W → Option (Unit {0} × Machine W)
  reset_instruction m = faulting dv trig int_reset tt m

  unfoldable pub int : ℕ → Machine W → Option (Unit {0} × Machine W)
  int inst m =
      if leb 64 (imm8 inst)
      then illegal reason_bad_subfield m
      else faulting dv trig (imm8 inst) tt (advance_pc m)
