-- ===== src/Engine/Tests.antt =====
-- A machine of 8 KiB whose vector 17 is 0x1000, with no devices.
use ceres_vm.Prelude.{
  ℕ, ◌+◌, ◌-◌, ◌*◌, ◌/◌, ◌%◌, ◌^◌, ◌<◌, ◌≡◌, refl, Bool, true, false, not, ◌&&◌, Option, none, some,
  inr, [], arith,
}
use ceres_vm.Prelude.Tests.{ltb, leb, ◌==◌}
use ceres_vm.Prelude.Words.{top_bit}
use ceres_vm.Memory.{Memory, put, read_raw}
use ceres_vm.Scheduler.{no_scheduled_event}
use ceres_vm.Isa.{rd, rs, rt, get, sign_extend}
use ceres_vm.Engine.State.{
  Machine, Devices, get_flag, set_flag, flag_on, carry_flag, paging_flag, get_reg, set_reg, sp,
  set_sp, charge, advance_pc,
}
use ceres_vm.Engine.SystemStack.{IsMachineMemory}
use ceres_vm.Engine.Interrupts.{saved_flags, trigger, iret}
use ceres_vm.Engine.Untouched.{IsUntouched}
use ceres_vm.Engine.Delivery.{IsTaken, IsEntered, trigger-IsEntered, iret-trigger}
use ceres_vm.Engine.Alu.{
  b2n, result_flags, execute_add, execute_sub, execute_unsigned_div, execute_unsigned_mod,
}
use ceres_vm.Engine.Alu.Sums.{
  HasResult, signed_sum_fits, signed_difference_fits, execute_add-HasResult, execute_sub-HasResult,
}
use ceres_vm.Engine.Alu.Divide.{unsigned_div_mod}
use ceres_vm.Engine.Execute.{addc, arithmetic, compare_values, holds, le}
use ceres_vm.Engine.Execute.Jumps.{asks, holds-compare_values}
use ceres_vm.Engine.Execute.Carry.{addc_carry}
use ceres_vm.Engine.Transfers.{displaced, load, store, load_address, store_address, call, ret}
use ceres_vm.Engine.Transfers.Stack.{IsOnStack, after_call, ret-call}
use ceres_vm.Engine.Transfers.Loads.{IsWritable, after_store, load-store}

abbrev ram : Memory
ram = record { size = 8192; bytes = put (λ _. 0) 69 16 }

-- Interrupts on; r2 is 0x600, r3 is 2 ^ 32 - 1, and sp stands below the system stack.
abbrev program : Machine (Unit {0})
program = record {
  regs = put (put (put (λ _. 0) 15 4096) 2 0x600) 3 0xFFFF_FFFF;
  fregs = λ _. 0;
  pc = 0x800;
  flags = 2 ^ 4;
  memory = ram;
  vram = record { size = 16384; bytes = λ _. 0; written = λ _. 0 };
  interrupts = record { pending = 0; raises = 0 };
  scheduler = record { events = []; next = no_scheduled_event };
  mmu = record { ptbr = 0; tlb = []; tlb_next_victim = 0; fault_address = 0 };
  devices = tt;
  faulted = false;
  executed_instructions = 0;
  cycles = 0;
  stack_limit = 0x400;
  stack_floor = 0x400;
  interrupt_depth = 0;
  saved_stack_pointer = 0;
  interrupt_shadow = false;
  raises_consumed = 0;
  stopped_for_good = false;
  fault_address = 0;
  fault_access = 0;
  fault_reason = 0;
  strict_mmio = false;
  division_faults = false;
  ieee_divide = false;
  text_start = 0;
  text_end = 0;
}

abbrev nothing : Devices (Unit {0})
nothing = record {
  declares = λ p m. false;
  mmio_read = λ p m. (0, m);
  mmio_write = λ p v m. m;
  admit_store = λ p m. (true, m);
  on_event = λ e m. m;
}

-- An entry that is never made.
abbrev no_entry : ℕ → Machine (Unit {0}) → Option (Bool × Machine (Unit {0}))
no_entry number m = none

ram-IsMachineMemory : IsMachineMemory ram
ram-IsMachineMemory = record { least = omega arith; most = omega arith; bytes = λ i. ground arith }

taken : IsTaken 17 program
unfolding get_flag read_raw
taken = record { unmasked = refl; handled = refl }

trigger-IsEntered_example :
    (m' : Machine (Unit {0})) × (trigger nothing 1 17 program ≡ some (true, m'))
    × IsEntered 17 program m'
trigger-IsEntered_example =
    trigger-IsEntered nothing 0 17 program ram-IsMachineMemory refl refl taken

iret-trigger_example :
    (m' back : Machine (Unit {0})) × (trigger nothing 1 17 program ≡ some (true, m'))
    × (iret nothing no_entry (record m' { faulted = false }) ≡ some (tt, back))
    × (back.pc ≡ program.pc % 2 ^ 32)
    × (back.flags ≡ saved_flags program % 2 ^ 32)
    × ((r : ℕ) → back.regs r ≡ program.regs r)
    × ((a : ℕ) → a + 8 < program.memory.size → back.memory.bytes a ≡ program.memory.bytes a)
    × (back.interrupt_depth ≡ 0)
    × (back.faulted ≡ false)
    × (back.memory.size ≡ program.memory.size)
    × (back.cycles ≡ (program.cycles + 18) % 2 ^ 64)
    × IsUntouched program back
iret-trigger_example =
    iret-trigger nothing 0 17 program ram-IsMachineMemory refl refl taken no_entry

-- In the handler, with a frame that holds 0x800 and 0x10.
abbrev handler : Machine (Unit {0})
handler = record program {
  regs = put program.regs 15 8184;
  memory = record { size = 8192; bytes = put (put ram.bytes 8185 8) 8188 16 };
  interrupt_depth = 1;
  saved_stack_pointer = 4096;
}

execute_add-HasResult_example :
    HasResult 1
      ((0x7FFF_FFFF + 1) % 2 ^ 32)
      (leb (2 ^ 32) (0x7FFF_FFFF + 1))
      (not (signed_sum_fits 0x7FFF_FFFF 1))
      (execute_add 1 0x7FFF_FFFF 1 program)
execute_add-HasResult_example =
    execute_add-HasResult 1 0x7FFF_FFFF 1 program (omega arith) (omega arith)

execute_sub-HasResult_example :
    HasResult 1
      ((3 + 2 ^ 32 - 5) % 2 ^ 32)
      (ltb 3 5)
      (not (signed_difference_fits 3 5))
      (execute_sub 1 3 5 program)
execute_sub-HasResult_example = execute_sub-HasResult 1 3 5 program (omega arith) (omega arith)

unsigned_div_mod_example :
    (q r : Machine (Unit {0})) × (execute_unsigned_div nothing no_entry 4 17 5 program
      ≡ some (tt, q))
    × (execute_unsigned_mod nothing no_entry 5 17 5 program ≡ some (tt, r))
    × (get_reg 4 q * 5 + get_reg 5 r ≡ 17)
    × (get_reg 5 r < 5)
    × HasResult 4 (17 / 5) false false q
    × HasResult 5 (17 % 5) false false r
unsigned_div_mod_example =
    unsigned_div_mod nothing no_entry 4 5 17 5 program (omega arith) (omega arith)

holds-compare_values_example :
    holds le (compare_values 0xFFFF_FFFE 3 program) ≡ asks le 0xFFFF_FFFE 3
holds-compare_values_example =
    holds-compare_values 0xFFFF_FFFE 3 program (omega arith) (omega arith) le

-- `addc r1, r2, r3` with a carry, r3 being 2 ^ 32 - 1.
abbrev carrying : Machine (Unit {0})
carrying = record program { flags = 2 ^ 2 }

carrying-lt : (r : ℕ) → carrying.regs r < 2 ^ 32
carrying-lt r = ground arith

lost_carry : flag_on carry_flag (arithmetic addc 0x0012_3000 carrying) ≡ false
unfolding arithmetic execute_add get_flag set_flag result_flags get top_bit
lost_carry = refl

addc_carry_example :
    (get_reg (rd 0x0012_3000) (arithmetic addc 0x0012_3000 carrying)
      ≡ (get_reg (rs 0x0012_3000) carrying
          + get_reg (rt 0x0012_3000) carrying
          + b2n (flag_on carry_flag carrying))
        % 2 ^ 32)
    × (flag_on carry_flag (arithmetic addc 0x0012_3000 carrying) ≡ (
        leb (2 ^ 32) (
          get_reg (rs 0x0012_3000) carrying
          + get_reg (rt 0x0012_3000) carrying
          + b2n (flag_on carry_flag carrying))
        && not (get_reg (rt 0x0012_3000) carrying == 2 ^ 32 - 1 && flag_on carry_flag carrying)))
addc_carry_example =
    addc_carry 0x0012_3000 carrying (carrying-lt (rs 0x0012_3000)) (carrying-lt (rt 0x0012_3000))

program-IsOnStack : IsOnStack program
unfolding get_flag
program-IsOnStack = record {
  fits = ram-IsMachineMemory;
  off = refl;
  low = omega arith;
  room = refl;
  under = refl;
  calm = refl;
}

program-off : flag_on paging_flag program ≡ false
unfolding get_flag
program-off = refl

-- `call` of 16 bytes ahead.
ret-call_example :
    (call nothing no_entry 16 program ≡ some (tt, after_call 16 program))
    × (ret nothing no_entry (after_call 16 program)
        ≡ some (
          tt,
          record (charge 2 (set_sp (sp program) (after_call 16 program))) {
            pc = (program.pc + 4) % 2 ^ 32;
          },
        ))
ret-call_example =
    ret-call nothing no_entry 16 program (after_call 16 program) program-IsOnStack refl refl
      program-off refl refl

-- `str [r2 + 8], r3`.
store-address : store_address displaced 0x0023_0008 program ≡ 0x608
unfolding store_address get sign_extend
store-address = refl

store-IsWritable : IsWritable 4 (store_address displaced 0x0023_0008 program) program
unfolding store_address get sign_extend
store-IsWritable = record {
  aligned = refl;
  low = omega arith;
  high = omega arith;
  outside_text = refl;
}

abbrev stored : Machine (Unit {0})
stored = after_store nothing no_entry 4 displaced 0x0023_0008 program

load-store_example :
    (store nothing no_entry 4 displaced 0x0023_0008 program ≡ some (tt, stored))
    × (load nothing no_entry 4 false displaced 0x0042_0008 stored
        ≡ some (
          tt,
          advance_pc (
              set_reg
                (rd 0x0042_0008)
                (get_reg (rs 0x0023_0008) program % 2 ^ (8 * 4))
                (charge 2 stored)),
        ))
unfolding store_address load_address get
load-store_example =
    load-store nothing no_entry 4 displaced displaced 0x0023_0008 0x0042_0008 program stored
      (inr (inr refl)) ram-IsMachineMemory program-off store-IsWritable refl program-off refl refl
