-- ===== src/Engine/State.antt =====
-- The engine's state and what reads or changes it alone: registers, flags, faults, stack limits. The
-- observers and the profile's counters, which no instruction reads, are left out.
use ceres_vm.Prelude.{ℕ, ◌+◌, ◌-◌, ◌*◌, ◌%◌, ◌^◌, bit_and, bit_or, Bool, not, ◌&&◌}
use ceres_vm.Prelude.Tests.{ltb, leb, ◌==◌, if◌then◌else◌}
use ceres_vm.Prelude.Words.{u32, add32}
use ceres_vm.Memory.{Memory, put, system_stack_size}
use ceres_vm.Vram.{Vram}
use ceres_vm.Interrupt.{InterruptController}
use ceres_vm.Scheduler.{Scheduler, Event}
use ceres_vm.Mmu.{Mmu}

-- `W` is the state of the devices on the bus. `_nextEvent` is `scheduler.next`, which the scheduler
-- keeps in step with it.
pub record Machine (W : Type 0) : Type 0 where
  pub regs : ℕ → ℕ
  pub fregs : ℕ → ℕ
  pub pc : ℕ
  pub flags : ℕ
  pub memory : Memory
  pub vram : Vram
  pub interrupts : InterruptController
  pub scheduler : Scheduler
  pub mmu : Mmu
  pub devices : W
  pub faulted : Bool
  pub executed_instructions : ℕ
  pub cycles : ℕ
  pub stack_limit : ℕ
  pub stack_floor : ℕ
  pub interrupt_depth : ℕ
  pub saved_stack_pointer : ℕ
  pub interrupt_shadow : Bool
  pub raises_consumed : ℕ
  pub stopped_for_good : Bool
  pub fault_address : ℕ
  pub fault_access : ℕ
  pub fault_reason : ℕ
  pub strict_mmio : Bool
  pub division_faults : Bool
  pub ieee_divide : Bool
  pub text_start : ℕ
  pub text_end : ℕ

-- What the engine asks of the devices. Their state is `W`; a device may change the machine that it is
-- attached to, so an access takes and gives the whole of it.
pub record Devices (W : Type 0) : Type 0 where
  pub declares : ℕ → Machine W → Bool
  pub mmio_read : ℕ → Machine W → ℕ × Machine W
  pub mmio_write : ℕ → ℕ → Machine W → Machine W
  pub admit_store : ℕ → Machine W → Bool × Machine W
  pub on_event : Event → Machine W → Machine W

-- `ExecutionFlag`, as the numbers of the bits.
abbrev pub zero_flag : ℕ
zero_flag = 0

abbrev pub sign_flag : ℕ
sign_flag = 1

abbrev pub carry_flag : ℕ
carry_flag = 2

abbrev pub overflow_flag : ℕ
overflow_flag = 3

abbrev pub interrupt_flag : ℕ
interrupt_flag = 4

abbrev pub halting_flag : ℕ
halting_flag = 5

abbrev pub trap_flag : ℕ
trap_flag = 6

abbrev pub paging_flag : ℕ
paging_flag = 7

-- `FlagRegister`: `get`, `set`, `clear` and `setFlag`.
unfoldable pub get_flag : ℕ → ℕ → Bool
get_flag flag word = not (bit_and word (2 ^ flag) == 0)

unfoldable pub raise_flag : ℕ → ℕ → ℕ
raise_flag flag word = bit_or word (2 ^ flag)

unfoldable pub clear_flag : ℕ → ℕ → ℕ
clear_flag flag word = bit_and word (2 ^ 32 - 1 - 2 ^ flag)

unfoldable pub set_flag : ℕ → Bool → ℕ → ℕ
unfolding raise_flag clear_flag
set_flag flag value word = if value then raise_flag flag word else clear_flag flag word

-- `FaultReason`
abbrev pub reason_none : ℕ
reason_none = 0

abbrev pub reason_alignment : ℕ
reason_alignment = 1

abbrev pub reason_out_of_ram : ℕ
reason_out_of_ram = 2

abbrev pub reason_out_of_vram : ℕ
reason_out_of_vram = 3

abbrev pub reason_unmapped : ℕ
reason_unmapped = 4

abbrev pub reason_mmio_width : ℕ
reason_mmio_width = 5

abbrev pub reason_mmio_undeclared : ℕ
reason_mmio_undeclared = 7

abbrev pub reason_register_pair : ℕ
reason_register_pair = 8

abbrev pub reason_bad_subfield : ℕ
reason_bad_subfield = 10

-- `InterruptNumber`
abbrev pub int_reset : ℕ
int_reset = 0

abbrev pub int_trap : ℕ
int_trap = 1

abbrev pub int_illegal_instruction : ℕ
int_illegal_instruction = 2

abbrev pub int_memory_fault : ℕ
int_memory_fault = 3

abbrev pub int_division_by_zero : ℕ
int_division_by_zero = 4

abbrev pub int_stack_overflow : ℕ
int_stack_overflow = 5

abbrev pub int_alignment_fault : ℕ
int_alignment_fault = 6

abbrev pub int_page_fault : ℕ
int_page_fault = 7

-- `FaultAccess`
abbrev pub access_read : ℕ
access_read = 1

abbrev pub access_write : ℕ
access_write = 2

abbrev pub access_execute : ℕ
access_execute = 3

abbrev pub mmio_base : ℕ
mmio_base = 0xFF00_0000

module _ {W : Type 0} where
  abbrev pub get_reg : ℕ → Machine W → ℕ
  get_reg r m = m.regs r

  abbrev pub set_reg : ℕ → ℕ → Machine W → Machine W
  set_reg r v m = record m { regs = put m.regs r v }

  abbrev pub sp : Machine W → ℕ
  sp m = m.regs 15

  abbrev pub set_sp : ℕ → Machine W → Machine W
  set_sp v m = set_reg 15 v m

  abbrev pub fp : Machine W → ℕ
  fp m = m.regs 14

  abbrev pub set_fp : ℕ → Machine W → Machine W
  set_fp v m = set_reg 14 v m

  abbrev pub flag_on : ℕ → Machine W → Bool
  flag_on flag m = get_flag flag m.flags

  abbrev pub put_flag : ℕ → Bool → Machine W → Machine W
  put_flag flag value m = record m { flags = set_flag flag value m.flags }

  abbrev pub advance_pc : Machine W → Machine W
  advance_pc m = record m { pc = if m.faulted then m.pc else add32 m.pc 4 }

  abbrev pub charge : ℕ → Machine W → Machine W
  charge n m = record m { cycles = (m.cycles + n) % 2 ^ 64 }

  abbrev pub system_stack_floor : Machine W → ℕ
  system_stack_floor m = u32 (m.memory.size - system_stack_size)

  abbrev pub note_fault : ℕ → ℕ → ℕ → ℕ → Machine W → Machine W
  note_fault address access size reason m = record m {
    fault_address = address;
    fault_access = bit_or access (u32 (size * 2 ^ 8));
    fault_reason = reason;
  }

  abbrev pub has_stack_room : ℕ → Machine W → Bool
  has_stack_room count m =
      leb (add32 (if ltb 0 m.interrupt_depth then system_stack_floor m else m.stack_limit) count)
        (sp m)

  abbrev pub has_stack_data : ℕ → Machine W → Bool
  has_stack_data count m =
      leb (sp m + count) (if ltb 0 m.interrupt_depth then m.memory.size else system_stack_floor m)

  -- `setProgramStackLimit`
  unfoldable pub set_program_stack_limit : ℕ → Machine W → Machine W
  set_program_stack_limit lowest m = record m {
    stack_limit = if ltb m.stack_floor lowest then lowest else m.stack_floor;
  }

  -- `setStackLimit`
  unfoldable pub set_stack_limit : ℕ → Machine W → Machine W
  set_stack_limit lowest m = record m { stack_limit = lowest; stack_floor = lowest }

  unfoldable pub has_wake_event : Machine W → Bool
  has_wake_event m = not (m.interrupts.raises == m.raises_consumed)

  unfoldable pub set_wake_event : Bool → Machine W → Machine W
  set_wake_event pending m = record m {
    raises_consumed =
        if pending && not (m.interrupts.raises == 0)
        then m.interrupts.raises - 1
        else m.interrupts.raises;
  }
