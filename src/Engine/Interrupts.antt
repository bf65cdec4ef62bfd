-- ===== src/Engine/Interrupts.antt =====
-- The entry of an interrupt and the way back, HALT, and the step of the machine. `execute` of an
-- instruction word is an argument of `step`.
use ceres_vm.Prelude.{
  ℕ, zero, suc, ◌+◌, ◌-◌, ◌*◌, ◌/◌, ◌%◌, ◌^◌, Bool, true, false, not, ◌&&◌, ◌||◌, Option, none,
  some,
}
use ceres_vm.Prelude.Tests.{ltb, leb, ◌==◌, if◌then◌else◌}
use ceres_vm.Prelude.Words.{u32}
use ceres_vm.Memory.{read_raw, read_backed, system_stack_size}
use ceres_vm.Vram
use ceres_vm.Vram.{vram_base, backs}
use ceres_vm.Mmu
use ceres_vm.Mmu.{MmuAccess}
use ceres_vm.Interrupt
use ceres_vm.Interrupt.{reserved_interrupt_count}
use ceres_vm.Scheduler
use ceres_vm.Scheduler.{Event, Scheduler, no_scheduled_event}
use ceres_vm.Engine.State.{
  Machine, Devices, raise_flag, clear_flag, interrupt_flag, halting_flag, trap_flag, flag_on, sp,
  set_sp, has_stack_room, advance_pc, charge, mmio_base, note_fault, access_execute,
  int_memory_fault, reason_mmio_width,
}
use ceres_vm.Engine.Access.{and_then, faulting, push, pop, translate, unbacked_reason}

module _ {W : Type 0} where
  unfoldable pub reset : Machine W → Machine W
  reset m = record m {
    regs = λ i. if i == 15 then u32 (m.memory.size - system_stack_size) else 0;
    flags = 0;
    pc = read_raw 0 4 0 m.memory;
    interrupt_depth = 0;
    saved_stack_pointer = 0;
    interrupt_shadow = false;
    raises_consumed = m.interrupts.raises;
    stopped_for_good = false;
    fault_address = 0;
    fault_access = 0;
    cycles = 0;
    fault_reason = 0;
    stack_limit = m.stack_floor;
    executed_instructions = 0;
    mmu = Mmu.reset m.mmu;
  }

  unfoldable pub handle_halt : Machine W → Machine W
  handle_halt m = advance_pc (
      if not (m.interrupts.raises == m.raises_consumed)
      then record m { raises_consumed = m.interrupts.raises }
      else record m { flags = raise_flag halting_flag m.flags })

  unfoldable pub leave_interrupt : Machine W → Machine W
  leave_interrupt m =
      if m.interrupt_depth == 0
      then m
      else let outer = record m { interrupt_depth = m.interrupt_depth - 1 } in
        if m.interrupt_depth - 1 == 0 then set_sp m.saved_stack_pointer outer else outer

  -- The handler that a vector of the table names.
  abbrev pub handler_of : ℕ → Machine W → ℕ
  handler_of number m = read_raw 0 4 (number * 4) m.memory

  -- `triggerInterrupt` up to its pushes: the switch of the outermost interrupt to the system stack.
  unfoldable pub enter_system_stack : Machine W → Machine W
  enter_system_stack m =
      let outermost = m.interrupt_depth == 0 in
      record m {
        saved_stack_pointer = if outermost then sp m else m.saved_stack_pointer;
        regs = if outermost then (set_sp (u32 m.memory.size) m).regs else m.regs;
        interrupt_depth = u32 (m.interrupt_depth + 1);
      }

  -- The flags that an interrupt saves: all but Halting.
  abbrev pub saved_flags : Machine W → ℕ
  saved_flags m = clear_flag halting_flag m.flags

  -- The last part of `triggerInterrupt`, after the pushes.
  abbrev pub redirect : ℕ → ℕ → Machine W → Machine W
  redirect handler entry_start m = record m {
    cycles = (entry_start + 12) % 2 ^ 64;
    flags = clear_flag halting_flag (clear_flag interrupt_flag m.flags);
    pc = handler;
    faulted = true;
  }

module _ {W : Type 0} (dv : Devices W) where
  -- `triggerInterrupt`, over the entry that a failing push of its own makes.
  unfoldable pub dispatch :
      (ℕ → Machine W → Option (Bool × Machine W)) → ℕ → Machine W → Option (Bool × Machine W)
  dispatch trig number m =
      if not (flag_on interrupt_flag m) && leb reserved_interrupt_count number
      then some (false, m)
      else if handler_of number m == 0
      then some (false, m)
      else let m1 = enter_system_stack m in
        if not (has_stack_room 8 m1)
        then some (
          false,
          leave_interrupt (record m1 {
            flags = raise_flag halting_flag (raise_flag trap_flag m1.flags);
            stopped_for_good = true;
          }),
        )
        else and_then (push dv trig (saved_flags m1) m1) (λ b m2.
          and_then (push dv trig m2.pc m2)
            (λ b' m3. some (true, redirect (handler_of number m) m1.cycles m3)))

  -- `fuel` bounds the depth of the host's call stack.
  unfoldable pub trigger : ℕ → ℕ → Machine W → Option (Bool × Machine W)
  trigger zero number m = none
  trigger (suc fuel) number m = dispatch (trigger fuel) number m

module _ {W : Type 0} (dv : Devices W) (trig : ℕ → Machine W → Option (Bool × Machine W)) where
  unfoldable pub iret : Machine W → Option (Unit {0} × Machine W)
  iret m = and_then (pop dv trig m) (λ new_pc m1. elim new_pc [
    | none ↦ some (tt, m1)
    | some pc ↦ and_then (pop dv trig m1) (λ new_flags m2. elim new_flags [
      | none ↦ some (tt, m2)
      | some flags ↦ some (
        tt,
        record (leave_interrupt (record m2 { pc = pc; flags = flags })) {
          cycles = (m.cycles + 6) % 2 ^ 64;
        },
      )
    ])
  ])

  -- `fetchOutsideRam`
  unfoldable pub fetch_outside_ram : ℕ → Machine W → Option (ℕ × Machine W)
  fetch_outside_ram physical m =
      if backs physical 4 m.vram
      then some (Vram.read 4 (physical - vram_base) m.vram, m)
      else faulting dv trig int_memory_fault 0 (
          note_fault m.pc access_execute 4
            (if leb mmio_base physical then reason_mmio_width else unbacked_reason physical) m)

  unfoldable pub fetch : Machine W → Option (ℕ × Machine W)
  fetch m = and_then (translate dv trig m.pc MmuAccess.execute m) (λ physical m'. elim physical [
    | none ↦ some (0, m')
    | some p ↦
        if leb p (m'.memory.size - 4)
        then some (read_backed 0 4 p m'.memory, m')
        else fetch_outside_ram p m'
  ])

  -- Events that are due run at the clock's time. `none` is the scheduler's fuel.
  unfoldable pub service_events : ℕ → Machine W → Option (Machine W)
  service_events fuel m =
      elim (Scheduler.service
        (λ e s. let m' = dv.on_event e (record s.1 { scheduler = s.0 }) in (m'.scheduler, m')) fuel
        m.cycles (m.scheduler, m)) [ none ↦ none | some r ↦ some (record r.1 { scheduler = r.0 }) ]

  -- `haltedStep`. Where nothing is scheduled the source waits for the host for a while and changes
  -- nothing itself.
  unfoldable pub halted_step : ℕ → Machine W → Option (Machine W)
  halted_step fuel m =
      if m.scheduler.next == no_scheduled_event
      then some m
      else service_events fuel (record m {
        cycles = if ltb m.cycles m.scheduler.next then m.scheduler.next else m.cycles;
      })

  -- The request at the head of the queue: delivered if it may be, else left where it is.
  unfoldable pub deliver : Bool → ℕ → Machine W → Option (Machine W)
  deliver shadowed raises_seen m = elim (Interrupt.peek m.interrupts) [
    | none ↦ some m
    | some number ↦
        if (flag_on interrupt_flag m && not shadowed) || ltb number reserved_interrupt_count
        then elim (trig number (record m { interrupts = Interrupt.clear number m.interrupts })) [
          | none ↦ none
          | some r ↦ some (if r.0 then record r.1 { raises_consumed = raises_seen } else r.1)
        ]
        else some m
  ]

  -- The part of `step` that runs an instruction; `base_cost` is the table of the opcodes' cycles.
  unfoldable pub run_instruction :
      (ℕ → ℕ) → (ℕ → Machine W → Option (Machine W)) → Machine W → Option (Machine W)
  run_instruction base_cost execute m = elim (fetch (record m { faulted = false })) [
    | none ↦ none
    | some r ↦
        elim (if not r.1.faulted
          then execute r.0 (charge (base_cost (r.0 / 2 ^ 24 % 2 ^ 8)) r.1)
          else some r.1) [
            | none ↦ none
            | some m' ↦
                some (record m' { executed_instructions = (m'.executed_instructions + 1) % 2 ^ 64 })
          ]
  ]

  -- What `step` does once the pending request has been looked at.
  unfoldable pub wake_or_run :
      (ℕ → ℕ) → (ℕ → Machine W → Option (Machine W)) → ℕ → ℕ → Machine W → Option (Machine W)
  wake_or_run base_cost execute fuel raises_seen m =
      if flag_on halting_flag m
      then if not (raises_seen == m.raises_consumed) && not m.stopped_for_good
        then run_instruction base_cost execute
            (record m { raises_consumed = raises_seen; flags = clear_flag halting_flag m.flags })
        else halted_step fuel m
      else run_instruction base_cost execute m

  -- `step`, without the profile's counters.
  unfoldable pub step :
      (ℕ → ℕ) → (ℕ → Machine W → Option (Machine W)) → ℕ → Machine W → Option (Machine W)
  step base_cost execute fuel m =
      let shadowed = m.interrupt_shadow in
      let m0 = record m { interrupt_shadow = false } in
      elim (if leb m.scheduler.next m.cycles then service_events fuel m0 else some m0) [
        | none ↦ none
        | some m1 ↦ elim (deliver shadowed m1.interrupts.raises m1) [
          | none ↦ none
          | some m2 ↦ wake_or_run base_cost execute fuel m1.interrupts.raises m2
        ]
      ]
