-- ===== src/Engine/Access.antt =====
-- Loads, stores and the stack (translate, read, write, push, pop and their checks). An access that
-- fails raises an interrupt, whose entry stores to the stack and can fail in turn: the functions here
-- take the interrupt's entry as an argument, `trig`, and Interrupts ties the knot. `none` is a host
-- call stack that has run out.
use ceres_vm.Prelude.{ℕ, ◌+◌, ◌-◌, ◌%◌, Bool, true, false, not, ◌&&◌, ◌||◌, Option, none, some}
use ceres_vm.Prelude.Tests.{ltb, leb, ◌==◌, if◌then◌else◌}
use ceres_vm.Prelude.Words.{add32, sub32}
use ceres_vm.Memory.{read_backed, write_backed, unrestricted_start, ram_limit}
use ceres_vm.Vram
use ceres_vm.Mmu
use ceres_vm.Mmu.{MmuAccess}
use ceres_vm.Vram.{vram_base, in_window, backs}
use ceres_vm.Engine.State.{
  Machine, Devices, paging_flag, flag_on, system_stack_floor, mmio_base, note_fault, access_read,
  access_write, access_execute, int_page_fault, int_memory_fault, int_alignment_fault,
  int_stack_overflow, reason_none, reason_alignment, reason_out_of_ram, reason_out_of_vram,
  reason_unmapped, reason_mmio_width, reason_mmio_undeclared, charge, sp, set_sp, has_stack_room,
  has_stack_data, set_reg, advance_pc,
}

-- The next step after one that may not return.
abbrev pub and_then :
    {W A B : Type 0}
    → Option (A × Machine W)
    → (A → Machine W → Option (B × Machine W))
    → Option (B × Machine W)
and_then none k = none
and_then (some (a, m)) k = k a m

abbrev pub fault_access_of : MmuAccess → ℕ
fault_access_of MmuAccess.read = access_read
fault_access_of MmuAccess.write = access_write
fault_access_of MmuAccess.execute = access_execute

abbrev pub unbacked_reason : ℕ → ℕ
unbacked_reason physical =
    if ltb physical ram_limit
    then reason_out_of_ram
    else if in_window physical
    then reason_out_of_vram
    else reason_unmapped

-- Addresses that no page table describes.
abbrev pub is_physical : {W : Type 0} → ℕ → Machine W → Bool
is_physical address m =
    ltb address unrestricted_start
    || (leb (system_stack_floor m) address && ltb address m.memory.size)
    || leb mmio_base address

unfoldable pub reaches_device : {W : Type 0} → ℕ → Machine W → Bool
reaches_device address m =
    if leb mmio_base address
    then true
    else if not (flag_on paging_flag m)
    then false
    else elim (Mmu.probe address m.memory m.mmu) [ none ↦ false | some p ↦ leb mmio_base p ]

-- `loaded`
abbrev pub loaded : {W : Type 0} → ℕ → ℕ → Machine W → Machine W
loaded dest value m = if m.faulted then m else advance_pc (set_reg dest value m)

module _ {W : Type 0} (dv : Devices W) (trig : ℕ → Machine W → Option (Bool × Machine W)) where
  -- An interrupt raised on behalf of an access, which then gives `result`.
  abbrev pub faulting : {A : Type 0} → ℕ → A → Machine W → Option (A × Machine W)
  faulting number result m = and_then (trig number m) (λ entered m'. some (result, m'))

  unfoldable pub translate : ℕ → MmuAccess → Machine W → Option (Option ℕ × Machine W)
  translate address access m =
      if not (flag_on paging_flag m)
      then some (some address, m)
      else if is_physical address m
      then some (some address, m)
      else let r = Mmu.translate address access m.memory m.mmu in
        let m' = record m { memory = r.1; mmu = r.2 } in
        elim r.0 [
          | some physical ↦ some (some physical, m')
          | none ↦
              faulting int_page_fault none
                (note_fault address (fault_access_of access) 0 reason_none m')
        ]

  abbrev pub unbacked : {A : Type 0} → A → ℕ → ℕ → ℕ → ℕ → Machine W → Option (A × Machine W)
  unbacked result address physical access size m =
      faulting int_memory_fault result (note_fault address access size (unbacked_reason physical) m)

  unfoldable pub read_outside_ram : ℕ → ℕ → ℕ → Bool → Machine W → Option (ℕ × Machine W)
  read_outside_ram n address p charge_memory m =
      if backs p n m.vram
      then some (Vram.read n (p - vram_base) m.vram, if charge_memory then charge 3 m else m)
      else if leb mmio_base p
      then if not (n == 4)
        then faulting int_memory_fault 0 (note_fault address access_read n reason_mmio_width m)
        else if m.strict_mmio && not (dv.declares p m)
        then faulting int_memory_fault 0 (note_fault address access_read n reason_mmio_undeclared m)
        else some (dv.mmio_read p (charge 4 m))
      else unbacked 0 address p access_read n m

  -- `read<T>` with sizeof(T) = n, the bits as a number.
  unfoldable pub read : ℕ → ℕ → Bool → Machine W → Option (ℕ × Machine W)
  read n address charge_memory m = and_then (translate address MmuAccess.read m) (λ physical m'.
      elim physical [
        | none ↦ some (0, m')
        | some p ↦
            if ltb p vram_base
            then if ltb (m'.memory.size - n) p
              then unbacked 0 address p access_read n m'
              else some (
                read_backed unrestricted_start n p m'.memory,
                if charge_memory then charge 2 m' else m',
              )
            else read_outside_ram n address p charge_memory m'
      ])

  unfoldable pub write_outside_ram :
      ℕ → ℕ → ℕ → ℕ → Bool → Machine W → Option (Unit {0} × Machine W)
  write_outside_ram n address p value charge_memory m =
      if backs p n m.vram
      then (let gate = dv.admit_store p (if charge_memory then charge 3 m else m) in
          some (
            tt,
            if gate.0
                then record gate.1 { vram = Vram.write n (p - vram_base) value gate.1.vram }
                else gate.1,
          ))
      else if leb mmio_base p
      then if not (n == 4)
        then faulting int_memory_fault tt (note_fault address access_write n reason_mmio_width m)
        else if m.strict_mmio && not (dv.declares p m)
        then faulting int_memory_fault tt
            (note_fault address access_write n reason_mmio_undeclared m)
        else some (tt, dv.mmio_write p value (charge 4 m))
      else unbacked tt address p access_write n m

  unfoldable pub write : ℕ → ℕ → ℕ → Bool → Machine W → Option (Unit {0} × Machine W)
  write n address value charge_memory m =
      and_then (translate address MmuAccess.write m) (λ physical m'. elim physical [
        | none ↦ some (tt, m')
        | some p ↦
            if ltb p vram_base
            then if ltb (m'.memory.size - n) p
              then unbacked tt address p access_write n m'
              else some (
                tt,
                record (if charge_memory then charge 2 m' else m') {
                  memory = write_backed unrestricted_start n p value m'.memory;
                },
              )
            else write_outside_ram n address p value charge_memory m'
      ])

  -- `checkAlignment<T>`
  unfoldable pub check_alignment : ℕ → ℕ → ℕ → Machine W → Option (Bool × Machine W)
  unfolding reaches_device
  check_alignment n address access m =
      if leb n 1
      then some (true, m)
      else if address % n == 0
      then some (true, m)
      else faulting int_alignment_fault false (
          note_fault address access n
            (if reaches_device address m then reason_mmio_width else reason_alignment) m)

  unfoldable pub check_writable : ℕ → ℕ → Machine W → Option (Bool × Machine W)
  check_writable address size m =
      if ltb address unrestricted_start
        || (ltb m.text_start m.text_end
            && (ltb address m.text_end && ltb m.text_start (address + size)))
      then faulting int_memory_fault false (note_fault address access_write size reason_none m)
      else some (true, m)

  -- `push<u32>`; the result says whether it went through.
  unfoldable pub push : ℕ → Machine W → Option (Bool × Machine W)
  push value m =
      if not (has_stack_room 4 m)
      then faulting int_stack_overflow false m
      else let saved = sp m in
        and_then (write 4 (sub32 saved 4) value true (set_sp (sub32 saved 4) m))
          (λ t m'. if m'.faulted then some (false, set_sp saved m') else some (true, m'))

  -- `pop<u32>`
  unfoldable pub pop : Machine W → Option (Option ℕ × Machine W)
  pop m =
      if not (has_stack_data 4 m)
      then faulting int_stack_overflow none m
      else and_then (read 4 (sp m) true m) (λ value m'.
        if m'.faulted then some (none, m') else some (some value, set_sp (add32 (sp m') 4) m'))
