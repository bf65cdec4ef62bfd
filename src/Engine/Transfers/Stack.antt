-- ===== src/Engine/Transfers/Stack.antt =====
-- The program's stack with paging off: push and pop, CALL and RET.
use ceres_vm.Prelude.{
  ℕ, ◌+◌, ◌-◌, ◌%◌, ◌^◌, ◌≤◌, ◌≡◌, refl, ap, ◌∙◌, Bool, true, false, Option, some, arith,
}
use ceres_vm.Prelude.Words.{add32, sub32}
use ceres_vm.Memory.{Memory, read_backed, write_backed, unrestricted_start}
use ceres_vm.Mmu.{MmuAccess}
use ceres_vm.Isa.{simm24}
use ceres_vm.Engine.State.{
  Machine, Devices, sp, set_sp, charge, has_stack_room, has_stack_data, flag_on, paging_flag,
}
use ceres_vm.Engine.Access.{translate, read, write, push, pop}
use ceres_vm.Engine.SystemStack.{
  IsMachineMemory, size-write_backed, read_backed-write_backed, write_backed-IsMachineMemory,
}
use ceres_vm.Engine.Transfers.{call, ret}

module _ {W : Type 0} (dv : Devices W) (trig : ℕ → Machine W → Option (Bool × Machine W))
    (m : Machine W) (fits : IsMachineMemory m.memory) (off : flag_on paging_flag m ≡ false) where
  pub translate_off :
      (address : ℕ) (access : MmuAccess)
      → translate dv trig address access m ≡ some (some address, m)
  unfolding translate
  translate_off address access = rw (translate, off) refl

  pub write_off :
      (n address value : ℕ)
      → n ≤ m.memory.size
      → address + n ≤ m.memory.size
      → write dv trig n address value true m
        ≡ some (
          tt,
          record (charge 2 m) { memory = write_backed unrestricted_start n address value m.memory },
        )
  unfolding write
  write_off n address value small h =
      rw (write, translate_off address MmuAccess.write) (ground (arith, fits.most))

  pub read_off :
      (n address : ℕ)
      → n ≤ m.memory.size
      → address + n ≤ m.memory.size
      → read dv trig n address true m
        ≡ some (read_backed unrestricted_start n address m.memory, charge 2 m)
  unfolding read
  read_off n address small h =
      rw (read, translate_off address MmuAccess.read) (ground (arith, fits.most))

-- A machine with a stack: paging off, sp in the RAM with a word of room below it and above the words
-- that a program cannot write, and no fault in this instruction.
pub record IsOnStack {W : Type 0} (m : Machine W) : Type 0 where
  pub fits : IsMachineMemory m.memory
  pub off : flag_on paging_flag m ≡ false
  pub low : unrestricted_start + 4 ≤ sp m
  pub room : has_stack_room 4 m ≡ true
  pub under : has_stack_data 0 m ≡ true
  pub calm : m.faulted ≡ false

module _ {W : Type 0} (dv : Devices W) (trig : ℕ → Machine W → Option (Bool × Machine W))
    (m : Machine W) (on : IsOnStack m) where
  high : sp m ≤ m.memory.size
  high = ground (arith, on.under, on.fits.least, on.fits.most)

  abbrev pub below_sp : ℕ → Machine W
  below_sp value = record (charge 2 (set_sp (sp m - 4) m)) {
    memory = write_backed unrestricted_start 4 (sp m - 4) value m.memory;
  }

  pub push_off : (value : ℕ) → push dv trig value m ≡ some (true, below_sp value)
  unfolding push
  push_off value =
      let below : sub32 (sp m) 4 ≡ sp m - 4 = omega (arith, on.fits.most, on.low, high) in
      rw
        (
          push,
          on.room,
          below,
          write_off dv trig (set_sp (sp m - 4) m) on.fits on.off 4 (sp m - 4) value
              (omega (arith, on.fits.least)) (omega (arith, on.low, high)),
        )
        (ground (arith, on.calm))

  below_fits : (value : ℕ) → IsMachineMemory (below_sp value).memory
  below_fits value =
      write_backed-IsMachineMemory (sp m - 4) m.memory (omega (arith, on.low))
        (omega (arith, on.low, high)) value on.fits

  -- The pop of what was pushed, from a machine that differs from the one after the push in what a pop
  -- does not look at.
  pub pop_off :
      (value : ℕ) (h : Machine W)
      → h.memory ≡ (below_sp value).memory
      → sp h ≡ sp m - 4
      → flag_on paging_flag h ≡ false
      → h.interrupt_depth ≡ m.interrupt_depth
      → h.faulted ≡ false
      → pop dv trig h ≡ some (some (value % 2 ^ 32), charge 2 (set_sp (sp m) h))
  unfolding pop
  pop_off value h memory stack off depth calm =
      let fits_h : IsMachineMemory h.memory = rw memory (below_fits value) in
      let size : h.memory.size ≡ m.memory.size =
        ap (λ (t : Memory). t.size) memory
        ∙ size-write_backed unrestricted_start 4 (sp m - 4) value m.memory in
      let there : has_stack_data 4 h ≡ true =
        ground (arith, on.under, on.low, depth, size, stack, on.fits.least, on.fits.most) in
      let got : read_backed unrestricted_start 4 (sp h) h.memory ≡ value % 2 ^ 32 =
        rw (memory, stack)
          (read_backed-write_backed (sp m - 4) m.memory (omega (arith, on.low))
            (omega (arith, on.low, high)) value on.fits.bytes) in
      let top : add32 (sp h) 4 ≡ sp m = omega (arith, stack, on.low, high, on.fits.most) in
      rw
        (
          pop,
          there,
          read_off dv trig h fits_h off 4 (sp h) (omega (arith, size, on.fits.least))
              (omega (arith, stack, size, on.low, high)),
          got,
          calm,
          top,
        )
        refl

-- The machine after a CALL that nothing stopped.
abbrev pub after_call : {W : Type 0} → ℕ → Machine W → Machine W
after_call inst m = record (charge 2 (set_sp (sp m - 4) m)) {
  memory = write_backed unrestricted_start 4 (sp m - 4) (add32 m.pc 4) m.memory;
  pc = (m.pc + simm24 inst) % 2 ^ 32;
}

-- CALL and RET. On a stack with room, paging off, the CALL goes to its target with the return address
-- pushed; a RET, in any machine with paging off and no fault raised that has the memory, sp and
-- interrupt depth the CALL left, goes to the instruction after the CALL, with sp where it was before
-- the CALL.
pub ret-call :
    {W : Type 0} (dv : Devices W) (trig : ℕ → Machine W → Option (Bool × Machine W)) (inst : ℕ)
    (m h : Machine W)
    → IsOnStack m
    → h.memory ≡ (after_call inst m).memory
    → sp h ≡ sp (after_call inst m)
    → flag_on paging_flag h ≡ false
    → h.interrupt_depth ≡ m.interrupt_depth
    → h.faulted ≡ false
    → (call dv trig inst m ≡ some (tt, after_call inst m))
      × (ret dv trig h
          ≡ some (tt, record (charge 2 (set_sp (sp m) h)) { pc = (m.pc + 4) % 2 ^ 32 }))
unfolding call ret
ret-call dv trig inst m h on memory stack off depth calm =
    let cut : add32 m.pc 4 % 2 ^ 32 ≡ (m.pc + 4) % 2 ^ 32 = omega arith in
    (
      rw (call, push_off dv trig m on (add32 m.pc 4)) refl,
      rw (ret, pop_off dv trig m on (add32 m.pc 4) h memory stack off depth calm, cut) refl,
    )
