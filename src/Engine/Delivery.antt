-- ===== src/Engine/Delivery.antt =====
-- The entry of an interrupt from the program, and IRET back to it.
use ceres_vm.Prelude.{
  ℕ, suc, ◌+◌, ◌-◌, ◌%◌, ◌^◌, ◌≤◌, ◌<◌, ◌≡◌, ◌≢◌, refl, ap, ◌∙◌, Bool, true, false, not, ◌&&◌, inl,
  inr, Option, some, arith,
}
use ceres_vm.Prelude.Tests.{leb, ◌==◌, Bool-cases}
use ceres_vm.Prelude.Words.{u32}
use ceres_vm.Memory.{Memory, read_backed, unrestricted_start, put}
use ceres_vm.Interrupt.{reserved_interrupt_count}
use ceres_vm.Engine.State.{
  Machine, Devices, sp, set_sp, has_stack_room, flag_on, clear_flag, interrupt_flag, halting_flag,
}
use ceres_vm.Engine.Access.{push, pop}
use ceres_vm.Engine.Interrupts.{
  handler_of, enter_system_stack, saved_flags, redirect, dispatch, trigger, leave_interrupt, iret,
}
use ceres_vm.Engine.Untouched.{IsUntouched, IsUntouched-trans, IsUntouched-calm}
use ceres_vm.Engine.SystemStack.{
  IsMachineMemory, pushed, popped, push_system_stack, pop_system_stack, read_backed-write_backed,
  size-write_backed, write_backed-bytes, read_backed_above, write_backed-IsMachineMemory,
}

-- A request that an interrupt's entry takes: not masked, and with a handler.
pub record IsTaken {W : Type 0} (number : ℕ) (m : Machine W) : Type 0 where
  pub unmasked : (not (flag_on interrupt_flag m) && leb reserved_interrupt_count number) ≡ false
  pub handled : (handler_of number m == 0) ≡ false

-- What the entry leaves, from a program whose machine was `m`.
pub record IsEntered {W : Type 0} (number : ℕ) (m m' : Machine W) : Type 0 where
  pub pc : m'.pc ≡ handler_of number m
  pub flags : m'.flags ≡ clear_flag halting_flag (clear_flag interrupt_flag m.flags)
  pub depth : m'.interrupt_depth ≡ 1
  pub stack : sp m' + 8 ≡ m.memory.size
  pub saved : m'.saved_stack_pointer ≡ sp m
  pub regs : (r : ℕ) → r ≢ 15 → m'.regs r ≡ m.regs r
  pub size : m'.memory.size ≡ m.memory.size
  pub bytes : (a : ℕ) → a < sp m' → m'.memory.bytes a ≡ m.memory.bytes a
  pub fits : IsMachineMemory m'.memory
  pub frame_pc : read_backed unrestricted_start 4 (sp m') m'.memory ≡ m.pc % 2 ^ 32
  pub frame_flags : read_backed unrestricted_start 4 (sp m' + 4) m'.memory ≡ saved_flags m % 2 ^ 32
  pub cycles : m'.cycles ≡ (m.cycles + 12) % 2 ^ 64
  pub rest : IsUntouched m m'

module _ {W : Type 0} (dv : Devices W) (trig : ℕ → Machine W → Option (Bool × Machine W))
    (number : ℕ) (m : Machine W) (fits : IsMachineMemory m.memory)
    (outermost : m.interrupt_depth ≡ 0) (calm : m.faulted ≡ false) where
  -- The machine that is switched to the system stack, and after the two pushes.
  abbrev switched : Machine W
  switched = record m {
    saved_stack_pointer = sp m;
    regs = put m.regs 15 m.memory.size;
    interrupt_depth = 1;
  }

  abbrev flags_down : Machine W
  flags_down = pushed dv trig switched fits (saved_flags m)

  switched-eq : enter_system_stack m ≡ switched
  unfolding enter_system_stack
  switched-eq =
      let size : u32 m.memory.size ≡ m.memory.size = omega (arith, fits.most) in
      rw (enter_system_stack, outermost, size) refl

  first_push : push dv trig (saved_flags m) switched ≡ some (true, flags_down)
  first_push =
      push_system_stack dv trig switched fits (saved_flags m) (omega arith) (omega arith)
        (ground (arith, fits.least, fits.most)) calm

  abbrev flags_down-fits : IsMachineMemory flags_down.memory
  flags_down-fits =
      write_backed-IsMachineMemory (m.memory.size - 4) m.memory (omega (arith, fits.least))
        (omega (arith, fits.least)) (saved_flags m) fits

  abbrev frame_down : Machine W
  frame_down = pushed dv trig flags_down flags_down-fits m.pc

  same_size : flags_down.memory.size ≡ m.memory.size
  same_size = size-write_backed unrestricted_start 4 (m.memory.size - 4) (saved_flags m) m.memory

  second_push : push dv trig m.pc flags_down ≡ some (true, frame_down)
  second_push =
      push_system_stack dv trig flags_down flags_down-fits m.pc
        (omega (arith, same_size, fits.least)) (omega (arith, same_size))
        (ground (arith, same_size, fits.least, fits.most)) calm

  room : has_stack_room 8 switched ≡ true
  room = ground (arith, fits.least, fits.most)

  dispatch-eq :
      IsTaken number m
      → dispatch dv trig number m ≡ some (true, redirect (handler_of number m) m.cycles frame_down)
  unfolding dispatch
  dispatch-eq t =
      rw (dispatch, t.unmasked, t.handled, switched-eq, room, first_push, second_push) refl

  frame_size : frame_down.memory.size ≡ m.memory.size
  frame_size =
      size-write_backed unrestricted_start 4 (sp flags_down - 4) m.pc flags_down.memory ∙ same_size

  sp-flags_down : sp flags_down ≡ m.memory.size - 4
  sp-flags_down = refl

  sp-frame_down : sp frame_down ≡ m.memory.size - 4 - 4
  sp-frame_down = refl

  frame-IsEntered : IsEntered number m (redirect (handler_of number m) m.cycles frame_down)
  frame-IsEntered =
      let top = m.memory.size - 4 - 4 in
      let low_top : unrestricted_start ≤ top = omega (arith, fits.least) in
      let high_top : top + 4 ≤ flags_down.memory.size = omega (arith, same_size, fits.least) in
      let low_flags : unrestricted_start ≤ m.memory.size - 4 = omega (arith, fits.least) in
      let high_flags : m.memory.size - 4 + 4 ≤ m.memory.size = omega (arith, fits.least) in
      record {
        pc = refl;
        flags = refl;
        depth = refl;
        stack = omega (arith, fits.least);
        saved = refl;
        regs = λ r other. ground (arith, other);
        size = frame_size;
        bytes = λ a below.
            write_backed-bytes top flags_down.memory low_top high_top m.pc a (inl below)
            ∙ write_backed-bytes (m.memory.size - 4) m.memory low_flags high_flags (saved_flags m) a
                (inl (omega arith));
        fits =
            write_backed-IsMachineMemory top flags_down.memory low_top high_top m.pc
              flags_down-fits;
        frame_pc =
            read_backed-write_backed top flags_down.memory low_top high_top m.pc
              flags_down-fits.bytes;
        frame_flags =
            let back : top + 4 ≡ m.memory.size - 4 = omega (arith, fits.least) in
            rw back (
              read_backed_above top flags_down.memory low_top high_top m.pc (m.memory.size - 4)
                (omega (arith, fits.least))
              ∙ read_backed-write_backed (m.memory.size - 4) m.memory low_flags high_flags
                  (saved_flags m) fits.bytes);
        cycles = refl;
        rest = record {
          fregs = refl;
          vram = refl;
          interrupts = refl;
          scheduler = refl;
          mmu = refl;
          devices = refl;
          executed_instructions = refl;
          stack_limit = refl;
          stack_floor = refl;
          interrupt_shadow = refl;
          raises_consumed = refl;
          stopped_for_good = refl;
          fault_address = refl;
          fault_access = refl;
          fault_reason = refl;
          strict_mmio = refl;
          division_faults = refl;
          ieee_divide = refl;
          text_start = refl;
          text_end = refl;
        };
      }

-- `triggerInterrupt` for a program (no interrupt being serviced, and no fault in this instruction yet),
-- paging on or off, with a request that is taken: it returns true at the first level of the host's
-- stack, for the two pushes cannot fail; and the machine is then in the handler with the program's
-- counter and flags, less Halting, on top of the system stack, with both Interrupt and Halting clear,
-- and with all registers but sp and all memory below the frame as they were.
pub trigger-IsEntered :
    {W : Type 0} (dv : Devices W) (fuel number : ℕ) (m : Machine W)
    → IsMachineMemory m.memory
    → m.interrupt_depth ≡ 0
    → m.faulted ≡ false
    → IsTaken number m
    → (m' : Machine W) × (trigger dv (suc fuel) number m ≡ some (true, m')) × IsEntered number m m'
unfolding trigger
trigger-IsEntered dv fuel number m fits outermost calm taken = (
  _,
  dispatch-eq dv (trigger dv fuel) number m fits outermost calm taken,
  frame-IsEntered dv (trigger dv fuel) number m fits outermost calm,
)

-- A handler's machine at its IRET: one level deep, with the frame of the interrupt on top of its stack.
pub record IsLeaving {W : Type 0} (pc flags : ℕ) (h : Machine W) : Type 0 where
  pub fits : IsMachineMemory h.memory
  pub depth : h.interrupt_depth ≡ 1
  pub calm : h.faulted ≡ false
  pub stack : sp h + 8 ≡ h.memory.size
  pub frame_pc : read_backed unrestricted_start 4 (sp h) h.memory ≡ pc
  pub frame_flags : read_backed unrestricted_start 4 (sp h + 4) h.memory ≡ flags

-- What IRET gives.
pub record IsReturned {W : Type 0} (pc flags : ℕ) (h : Machine W)
    (r : Option (Unit {0} × Machine W)) : Type 0 where
  pub back : Machine W
  pub returns : r ≡ some (tt, back)
  pub at_pc : back.pc ≡ pc
  pub with_flags : back.flags ≡ flags
  pub depth : back.interrupt_depth ≡ 0
  pub stack : sp back ≡ h.saved_stack_pointer
  pub regs : (r : ℕ) → r ≢ 15 → back.regs r ≡ h.regs r
  pub memory : back.memory ≡ h.memory
  pub cycles : back.cycles ≡ (h.cycles + 6) % 2 ^ 64
  pub calm : back.faulted ≡ h.faulted
  pub rest : IsUntouched h back

module _ {W : Type 0} (dv : Devices W) (trig : ℕ → Machine W → Option (Bool × Machine W))
    (pc flags : ℕ) (h : Machine W) (l : IsLeaving pc flags h) where
  abbrev pc_off : Machine W
  pc_off = popped dv trig h l.fits

  abbrev frame_off : Machine W
  frame_off = popped dv trig pc_off l.fits

  first_pop : pop dv trig h ≡ some (some pc, pc_off)
  first_pop =
      let size = l.stack in
      pop_system_stack dv trig h l.fits (omega arith) (omega arith)
        (ground (arith, l.depth, l.stack)) l.calm
      ∙ ap (λ (t : ℕ). some (some t, pc_off)) l.frame_pc

  second_pop : pop dv trig pc_off ≡ some (some flags, frame_off)
  second_pop =
      let size = l.stack in
      pop_system_stack dv trig pc_off l.fits (omega arith) (omega arith)
        (ground (arith, l.depth, l.stack)) l.calm
      ∙ ap (λ (t : ℕ). some (some t, frame_off)) l.frame_flags

  leave_outermost :
      (m : Machine W)
      → m.interrupt_depth ≡ 1
      → leave_interrupt m ≡ set_sp m.saved_stack_pointer (record m { interrupt_depth = 0 })
  unfolding leave_interrupt
  leave_outermost m d = rw (leave_interrupt, d) refl

  pub iret-IsReturned : IsReturned pc flags h (iret dv trig h)
  unfolding iret
  iret-IsReturned =
      rw
        (
          iret,
          first_pop,
          second_pop,
          leave_outermost (record frame_off { pc = pc; flags = flags }) l.depth,
        )
        (record {
          back = _;
          returns = refl;
          at_pc = refl;
          with_flags = refl;
          depth = refl;
          stack = refl;
          regs = λ r other. ground (arith, other);
          memory = refl;
          cycles = refl;
          calm = refl;
          rest = record {
            fregs = refl;
            vram = refl;
            interrupts = refl;
            scheduler = refl;
            mmu = refl;
            devices = refl;
            executed_instructions = refl;
            stack_limit = refl;
            stack_floor = refl;
            interrupt_shadow = refl;
            raises_consumed = refl;
            stopped_for_good = refl;
            fault_address = refl;
            fault_access = refl;
            fault_reason = refl;
            strict_mmio = refl;
            division_faults = refl;
            ieee_divide = refl;
            text_start = refl;
            text_end = refl;
          };
        })

entered-IsLeaving :
    {W : Type 0} (number : ℕ) (m m' : Machine W)
    → IsEntered number m m'
    → IsLeaving (m.pc % 2 ^ 32) (saved_flags m % 2 ^ 32) (record m' { faulted = false })
entered-IsLeaving number m m' e = record {
  fits = e.fits;
  depth = e.depth;
  calm = refl;
  stack = omega (arith, e.stack, e.size);
  frame_pc = e.frame_pc;
  frame_flags = e.frame_flags;
}

-- An interrupt of a program whose handler is one IRET: program counter, all integer registers, no
-- interrupt in service, no fault pending, and the flags but Halting, which is clear afterwards, are as
-- they were, and so is the memory below the system stack's top two words, and its size. The clock is 18
-- cycles further, and everything else of the machine is as it was (`IsUntouched`: floating-point
-- registers, video memory, controller, scheduler, page table unit, devices, limits and settings) but for
-- the saved stack pointer.
pub iret-trigger :
    {W : Type 0} (dv : Devices W) (fuel number : ℕ) (m : Machine W)
    → IsMachineMemory m.memory
    → m.interrupt_depth ≡ 0
    → m.faulted ≡ false
    → IsTaken number m
    → (trig : ℕ → Machine W → Option (Bool × Machine W))
    → (m' back : Machine W) × (trigger dv (suc fuel) number m ≡ some (true, m'))
      × (iret dv trig (record m' { faulted = false }) ≡ some (tt, back))
      × (back.pc ≡ m.pc % 2 ^ 32)
      × (back.flags ≡ saved_flags m % 2 ^ 32)
      × ((r : ℕ) → back.regs r ≡ m.regs r)
      × ((a : ℕ) → a + 8 < m.memory.size → back.memory.bytes a ≡ m.memory.bytes a)
      × (back.interrupt_depth ≡ 0)
      × (back.faulted ≡ false)
      × (back.memory.size ≡ m.memory.size)
      × (back.cycles ≡ (m.cycles + 18) % 2 ^ 64)
      × IsUntouched m back
iret-trigger dv fuel number m fits outermost calm taken trig =
    let (m', there, e) = trigger-IsEntered dv fuel number m fits outermost calm taken in
    let r =
      iret-IsReturned dv trig _ _ (record m' { faulted = false })
        (entered-IsLeaving number m m' e) in
    let keeps : (k : ℕ) → r.back.regs k ≡ m.regs k = λ k. elim (Bool-cases (k == 15)) [
      | inl is_sp ↦ let same : k ≡ 15 = ground arith in rw same (r.stack ∙ e.saved)
      | inr other ↦
          let differs : k ≢ 15 = ground (arith, other) in r.regs k differs ∙ e.regs k differs
    ] in
    (
      m',
      r.back,
      there,
      r.returns,
      r.at_pc,
      r.with_flags,
      keeps,
      λ a below. ap (λ (t : Memory). t.bytes a) r.memory ∙ e.bytes a (omega (arith, e.stack)),
      r.depth,
      r.calm,
      ap (λ (t : Memory). t.size) r.memory ∙ e.size,
      omega (arith, r.cycles, e.cycles),
      IsUntouched-trans m (record m' { faulted = false }) r.back (IsUntouched-calm m m' e.rest)
          r.rest,
    )
