-- ===== src/Engine/SystemStack.antt =====
-- The stack inside the system stack: what a push and a pop do there, where no page table is asked.
use ceres_vm.Prelude.{
  ℕ, ◌+◌, ◌-◌, ◌%◌, ◌^◌, ◌≤◌, ◌<◌, ◌≡◌, refl, ◌∙◌, Bool, true, false, ◌⊎◌, inr, Option, some, arith,
}
use ceres_vm.Prelude.Words.{add32, sub32}
use ceres_vm.Memory.{
  Memory, read_raw, write_raw, read_fast, write_fast, read_backed, write_backed, unrestricted_start,
}
use ceres_vm.Memory.Laws.{IsBytes, read_raw-write_raw, write_raw-IsBytes, write_raw_lem}
use ceres_vm.Mmu.{MmuAccess}
use ceres_vm.Engine.State.{Machine, Devices, sp, set_sp, charge, has_stack_room, has_stack_data}
use ceres_vm.Engine.Access.{translate, read, write, push, pop, is_physical}

-- The sizes that the memory's constructor allows.
pub record IsMachineMemory (m : Memory) : Type 0 where
  pub least : 8192 ≤ m.size
  pub most : m.size ≤ 2 ^ 31
  pub bytes : IsBytes m

-- A word of the system stack.
abbrev pub InSystemStack : {W : Type 0} → ℕ → Machine W → Type 0
InSystemStack address m = (m.memory.size ≤ address + 4096) × (address + 4 ≤ m.memory.size)

module _ {W : Type 0} (dv : Devices W) (trig : ℕ → Machine W → Option (Bool × Machine W))
    (m : Machine W) (fits : IsMachineMemory m.memory) where
  translate_physical :
      (address : ℕ) (access : MmuAccess)
      → is_physical address m ≡ true
      → translate dv trig address access m ≡ some (some address, m)
  unfolding translate
  translate_physical address access h = ground (arith, h)

  system_stack-is_physical : (address : ℕ) → InSystemStack address m → is_physical address m ≡ true
  system_stack-is_physical address h = ground (arith, fits.least, fits.most, h.0, h.1)

  -- The machine after a store of a word to the RAM.
  abbrev pub stored_word : ℕ → ℕ → Machine W
  stored_word address value = record (charge 2 m) {
    memory = write_backed unrestricted_start 4 address value m.memory;
  }

  pub write_system_stack :
      (address value : ℕ)
      → InSystemStack address m
      → write dv trig 4 address value true m ≡ some (tt, stored_word address value)
  unfolding write
  write_system_stack address value h =
      rw (write, translate_physical address MmuAccess.write (system_stack-is_physical address h))
        (ground (arith, fits.least, fits.most, h.0, h.1))

  pub read_system_stack :
      (address : ℕ)
      → InSystemStack address m
      → read dv trig 4 address true m
        ≡ some (read_backed unrestricted_start 4 address m.memory, charge 2 m)
  unfolding read
  read_system_stack address h =
      rw (read, translate_physical address MmuAccess.read (system_stack-is_physical address h))
        (ground (arith, fits.least, fits.most, h.0, h.1))

pub size-write_backed :
    (first n address v : ℕ) (m : Memory) → (write_backed first n address v m).size ≡ m.size
unfolding write_backed write_fast
size-write_backed first n address v m = ground arith

module _ (address : ℕ) (m : Memory) (low : unrestricted_start ≤ address)
    (high : address + 4 ≤ m.size) where
  -- Inside the RAM the access that its caller has checked is the checked one.
  pub read_backed-eq :
      read_backed unrestricted_start 4 address m ≡ read_raw unrestricted_start 4 address m
  unfolding read_backed read_raw
  read_backed-eq = ground arith

  pub write_backed-eq :
      (v : ℕ)
      → write_backed unrestricted_start 4 address v m ≡ write_raw unrestricted_start 4 address v m
  unfolding write_backed write_raw
  write_backed-eq v = ground arith

  pub write_backed-bytes :
      (v j : ℕ)
      → (j < address) ⊎ (address + 4 ≤ j)
      → (write_backed unrestricted_start 4 address v m).bytes j ≡ m.bytes j
  write_backed-bytes v j apart = rw (write_backed-eq v) (
      (write_raw_lem unrestricted_start 4 address v m (inr (inr refl))).1 j ∙ ground (arith, apart))

  -- A word above the one that is stored.
  pub read_backed_above :
      (v b : ℕ)
      → address + 4 ≤ b
      → read_backed unrestricted_start 4 b (write_backed unrestricted_start 4 address v m)
        ≡ read_backed unrestricted_start 4 b m
  unfolding read_backed read_fast
  read_backed_above v b above =
      let c0 = write_backed-bytes v b (inr above) in
      let c1 = write_backed-bytes v (b + 1) (inr (omega arith)) in
      let c2 = write_backed-bytes v (b + 2) (inr (omega arith)) in
      let c3 = write_backed-bytes v (b + 3) (inr (omega arith)) in
      rw (read_backed, read_backed, read_fast, read_fast, c0, c1, c2, c3) refl

  pub write_backed-IsMachineMemory :
      (v : ℕ) → IsMachineMemory m → IsMachineMemory (write_backed unrestricted_start 4 address v m)
  write_backed-IsMachineMemory v f =
      let size = (write_raw_lem unrestricted_start 4 address v m (inr (inr refl))).0 in
      rw (write_backed-eq v) (record {
        least = omega (arith, size, f.least);
        most = omega (arith, size, f.most);
        bytes = write_raw-IsBytes unrestricted_start 4 address v m (inr (inr refl)) f.bytes;
      })

  pub read_backed-write_backed :
      (v : ℕ)
      → IsBytes m
      → read_backed unrestricted_start 4 address (write_backed unrestricted_start 4 address v m)
        ≡ v % 2 ^ 32
  read_backed-write_backed v b =
      let e = write_backed-eq v in
      let size = (write_raw_lem unrestricted_start 4 address v m (inr (inr refl))).0 in
      let after : address + 4 ≤ (write_raw unrestricted_start 4 address v m).size =
        omega (arith, size) in
      rw (e, raw_after v after)
        (read_raw-write_raw unrestricted_start 4 address v m (inr (inr refl)) low high b)
    where
      raw_after :
          (v : ℕ)
          → address + 4 ≤ (write_raw unrestricted_start 4 address v m).size
          → read_backed unrestricted_start 4 address (write_raw unrestricted_start 4 address v m)
            ≡ read_raw unrestricted_start 4 address (write_raw unrestricted_start 4 address v m)
      raw_after v h = unfold read_backed read_raw in ground (arith, h)

module _ {W : Type 0} (dv : Devices W) (trig : ℕ → Machine W → Option (Bool × Machine W))
    (m : Machine W) (fits : IsMachineMemory m.memory) where
  -- The machine after a push of a word to the RAM.
  abbrev pub pushed : ℕ → Machine W
  pushed value = record (charge 2 (set_sp (sp m - 4) m)) {
    memory = write_backed unrestricted_start 4 (sp m - 4) value m.memory;
  }

  pub push_system_stack :
      (value : ℕ)
      → m.memory.size ≤ sp m + 4092
      → sp m ≤ m.memory.size
      → has_stack_room 4 m ≡ true
      → m.faulted ≡ false
      → push dv trig value m ≡ some (true, pushed value)
  unfolding push
  push_system_stack value low high room clear =
      let below : sub32 (sp m) 4 ≡ sp m - 4 = omega (arith, fits.least, fits.most) in
      rw
        (
          push,
          room,
          below,
          write_system_stack dv trig (set_sp (sp m - 4) m) fits (sp m - 4) value
              (omega (arith, fits.least), omega (arith, fits.least)),
        )
        (ground (arith, clear))

  -- The machine after a pop of a word from the RAM.
  abbrev pub popped : Machine W
  popped = charge 2 (set_sp (sp m + 4) m)

  pub pop_system_stack :
      m.memory.size ≤ sp m + 4096
      → sp m + 4 ≤ m.memory.size
      → has_stack_data 4 m ≡ true
      → m.faulted ≡ false
      → pop dv trig m ≡ some (some (read_backed unrestricted_start 4 (sp m) m.memory), popped)
  unfolding pop
  pop_system_stack low high there clear =
      let above : add32 (sp m) 4 ≡ sp m + 4 = omega (arith, fits.most) in
      rw (pop, there, read_system_stack dv trig m fits (sp m) (low, high))
        (ground (arith, clear, above))
