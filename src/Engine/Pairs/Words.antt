-- ===== src/Engine/Pairs/Words.antt =====
-- LDRD and STRD with paging off: what was stored is what is loaded.
use ceres_vm.Prelude.{
  ℕ, ◌+◌, ◌*◌, ◌/◌, ◌%◌, ◌^◌, ◌≤◌, ◌<◌, ◌≡◌, refl, sym, ap, ◌∙◌, Bool, true, false, ◌&&◌, Option,
  some, arith, inr, bit_or,
}
use ceres_vm.Prelude.Tests.{ltb, ◌==◌}
use ceres_vm.Prelude.Words.{u32, add32}
use ceres_vm.Prelude.Bits.{bit_or_fields, bit_or_comm}
use ceres_vm.Memory.{Memory, read_raw, read_backed, write_backed, unrestricted_start}
use ceres_vm.Memory.Laws.{IsBytes, read_raw_lem, write_raw_lem}
use ceres_vm.Mmu.{MmuAccess}
use ceres_vm.Engine.State.{
  Machine, Devices, charge, flag_on, paging_flag, access_read, access_write,
}
use ceres_vm.Engine.Access.{check_writable, read, write}
use ceres_vm.Engine.SystemStack.{IsMachineMemory, size-write_backed}
use ceres_vm.Engine.Transfers.Stack.{translate_off, write_off, read_off}
use ceres_vm.Engine.Transfers.Loads.{backed_raw, raw_backed, read_backed-write, after_fits}
use ceres_vm.Engine.Pairs.{check_alignment64, read64, write64}

-- The memory with the two words of a 64-bit number, the low one first.
abbrev pub both_words : ℕ → ℕ → Memory → Memory
both_words address value m =
    write_backed unrestricted_start 4 (address + 4) (u32 (value / 2 ^ 32))
      (write_backed unrestricted_start 4 address (u32 value) m)

-- A word depends on the size and its own four cells.
read_raw-cells :
    (lowest address : ℕ) (m m' : Memory)
    → m.size ≡ m'.size
    → IsBytes m
    → IsBytes m'
    → ((j : ℕ) → j < address + 4 → m.bytes j ≡ m'.bytes j)
    → read_raw lowest 4 address m ≡ read_raw lowest 4 address m'
read_raw-cells lowest address m m' size b b' h =
    read_raw_lem lowest 4 address m (inr (inr refl)) b
    ∙ ground (
      arith,
      size,
      h (address + 0) (omega arith),
      h (address + 1) (omega arith),
      h (address + 1 + 1) (omega arith),
      h (address + 1 + 1 + 1) (omega arith),
    )
    ∙ sym (read_raw_lem lowest 4 address m' (inr (inr refl)) b')

module _ (address value : ℕ) (m : Memory) (fits : IsMachineMemory m)
    (low : unrestricted_start ≤ address) (high : address + 8 ≤ m.size) where
  abbrev first : Memory
  first = write_backed unrestricted_start 4 address (u32 value) m

  first-IsMachineMemory : IsMachineMemory first
  first-IsMachineMemory =
      after_fits 4 address (u32 value) m (inr (inr refl)) low (omega (arith, high)) fits

  first_size : first.size ≡ m.size
  first_size = size-write_backed unrestricted_start 4 address (u32 value) m

  pub both-IsMachineMemory : IsMachineMemory (both_words address value m)
  both-IsMachineMemory =
      after_fits 4 (address + 4) (u32 (value / 2 ^ 32)) first (inr (inr refl)) (omega (arith, low))
        (omega (arith, high, first_size)) first-IsMachineMemory

  pub both_size : (both_words address value m).size ≡ m.size
  both_size =
      size-write_backed unrestricted_start 4 (address + 4) (u32 (value / 2 ^ 32)) first ∙ first_size

  pub high_word :
      read_backed unrestricted_start 4 (address + 4) (both_words address value m)
      ≡ u32 (value / 2 ^ 32)
  high_word =
      read_backed-write 4 (address + 4) (u32 (value / 2 ^ 32)) first (inr (inr refl))
        (omega (arith, low)) (omega (arith, high, first_size)) first-IsMachineMemory
      ∙ omega arith

  -- The second word leaves the cells of the first.
  below_cells : (j : ℕ) → j < address + 4 → (both_words address value m).bytes j ≡ first.bytes j
  below_cells j h =
      ap (λ (t : Memory). t.bytes j)
        (backed_raw 4 (address + 4) first (inr (inr refl)) (omega (arith, low))
          (omega (arith, high, first_size)) (u32 (value / 2 ^ 32)))
      ∙ (write_raw_lem unrestricted_start 4 (address + 4) (u32 (value / 2 ^ 32)) first
            (inr (inr refl))).1
          j
      ∙ ground (arith, h)

  pub low_word : read_backed unrestricted_start 4 address (both_words address value m) ≡ u32 value
  low_word =
      raw_backed 4 address (both_words address value m) (inr (inr refl)) low
        (omega (arith, high, both_size))
      ∙ read_raw-cells unrestricted_start address (both_words address value m) first
          (omega (arith, both_size, first_size)) both-IsMachineMemory.bytes
          first-IsMachineMemory.bytes below_cells
      ∙ sym (raw_backed 4 address first (inr (inr refl)) low (omega (arith, high, first_size)))
      ∙ read_backed-write 4 address (u32 value) m (inr (inr refl)) low (omega (arith, high)) fits
      ∙ omega arith

-- An address that a program may store 64 bits at: on a word, in the RAM above the BIOS, outside the
-- program's text.
pub record IsWritable64 {W : Type 0} (address : ℕ) (m : Machine W) : Type 0 where
  pub aligned : (address % 4 == 0) ≡ true
  pub low : unrestricted_start ≤ address
  pub high : address + 8 ≤ m.memory.size
  pub outside_text :
      (ltb m.text_start m.text_end && (ltb address m.text_end && ltb m.text_start (address + 8)))
      ≡ false

-- The machine after a 64-bit store that nothing stopped, before the next instruction.
abbrev pub stored64 : {W : Type 0} → ℕ → ℕ → Machine W → Machine W
stored64 address value m = record (charge 2 m) { memory = both_words address value m.memory }

-- The two words of a 64-bit number, put together again.
words_joined : (v : ℕ) → v < 2 ^ 64 → bit_or (u32 v) (u32 (v / 2 ^ 32) * 2 ^ 32) ≡ v
words_joined v h =
    bit_or_comm _ _ ∙ bit_or_fields 32 (u32 (v / 2 ^ 32)) (u32 v) (omega arith) ∙ omega (arith, h)

module _ {W : Type 0} (dv : Devices W) (trig : ℕ → Machine W → Option (Bool × Machine W)) where
  module _ (m : Machine W) (fits : IsMachineMemory m.memory) (off : flag_on paging_flag m ≡ false)
      (address : ℕ) (room : address + 4 ≤ m.memory.size) where
    -- An access that is not paid for.
    write_free :
        (value : ℕ)
        → write dv trig 4 address value false m
          ≡ some
              (tt, record m { memory = write_backed unrestricted_start 4 address value m.memory })
    unfolding write
    write_free value =
        rw (write, translate_off dv trig m fits off address MmuAccess.write)
          (ground (arith, fits.most, fits.least))

    read_free :
        read dv trig 4 address false m ≡ some (read_backed unrestricted_start 4 address m.memory, m)
    unfolding read
    read_free =
        rw (read, translate_off dv trig m fits off address MmuAccess.read)
          (ground (arith, fits.most, fits.least))

  write64-steps :
      (address value : ℕ) (m m1 m2 : Machine W)
      → check_alignment64 dv trig address access_write m ≡ some (true, m)
      → check_writable dv trig address 8 m ≡ some (true, m)
      → write dv trig 4 address (u32 value) true m ≡ some (tt, m1)
      → m1.faulted ≡ false
      → write dv trig 4 (add32 address 4) (u32 (value / 2 ^ 32)) false m1 ≡ some (tt, m2)
      → m2.faulted ≡ false
      → write64 dv trig address value m ≡ some (true, m2)
  unfolding write64
  write64-steps address value m m1 m2 aligned writable first_done calm1 second_done calm2 =
      rw (write64, aligned, writable, first_done) (simp (calm1, second_done, calm2) refl)

  read64-steps :
      (address low high : ℕ) (m m1 m2 : Machine W)
      → check_alignment64 dv trig address access_read m ≡ some (true, m)
      → read dv trig 4 address true m ≡ some (low, m1)
      → m1.faulted ≡ false
      → read dv trig 4 (add32 address 4) false m1 ≡ some (high, m2)
      → m2.faulted ≡ false
      → read64 dv trig address m ≡ some (some (bit_or low (high * 2 ^ 32)), m2)
  unfolding read64
  read64-steps address low high m m1 m2 aligned first_done calm1 second_done calm2 =
      rw (read64, aligned, first_done) (simp (calm1, second_done, calm2) refl)

  pub write64_off :
      (address value : ℕ) (m : Machine W)
      → IsMachineMemory m.memory
      → flag_on paging_flag m ≡ false
      → m.faulted ≡ false
      → IsWritable64 address m
      → write64 dv trig address value m ≡ some (true, stored64 address value m)
  unfolding write64
  write64_off address value m fits off calm ok =
      let aligned : check_alignment64 dv trig address access_write m ≡ some (true, m) =
        unfold check_alignment64 in ground (arith, ok.aligned) in
      let writable : check_writable dv trig address 8 m ≡ some (true, m) =
        unfold check_writable in ground (arith, ok.low, ok.outside_text) in
      let next : add32 address 4 ≡ address + 4 = omega (arith, ok.high, fits.most) in
      let m1 : Machine W = record (charge 2 m) {
        memory = write_backed unrestricted_start 4 address (u32 value) m.memory;
      } in
      write64-steps address value m m1 (stored64 address value m) aligned writable
        (write_off dv trig m fits off 4 address (u32 value) (omega (arith, fits.least))
          (omega (arith, ok.high)))
        calm
        (rw next (
          write_free m1 (first-IsMachineMemory address value m.memory fits ok.low ok.high) off
            (address + 4)
            (omega (arith, ok.high, first_size address value m.memory fits ok.low ok.high))
            (u32 (value / 2 ^ 32))))
        calm

  pub read64_off :
      (address value : ℕ) (memory : Memory) (h : Machine W)
      → IsMachineMemory memory
      → unrestricted_start ≤ address
      → address + 8 ≤ memory.size
      → (address % 4 == 0) ≡ true
      → value < 2 ^ 64
      → h.memory ≡ both_words address value memory
      → flag_on paging_flag h ≡ false
      → h.faulted ≡ false
      → read64 dv trig address h ≡ some (some value, charge 2 h)
  unfolding read64
  read64_off address value memory h fits low high on_word small same off calm =
      let aligned : check_alignment64 dv trig address access_read h ≡ some (true, h) =
        unfold check_alignment64 in ground (arith, on_word) in
      let next : add32 address 4 ≡ address + 4 = omega (arith, high, fits.most) in
      let fits_h : IsMachineMemory h.memory =
        rw same (both-IsMachineMemory address value memory fits low high) in
      let size : h.memory.size ≡ memory.size =
        ap (λ (t : Memory). t.size) same ∙ both_size address value memory fits low high in
      let low_part : read_backed unrestricted_start 4 address h.memory ≡ u32 value =
        rw same (low_word address value memory fits low high) in
      let high_part : read_backed unrestricted_start 4 (address + 4) h.memory
          ≡ u32 (value / 2 ^ 32) =
        rw same (high_word address value memory fits low high) in
      read64-steps address (u32 value) (u32 (value / 2 ^ 32)) h (charge 2 h) (charge 2 h) aligned
        (rw (← low_part) (
          read_off dv trig h fits_h off 4 address (omega (arith, fits_h.least))
            (omega (arith, size, high))))
        calm
        (rw (next, ← high_part)
          (read_free (charge 2 h) fits_h off (address + 4) (omega (arith, size, high))))
        calm
      ∙ rw (words_joined value small) refl
