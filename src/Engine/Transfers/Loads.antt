-- ===== src/Engine/Transfers/Loads.antt =====
-- Loads and stores with paging off: what was stored is what is loaded.
use ceres_vm.Prelude.{
  ℕ, ◌+◌, ◌*◌, ◌%◌, ◌^◌, ◌≤◌, ◌<◌, ◌≡◌, refl, ap, ◌∙◌, Bool, true, false, ◌&&◌, Option, some, arith,
}
use ceres_vm.Prelude.Tests.{ltb, ◌==◌}
use native.Mathlib.Nat.{mod-mod}
use ceres_vm.Memory.{Memory, read_raw, write_raw, read_backed, write_backed, unrestricted_start}
use ceres_vm.Memory.Laws.{IsWidth, read_raw-write_raw, write_raw_lem, write_raw-IsBytes}
use ceres_vm.Isa.{rd, rs}
use ceres_vm.Engine.State.{
  Machine, Devices, get_reg, set_reg, charge, flag_on, paging_flag, advance_pc, access_read,
  access_write,
}
use ceres_vm.Engine.Access.{check_alignment, check_writable}
use ceres_vm.Engine.SystemStack.{IsMachineMemory, size-write_backed}
use ceres_vm.Engine.Transfers.{Addressing, load_address, store_address, load, store, store_value}
use ceres_vm.Engine.Transfers.Stack.{write_off, read_off}

-- An address that a program may store `n` bytes at: aligned, in the RAM above the BIOS, outside the
-- program's text.
pub record IsWritable {W : Type 0} (n address : ℕ) (m : Machine W) : Type 0 where
  pub aligned : (address % n == 0) ≡ true
  pub low : unrestricted_start ≤ address
  pub high : address + n ≤ m.memory.size
  pub outside_text :
      (ltb m.text_start m.text_end && (ltb address m.text_end && ltb m.text_start (address + n)))
      ≡ false

module _ (n address : ℕ) (m : Memory) (w : IsWidth n) (low : unrestricted_start ≤ address)
    (high : address + n ≤ m.size) where
  pub backed_raw :
      (v : ℕ)
      → write_backed unrestricted_start n address v m ≡ write_raw unrestricted_start n address v m
  unfolding write_backed write_raw
  backed_raw v = ground (arith, w)

  pub raw_backed :
      read_backed unrestricted_start n address m ≡ read_raw unrestricted_start n address m
  unfolding read_backed read_raw
  raw_backed = ground (arith, w)

width_cases : (n : ℕ) → IsWidth n → (0 < n) × (n ≤ 4)
width_cases n w = ground (arith, w)

pub read_backed-write :
    (n address v : ℕ) (m : Memory)
    → IsWidth n
    → unrestricted_start ≤ address
    → address + n ≤ m.size
    → IsMachineMemory m
    → read_backed unrestricted_start n address (write_backed unrestricted_start n address v m)
      ≡ v % 2 ^ (8 * n)
read_backed-write n address v m w low high f =
    let size = size-write_backed unrestricted_start n address v m in
    raw_backed n address (write_backed unrestricted_start n address v m) w low (omega (arith, size))
    ∙ rw (backed_raw n address m w low high v)
        (read_raw-write_raw unrestricted_start n address v m w low high f.bytes)

pub after_fits :
    (n address v : ℕ) (m : Memory)
    → IsWidth n
    → unrestricted_start ≤ address
    → address + n ≤ m.size
    → IsMachineMemory m
    → IsMachineMemory (write_backed unrestricted_start n address v m)
after_fits n address v m w low high f =
    let size = (write_raw_lem unrestricted_start n address v m w).0 in
    rw (backed_raw n address m w low high v) (record {
      least = omega (arith, size, f.least);
      most = omega (arith, size, f.most);
      bytes = write_raw-IsBytes unrestricted_start n address v m w f.bytes;
    })

module _ {W : Type 0} (dv : Devices W) (trig : ℕ → Machine W → Option (Bool × Machine W)) where
  aligned-check :
      (n address access : ℕ) (m : Machine W)
      → (address % n == 0) ≡ true
      → check_alignment dv trig n address access m ≡ some (true, m)
  unfolding check_alignment
  aligned-check n address access m h = ground (arith, h)

  writable-check :
      (n address : ℕ) (m : Machine W)
      → IsWritable n address m
      → check_writable dv trig address n m ≡ some (true, m)
  unfolding check_writable
  writable-check n address m h = ground (arith, h.low, h.outside_text)

  -- The machine after a store of `n` bytes that nothing stopped.
  abbrev pub after_store : ℕ → Addressing → ℕ → Machine W → Machine W
  after_store n mode inst m = advance_pc (record (charge 2 m) {
    memory =
        write_backed unrestricted_start n (store_address mode inst m)
          (get_reg (rs inst) m % 2 ^ (8 * n)) m.memory;
  })

  -- A store of 1, 2 or 4 bytes and an unsigned load of the same width, paging off, at an aligned address
  -- in the RAM, above the BIOS and outside the program's text: the store goes through, charges its two cycles and goes on to the next
  -- instruction; and a load from that address, in any machine with paging off and no fault raised that
  -- has the memory the store left, puts the low bytes of the stored register, as many as the width, in
  -- its own register and goes on to the next instruction.
  pub load-store :
      (n : ℕ) (mode mode' : Addressing) (inst inst' : ℕ) (m h : Machine W)
      → IsWidth n
      → IsMachineMemory m.memory
      → flag_on paging_flag m ≡ false
      → IsWritable n (store_address mode inst m) m
      → h.memory ≡ (after_store n mode inst m).memory
      → flag_on paging_flag h ≡ false
      → h.faulted ≡ false
      → load_address mode' inst' h ≡ store_address mode inst m
      → (store dv trig n mode inst m ≡ some (tt, after_store n mode inst m))
        × (load dv trig n false mode' inst' h
            ≡ some (
              tt,
              advance_pc (set_reg (rd inst') (get_reg (rs inst) m % 2 ^ (8 * n)) (charge 2 h)),
            ))
  unfolding store store_value load
  load-store n mode mode' inst inst' m h w fits off ok memory off' calm same =
      let address = store_address mode inst m in
      let value = get_reg (rs inst) m % 2 ^ (8 * n) in
      let small = width_cases n w in
      let size = size-write_backed unrestricted_start n address value m.memory in
      let fits' : IsMachineMemory h.memory =
        rw memory (after_fits n address value m.memory w ok.low ok.high fits) in
      let size' : h.memory.size ≡ m.memory.size = ap (λ (t : Memory). t.size) memory ∙ size in
      let room : address + n ≤ h.memory.size = omega (arith, size', ok.high) in
      let got : read_backed unrestricted_start n address h.memory ≡ value =
        rw memory
          (read_backed-write n address value m.memory w ok.low ok.high fits ∙ mod-mod _ _) in
      (
        rw
            (
              store,
              store_value,
              aligned-check n address access_write m ok.aligned,
              writable-check n address m ok,
              write_off dv trig m fits off n address value (omega (arith, fits.least)) ok.high,
            )
            refl,
        rw
            (
              load,
              same,
              aligned-check n address access_read h ok.aligned,
              read_off dv trig h fits' off' n address (omega (arith, fits'.least)) room,
              got,
              calm,
            )
            refl,
      )
