-- ===== src/Vm/Bios.antt =====
-- The default handlers of Ceres/libs/vm/include/ceres/vm/bios.h: a vector for each exception and an entry of
-- six instructions that ends the run.
use ceres_vm.Prelude.{ℕ, zero, suc, ◌+◌, ◌-◌, ◌*◌, ◌/◌, ◌^◌, ◌||◌, Option, none, some}
use ceres_vm.Prelude.Tests.{ltb, leb, if◌then◌else◌}
use ceres_vm.Memory.{Memory, write_raw, null_page_segment_size}
use ceres_vm.Isa.{make_opcode, make_imm24, make_two}

abbrev pub first_default_vector : ℕ
first_default_vector = 1

abbrev pub last_default_vector : ℕ
last_default_vector = 16

abbrev pub entry_instructions : ℕ
entry_instructions = 6

abbrev pub bios_start : ℕ
bios_start = null_page_segment_size

-- `write`: instruction number `offset` of the segment.
abbrev pub write_instruction : ℕ → ℕ → Memory → Memory
write_instruction offset raw m = write_raw 0 4 (bios_start + offset * 4) raw m

-- `initVector`
abbrev pub init_vector : ℕ → ℕ → Memory → Memory
init_vector number offset m = write_raw 0 4 (number * 4) (bios_start + offset * 4) m

-- The round for vector `first + k`: `LUI r1, 0xFFFF`, `ORI r1, r1, 0`, `LI r0, 0x0101`,
-- `STR [r1 + 0], r0`, `HALT` and `JP -4`.
unfoldable pub init_entry : ℕ → Memory → Memory
init_entry k m =
    let entry = k * entry_instructions in
    write_instruction (entry + 5) (make_imm24 0x50 (2 ^ 24 - 4)) (
      write_instruction (entry + 4) (make_opcode 0x01) (
        write_instruction (entry + 3) (make_two 0x4A 1 0 0) (
          write_instruction (entry + 2) (make_two 0x42 0 0 0x0101) (
            write_instruction (entry + 1) (make_two 0x33 1 1 0) (
              write_instruction entry (make_two 0x43 1 0 0xFFFF)
                (init_vector (first_default_vector + k) entry m))))))

-- The loop, `left` rounds from vector `first + k` on.
unfoldable pub init_entries : ℕ → ℕ → Memory → Memory
init_entries zero k m = m
init_entries (suc left) k m = init_entries left (k + 1) (init_entry k m)

unfoldable pub initialize_memory : Memory → Memory
initialize_memory m = init_entries (last_default_vector - first_default_vector + 1) 0 m

unfoldable pub default_handler_vector : ℕ → Option ℕ
default_handler_vector pc =
    let count = last_default_vector - first_default_vector + 1 in
    if ltb pc bios_start || leb (bios_start + count * (entry_instructions * 4)) pc
    then none
    else some (first_default_vector + (pc - bios_start) / (entry_instructions * 4))
