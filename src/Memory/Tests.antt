-- ===== src/Memory/Tests.antt =====
-- The laws of the RAM on small memories.
use ceres_vm.Prelude.{
  ℕ, ◌+◌, ◌-◌, ◌^◌, ◌%◌, ◌≤◌, ◌<◌, ◌≡◌, refl, inl, inr, true, ◌&&◌, ◌*◌, some, List, [], ◌∷◌, arith,
}
use ceres_vm.Prelude.Tests.{ltb, leb, if◌then◌else◌}
use ceres_vm.Prelude.Lists.{length}
use ceres_vm.Memory.{
  Memory, put, read_raw, write_raw, write_bytes, read_bytes, copy_bytes, clamp_block_size,
}
use ceres_vm.Memory.Laws.{
  IsBytes, byte_at, le_word, stored, read_raw_lem, write_raw_lem, read_raw-write_raw,
}
use ceres_vm.Memory.Blocks.{write_bytes-read_bytes, copy_bytes_moves}

-- 8 KiB that hold 0x34 and 0x12 at 0x500.
abbrev small : Memory
small = record { size = 8192; bytes = put (put (λ _. 0) 0x500 0x34) 0x501 0x12 }

small-IsBytes : IsBytes small
small-IsBytes i = ground arith

read_small : read_raw 0x400 2 0x500 small ≡ 0x1234
unfolding read_raw
read_small = refl

read_raw_lem_example : read_raw 0x400 4 8190 small ≡ le_word 4 (byte_at 0x400 small) 8190
read_raw_lem_example = read_raw_lem 0x400 4 8190 small (inr (inr refl)) small-IsBytes

write_raw_lem_example :
    ((write_raw 0x400 4 8190 0xA1B2C3D4 small).size ≡ 8192)
    × ((j : ℕ)
        → (write_raw 0x400 4 8190 0xA1B2C3D4 small).bytes j
          ≡ stored 0x400 4 8190 0xA1B2C3D4 small j)
write_raw_lem_example = write_raw_lem 0x400 4 8190 0xA1B2C3D4 small (inr (inr refl))

read_raw-write_raw_example :
    read_raw 0x400 2 0x600 (write_raw 0x400 2 0x600 0x12345 small) ≡ 0x12345 % 2 ^ (8 * 2)
read_raw-write_raw_example =
    read_raw-write_raw 0x400 2 0x600 0x12345 small (inr (inl refl)) (omega arith) (omega arith)
      small-IsBytes

abbrev span : List ℕ
span = 7 ∷ 8 ∷ 9 ∷ []

abbrev written : Memory
written = record { size = 8192; bytes = put (put (put small.bytes 0x702 9) 0x701 8) 0x700 7 }

writes : write_bytes true 0x700 span small ≡ some written
unfolding write_bytes
writes = refl

write_bytes-read_bytes_example :
    (read_bytes true 0x700 (length span) written ≡ some span)
    × ((a : ℕ) → a < 0x700 → written.bytes a ≡ small.bytes a)
    × ((a : ℕ) → 0x700 + length span ≤ a → written.bytes a ≡ small.bytes a)
write_bytes-read_bytes_example = write_bytes-read_bytes true 0x700 span small {m' = written} writes

abbrev moved : Memory
moved = record {
  size = 8192;
  bytes =
      λ a. if leb 0x501 a && ltb a 0x503 then small.bytes (0x500 + (a - 0x501)) else small.bytes a;
}

moves : copy_bytes true 0x500 0x501 2 small ≡ some moved
unfolding copy_bytes
moves = refl

copy_bytes_moves_example :
    (read_bytes true 0x501 2 moved ≡ read_bytes true 0x500 2 small)
    × ((a : ℕ) → a < 0x501 → moved.bytes a ≡ small.bytes a)
    × ((a : ℕ) → 0x501 + 2 ≤ a → moved.bytes a ≡ small.bytes a)
copy_bytes_moves_example = copy_bytes_moves true 0x500 0x501 2 small {m' = moved} moves

clamps : clamp_block_size true 8190 100 small ≡ 2
unfolding clamp_block_size
clamps = refl
