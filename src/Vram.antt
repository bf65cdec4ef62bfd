-- ===== src/Vram.antt =====
-- The video memory (Ceres/libs/vm/include/ceres/vm/vram.h): its window of physical addresses, its
-- bytes and the marks of the pages that were stored to. The write gate is the GPU's and is a parameter
-- of the machine that uses it.
pub mod Marks
mod Tests
use ceres_vm.Prelude.{
  ℕ, zero, suc, ◌+◌, ◌-◌, ◌*◌, ◌/◌, ◌%◌, ◌^◌, bit_or, min, Bool, true, false, not, ◌&&◌, ◌||◌,
  Option, none, some, bit_and,
}
use ceres_vm.Prelude.Tests.{ltb, leb, ◌==◌, if◌then◌else◌}
use ceres_vm.Memory.{Memory, read_fast, write_fast, put}

-- `written` is the word of marks at an index.
pub record Vram : Type 0 where
  pub size : ℕ
  pub bytes : ℕ → ℕ
  pub written : ℕ → ℕ

abbrev pub vram_base : ℕ
vram_base = 0xA000_0000

abbrev pub vram_window_end : ℕ
vram_window_end = 0xE000_0000

abbrev pub page_size : ℕ
page_size = 2 ^ 12

-- The constructor: `none` is the `std::invalid_argument` of `checkedSize`.
unfoldable pub make : ℕ → Option Vram
make size =
    if ltb size 16384 || ltb 1073741824 size || not (size % page_size == 0)
    then none
    else some (record { size = size; bytes = λ _. 0; written = λ _. 0 })

-- `backs`: the 64-bit difference of the source is only looked at above the base.
abbrev pub backs : ℕ → ℕ → Vram → Bool
backs physical count v = leb vram_base physical && leb (physical - vram_base + count) v.size

abbrev pub in_window : ℕ → Bool
in_window physical = leb vram_base physical && ltb physical vram_window_end

-- The loop of `markWritten`, `left` pages from `page` on.
unfoldable pub mark_pages : ℕ → ℕ → (ℕ → ℕ) → ℕ → ℕ
mark_pages zero page f = f
mark_pages (suc left) page f =
    mark_pages left (page + 1) (put f (page / 64) (bit_or (f (page / 64)) (2 ^ (page % 64))))

-- The sums of the source are 32-bit; `offset + bytes` is within the VRAM, at most 2 ^ 30.
unfoldable pub mark_written : ℕ → ℕ → Vram → Vram
mark_written offset count v = if count == 0 then v else record v {
  written =
      mark_pages ((offset + count - 1) / page_size + 1 - offset / page_size) (offset / page_size)
        v.written;
}

-- The number of 64-page words that the constructor makes.
abbrev pub written_words : Vram → ℕ
written_words v = (v.size / page_size + 63) / 64

unfoldable pub written_page : ℕ → Vram → Bool
written_page page v =
    ltb (page / 64) (written_words v)
    && not (bit_and (v.written (page / 64) / 2 ^ (page % 64)) 1 == 0)

unfoldable pub clear_written : Vram → Vram
clear_written v = record v { written = λ _. 0 }

-- A load and a store of 1, 2 or 4 bytes at an offset; the access fits.
unfoldable pub read : ℕ → ℕ → Vram → ℕ
read n offset v = read_fast (record { size = v.size; bytes = v.bytes }) offset n

unfoldable pub write : ℕ → ℕ → ℕ → Vram → Vram
write n offset value v = mark_written offset n (record v {
  bytes = (write_fast n offset value (record { size = v.size; bytes = v.bytes })).bytes;
})

unfoldable pub clamp : ℕ → ℕ → Vram → ℕ
clamp offset count v = if leb v.size offset then 0 else min count (v.size - offset)
