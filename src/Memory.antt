-- ===== src/Memory.antt =====
-- The RAM (Ceres/libs/vm/include/ceres/vm/memory.h): a flat array of bytes behind checked, unchecked
-- and block accesses. Its laws are in the modules below.
pub mod Laws
pub mod Blocks
mod Tests
use ceres_vm.Prelude.{
  ℕ, zero, suc, ◌+◌, ◌-◌, ◌*◌, ◌/◌, ◌%◌, ◌^◌, bit_or, min, Bool, true, false, ◌&&◌, ◌||◌, Option,
  none, some, List, [], ◌∷◌,
}
use ceres_vm.Prelude.Tests.{ltb, leb, ◌==◌, if◌then◌else◌}
use ceres_vm.Prelude.Lists.{length}

-- `data` is total: an index at or past `size` is never looked at by the operations.
pub record Memory : Type 0 where
  pub size : ℕ
  pub bytes : ℕ → ℕ

abbrev pub null_page_segment_size : ℕ
null_page_segment_size = 0x100

abbrev pub bios_segment_size : ℕ
bios_segment_size = 0x300

abbrev pub unrestricted_start : ℕ
unrestricted_start = null_page_segment_size + bios_segment_size

abbrev pub system_stack_size : ℕ
system_stack_size = 4096

abbrev pub ram_limit : ℕ
ram_limit = 0x8000_0000

abbrev pub min_size : ℕ
min_size = 8192

-- The constructor: `none` is the `std::invalid_argument` of `checkedSize`; the pages start as zero.
unfoldable pub make : ℕ → Option Memory
make size =
    if ltb size min_size || ltb ram_limit size || ltb 0 (size % 4096)
    then none
    else some (record { size = size; bytes = λ _. 0 })

-- `_data[i] = v`
abbrev pub put : (ℕ → ℕ) → ℕ → ℕ → ℕ → ℕ
put f i v j = if i == j then v else f j

-- The loop of the slow path, `left` rounds from `i` on: bytes outside the window read as zero.
unfoldable pub read_slow : Memory → ℕ → ℕ → ℕ → ℕ → ℕ → ℕ
read_slow m first base zero i value = value
read_slow m first base (suc left) i value =
    let b = if leb first (base + i) && ltb (base + i) m.size then m.bytes (base + i) else 0 in
    read_slow m first base left (i + 1) (bit_or value (b * 2 ^ (i * 8)))

-- The fast path, byte 0 holding bits 0 to 7, for the widths the machine has.
unfoldable pub read_fast : Memory → ℕ → ℕ → ℕ
read_fast m base n =
    if n == 1
    then m.bytes base
    else if n == 2
    then bit_or (m.bytes base) (m.bytes (base + 1) * 2 ^ 8)
    else bit_or
        (bit_or (bit_or (m.bytes base) (m.bytes (base + 1) * 2 ^ 8)) (m.bytes (base + 2) * 2 ^ 16))
        (m.bytes (base + 3) * 2 ^ 24)

-- `readRaw<T, first>` with sizeof(T) = n.
unfoldable pub read_raw : ℕ → ℕ → ℕ → Memory → ℕ
unfolding read_slow read_fast
read_raw first n base m =
    if leb n m.size && leb first base && leb base (m.size - n)
    then read_fast m base n
    else read_slow m first base n 0 0

unfoldable pub write_slow : ℕ → ℕ → ℕ → ℕ → ℕ → Memory → Memory
write_slow first base v zero i m = m
write_slow first base v (suc left) i m = write_slow first base v left (i + 1) (
    if leb first (base + i) && ltb (base + i) m.size
    then record m { bytes = put m.bytes (base + i) (v / 2 ^ (i * 8) % 2 ^ 8) }
    else m)

unfoldable pub write_fast : ℕ → ℕ → ℕ → Memory → Memory
write_fast n base v m =
    let f1 = put m.bytes base (v % 2 ^ 8) in
    let f2 = put f1 (base + 1) (v / 2 ^ 8 % 2 ^ 8) in
    let f4 = put (put f2 (base + 2) (v / 2 ^ 16 % 2 ^ 8)) (base + 3) (v / 2 ^ 24 % 2 ^ 8) in
    record m { bytes = if n == 1 then f1 else if n == 2 then f2 else f4 }

-- `writeRaw<T, first>` with sizeof(T) = n.
unfoldable pub write_raw : ℕ → ℕ → ℕ → ℕ → Memory → Memory
unfolding write_slow write_fast
write_raw first n base v m =
    if leb n m.size && leb first base && leb base (m.size - n)
    then write_fast n base v m
    else write_slow first base v n 0 m

-- `readBacked` and `writeBacked`: the caller has checked that the access lies in the RAM.
unfoldable pub read_backed : ℕ → ℕ → ℕ → Memory → ℕ
unfolding read_fast
read_backed first n base m = if ltb base first then 0 else read_fast m base n

unfoldable pub write_backed : ℕ → ℕ → ℕ → ℕ → Memory → Memory
unfolding write_fast
write_backed first n base v m = if ltb base first then m else write_fast n base v m

-- The byte spans. `none` is the `std::out_of_range` of the source; `checked` also refuses the null
-- page and the BIOS.
in_bounds : Bool → ℕ → ℕ → Memory → Bool
in_bounds checked base count m =
    (if checked then leb unrestricted_start base else true) && leb (base + count) m.size

unfoldable pub span_from : (ℕ → ℕ) → ℕ → ℕ → List ℕ
span_from f base zero = []
span_from f base (suc n) = f base ∷ span_from f (base + 1) n

-- `std::memcpy` of a span into the array.
unfoldable pub overwrite : (ℕ → ℕ) → ℕ → List ℕ → ℕ → ℕ
overwrite f base [] = f
overwrite f base (b ∷ bs) = put (overwrite f (base + 1) bs) base b

unfoldable pub write_bytes : Bool → ℕ → List ℕ → Memory → Option Memory
unfolding in_bounds overwrite
write_bytes checked base bs m =
    if in_bounds checked base (length bs) m
    then some (record m { bytes = overwrite m.bytes base bs })
    else none

unfoldable pub read_bytes : Bool → ℕ → ℕ → Memory → Option (List ℕ)
unfolding in_bounds span_from
read_bytes checked base count m =
    if in_bounds checked base count m then some (span_from m.bytes base count) else none

-- `std::memmove` inside the array: every byte of the destination is the source's as it was before.
unfoldable pub copy_bytes : Bool → ℕ → ℕ → ℕ → Memory → Option Memory
unfolding in_bounds
copy_bytes checked src dest count m =
    if in_bounds checked src count m && in_bounds checked dest count m
    then some (record m {
      bytes =
          λ a. if leb dest a && ltb a (dest + count) then m.bytes (src + (a - dest)) else m.bytes a;
    })
    else none

unfoldable pub set_bytes : Bool → ℕ → ℕ → ℕ → Memory → Option Memory
unfolding in_bounds
set_bytes checked base value count m =
    if in_bounds checked base count m
    then some
        (record m { bytes = λ a. if leb base a && ltb a (base + count) then value else m.bytes a })
    else none

-- `clampBlockSize` and, with `checked` false, `clampBlockSizeUnchecked`.
unfoldable pub clamp_block_size : Bool → ℕ → ℕ → Memory → ℕ
clamp_block_size checked base count m =
    if (if checked then ltb base unrestricted_start else false) || leb m.size base
    then 0
    else min count (m.size - base)
