-- ===== src/Vram/Tests.antt =====
-- A store across two pages of a small VRAM.
use ceres_vm.Prelude.{◌+◌, ◌-◌, ◌*◌, ◌/◌, ◌≡◌, ◌&&◌, ◌||◌, true, refl, arith}
use ceres_vm.Prelude.Tests.{ltb, leb}
use ceres_vm.Vram.{Vram, page_size, mark_written, mark_pages, written_page}
use ceres_vm.Vram.Marks.{written_page-mark_written}

abbrev blank : Vram
blank = record { size = 16384; bytes = λ _. 0; written = λ _. 0 }

second_page : written_page 1 (mark_written 4094 4 blank) ≡ true
unfolding written_page mark_written mark_pages
second_page = refl

written_page-mark_written_example : written_page 1 (mark_written 4094 4 blank) ≡ (
    written_page 1 blank
    || (ltb 0 4 && leb (4094 / page_size) 1 && leb (1 * page_size) (4094 + 4 - 1)))
written_page-mark_written_example = written_page-mark_written 4094 4 1 blank (omega arith) refl
