-- ===== src/Vram/Marks.antt =====
-- The page marks: a store marks every page that it touches, and no other.
use ceres_vm.Prelude.{
  ℕ, zero, suc, ◌+◌, ◌-◌, ◌*◌, ◌/◌, ◌%◌, ◌^◌, ◌≤◌, bit_or, ◌≡◌, ap, ◌&&◌, ◌||◌, inl, inr, arith,
}
use ceres_vm.Prelude.Tests.{ltb, leb, ◌==◌, ==_refl, if◌then◌else◌, Bool-cases}
use ceres_vm.Prelude.Bits.{bit, bit-lt, bit-bit_or, bit-pow, bit-div-pow, bit_test}
use ceres_vm.Memory.{put}
use ceres_vm.Vram.{Vram, page_size, mark_pages, mark_written, written_words, written_page}

-- The mark of a page.
abbrev pub mark : (ℕ → ℕ) → ℕ → ℕ
mark f page = bit (f (page / 64)) (page % 64)

mark-put :
    (f : ℕ → ℕ) (page p : ℕ)
    → mark (put f (page / 64) (bit_or (f (page / 64)) (2 ^ (page % 64)))) p
      ≡ (if p == page then 1 else mark f p)
mark-put f page p = elim (Bool-cases (page / 64 == p / 64)) [
  | inl same ↦
      let word : page / 64 ≡ p / 64 = ground arith in
      rw (word, ==_refl (p / 64))
        (ground (
          arith,
          bit-bit_or (f (p / 64)) (2 ^ (page % 64)) (p % 64),
          bit-pow (page % 64) (p % 64),
          bit-lt (f (p / 64)) (p % 64),
        ))
  | inr other ↦ rw other (ground arith)
]

mark-mark_pages :
    (left page p : ℕ) (f : ℕ → ℕ)
    → mark (mark_pages left page f) p ≡ (if leb page p && ltb p (page + left) then 1 else mark f p)
unfolding mark_pages
mark-mark_pages zero page p f = ground arith
mark-mark_pages (suc left) page p f = ground (
  arith,
  mark-mark_pages left (page + 1) p (put f (page / 64) (bit_or (f (page / 64)) (2 ^ (page % 64)))),
  mark-put f page p,
)

-- A mark as `written` reads it.
written_page-mark :
    (p : ℕ) (v : Vram)
    → written_page p v ≡ (ltb (p / 64) (written_words v) && mark v.written p == 1)
unfolding written_page
written_page-mark p v = ground (
  arith,
  bit_test (v.written (p / 64) / 2 ^ (p % 64)) 0,
  bit-div-pow (v.written (p / 64)) (p % 64) 0,
  ap (bit (v.written (p / 64))) whole,
  bit-lt (v.written (p / 64)) (p % 64),
)
  where
    whole : p % 64 + 0 ≡ p % 64
    whole = omega arith

-- `markWritten` of a range that fits a VRAM of whole pages: afterwards a page counts as written exactly if it did before or
-- a byte of the range lies in it.
pub written_page-mark_written :
    (offset count p : ℕ) (v : Vram)
    → offset + count ≤ v.size
    → v.size % page_size ≡ 0
    → written_page p (mark_written offset count v) ≡ (
        written_page p v
        || (ltb 0 count && leb (offset / page_size) p && leb (p * page_size) (offset + count - 1)))
unfolding mark_written
written_page-mark_written offset count p v fits whole = elim (Bool-cases (count == 0)) [
  | inl empty ↦ rw (mark_written, empty) (ground (arith, empty))
  | inr some_bytes ↦
      let last = (offset + count - 1) / page_size in
      let first = offset / page_size in
      let marked = mark_pages (last + 1 - first) first v.written in
      rw (mark_written, some_bytes)
        (ground (
          arith,
          written_page-mark p v,
          written_page-mark p (record v { written = marked }),
          mark-mark_pages (last + 1 - first) first p v.written,
          some_bytes,
        ))
]
