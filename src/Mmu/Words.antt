-- ===== src/Mmu/Words.antt =====
-- Table words in memory: aligned words are equal or apart, and the bits that the unit sets leave what
-- an entry says of a translation as it was.
use ceres_vm.Prelude.{
  ℕ, ◌+◌, ◌%◌, ◌^◌, ◌≤◌, ◌<◌, ◌≡◌, refl, sym, ap, ◌∙◌, inl, inr, false, ◌&&◌, arith,
}
use ceres_vm.Prelude.Tests.{ltb, ◌==◌, if◌then◌else◌, Bool-cases}
use ceres_vm.Memory.{Memory}
use ceres_vm.Memory.Laws.{
  IsBytes, stored, byte_at, le_word, read_raw_lem, write_raw_lem, write_raw-IsBytes,
  read_raw-write_raw,
}
use ceres_vm.Mmu.{read_word, write_word}

-- A memory whose size is a whole number of words, as `make` gives it.
pub record IsTable (m : Memory) : Type 0 where
  pub bytes : IsBytes m
  pub whole : m.size % 4 ≡ 0

pub write_word-IsTable : (p v : ℕ) (m : Memory) → IsTable m → IsTable (write_word p v m)
write_word-IsTable p v m t =
    let w = write_raw_lem 0 4 p v m (inr (inr refl)) in
    record {
      bytes = write_raw-IsBytes 0 4 p v m (inr (inr refl)) t.bytes;
      whole = ap (λ (n : ℕ). n % 4) w.0 ∙ t.whole;
    }

-- Aligned words that share a byte are the same word.
apart : (p q k j : ℕ) → p % 4 ≡ 0 → q % 4 ≡ 0 → p ≤ k → k < p + 4 → q ≤ k → k < q + 4 → p ≡ q
apart p q k j hp hq a b c d = omega arith

module _ (p q v : ℕ) (m : Memory) (t : IsTable m) (hp : p % 4 ≡ 0) (hq : q % 4 ≡ 0) where
  cell_after : (j : ℕ) → (write_word p v m).bytes j ≡ stored 0 4 p v m j
  cell_after = (write_raw_lem 0 4 p v m (inr (inr refl))).1

  size_after : (write_word p v m).size ≡ m.size
  size_after = (write_raw_lem 0 4 p v m (inr (inr refl))).0

  byte_kept :
      (p == q && ltb p m.size) ≡ false
      → (j : ℕ) → q ≤ j
      → j < q + 4
      → byte_at 0 (write_word p v m) j ≡ byte_at 0 m j
  byte_kept other j low high = elim (Bool-cases (p == q)) [
    | inl same ↦ ground (arith, size_after, cell_after j, t.whole)
    | inr differs ↦ ground (arith, size_after, cell_after j, apart p q j j hp hq)
  ]

  -- An aligned word after a store to an aligned word.
  pub read_word-write_word :
      v < 2 ^ 32
      → read_word q (write_word p v m) ≡ (if p == q && ltb p m.size then v else read_word q m)
  read_word-write_word small = elim (Bool-cases (p == q && ltb p m.size)) [
    | inl hit ↦ rw hit (
        let same : p ≡ q = ground arith in
        let room : p + 4 ≤ m.size = ground (arith, t.whole) in
        rw (← same)
          (read_raw-write_raw 0 4 p v m (inr (inr refl)) (omega arith) room t.bytes ∙ omega arith))
    | inr other ↦
        let k = byte_kept other in
        rw other (
          read_raw_lem 0 4 q _ (inr (inr refl)) (write_word-IsTable p v m t).bytes
          ∙ words (byte_at 0 (write_word p v m)) (byte_at 0 m) (k q (omega arith) (omega arith))
              (k (q + 1) (omega arith) (omega arith)) (k (q + 1 + 1) (omega arith) (omega arith))
              (k (q + 1 + 1 + 1) (omega arith) (omega arith))
          ∙ sym (read_raw_lem 0 4 q m (inr (inr refl)) t.bytes))
  ]
    where
      words :
          (f g : ℕ → ℕ)
          → f q ≡ g q
          → f (q + 1) ≡ g (q + 1)
          → f (q + 1 + 1) ≡ g (q + 1 + 1)
          → f (q + 1 + 1 + 1) ≡ g (q + 1 + 1 + 1)
          → le_word 4 f q ≡ le_word 4 g q
      words f g a b c d = rw (a, b, c, d) refl
