-- ===== src/Vm/Frame.antt =====
-- What the loader's writes leave alone.
use ceres_vm.Prelude.{
  ℕ, ◌+◌, ◌≤◌, ◌<◌, ◌≡◌, refl, sym, ◌∙◌, ap, Bool, true, false, ◌⊎◌, some, List, arith,
}
use ceres_vm.Prelude.Lists.{length}
use ceres_vm.Memory.{Memory, read_raw, read_fast, read_bytes, write_raw, write_bytes, overwrite}
use ceres_vm.Memory.Laws.{IsWidth, write_raw_lem}
use ceres_vm.Memory.Blocks.{overwrite_below, overwrite_above, span_from_ext}

-- The second memory is as large as the first and agrees with it where `kept` says so.
pub record Keeps (kept : ℕ → Bool) (m m' : Memory) : Type 0 where
  pub size : m'.size ≡ m.size
  pub cells : (a : ℕ) → kept a ≡ true → m'.bytes a ≡ m.bytes a

module _ (kept : ℕ → Bool) where
  pub Keeps-trans : {m n k : Memory} → Keeps kept m n → Keeps kept n k → Keeps kept m k
  Keeps-trans p q = record { size = q.size ∙ p.size; cells = λ a h. q.cells a h ∙ p.cells a h }

  pub write_raw-Keeps :
      (n base v : ℕ) (m : Memory)
      → IsWidth n
      → ((a : ℕ) → kept a ≡ true → (a < base) ⊎ (base + n ≤ a))
      → Keeps kept m (write_raw 0 n base v m)
  write_raw-Keeps n base v m w apart = record {
    size = (write_raw_lem 0 n base v m w).0;
    cells = λ a h. (write_raw_lem 0 n base v m w).1 a ∙ ground (arith, apart a h);
  }

  pub write_bytes-Keeps :
      (base : ℕ) (bs : List ℕ) (m : Memory)
      → base + length bs ≤ m.size
      → ((a : ℕ) → kept a ≡ true → (a < base) ⊎ (base + length bs ≤ a))
      → (m' : Memory) × (write_bytes false base bs m ≡ some m') × Keeps kept m m'
  unfolding write_bytes
  write_bytes-Keeps base bs m fits apart = (
    record m { bytes = overwrite m.bytes base bs },
    ground arith,
    record {
      size = refl;
      cells = λ a h.
          ground (
            arith,
            apart a h,
            overwrite_below m.bytes base bs a,
            overwrite_above m.bytes base bs a,
          );
    },
  )

pub Keeps-weaken :
    (kept kept' : ℕ → Bool) {m m' : Memory}
    → ((a : ℕ) → kept' a ≡ true → kept a ≡ true)
    → Keeps kept m m'
    → Keeps kept' m m'
Keeps-weaken kept kept' h k = record { size = k.size; cells = λ a p. k.cells a (h a p) }

-- A word and a block that are left alone are read as before.
module _ (kept : ℕ → Bool) (m m' : Memory) (k : Keeps kept m m') where
  pub read_raw-Keeps :
      (slot : ℕ)
      → slot + 4 ≤ m.size
      → ((j : ℕ) → j < 4 → kept (slot + j) ≡ true)
      → read_raw 0 4 slot m' ≡ read_raw 0 4 slot m
  unfolding read_raw read_fast
  read_raw-Keeps slot fits h =
      let zero_at : slot + 0 ≡ slot = omega arith in
      let c0 = k.cells slot (ap kept (sym zero_at) ∙ h 0 (omega arith)) in
      let c1 = k.cells (slot + 1) (h 1 (omega arith)) in
      let c2 = k.cells (slot + 2) (h 2 (omega arith)) in
      let c3 = k.cells (slot + 3) (h 3 (omega arith)) in
      ground (arith, k.size, fits, c0, c1, c2, c3)

  pub read_bytes-Keeps :
      (base n : ℕ)
      → ((j : ℕ) → j < n → kept (base + j) ≡ true)
      → read_bytes false base n m' ≡ read_bytes false base n m
  unfolding read_bytes
  read_bytes-Keeps base n h =
      let same = span_from_ext m'.bytes m.bytes base base n (λ j p. k.cells (base + j) (h j p)) in
      ground (arith, k.size, same)
