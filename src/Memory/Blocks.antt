-- ===== src/Memory/Blocks.antt =====
-- Spans of bytes: round trips, overlap, bounds and the clamp that a device's transfer relies on.
use ceres_vm.Prelude.{
  ℕ, zero, suc, ◌+◌, ◌-◌, ◌≤◌, ◌<◌, ◌≡◌, refl, ap, Bool, ◌&&◌, some, List, [], ◌∷◌, arith,
}
use ceres_vm.Prelude.Tests.{ltb, leb, if◌then◌else◌}
use ceres_vm.Prelude.Lists.{length}
use ceres_vm.Memory.{
  Memory, span_from, overwrite, write_bytes, read_bytes, copy_bytes, clamp_block_size,
}

pub overwrite_below :
    (f : ℕ → ℕ) (base : ℕ) (bs : List ℕ) (a : ℕ) → a < base → overwrite f base bs a ≡ f a
unfolding overwrite
overwrite_below f base [] a h = refl
overwrite_below f base (b ∷ bs) a h = ground (arith, overwrite_below f (base + 1) bs a)

pub overwrite_above :
    (f : ℕ → ℕ) (base : ℕ) (bs : List ℕ) (a : ℕ)
    → base + length bs ≤ a
    → overwrite f base bs a ≡ f a
unfolding overwrite
overwrite_above f base [] a h = refl
overwrite_above f base (b ∷ bs) a h = ground (arith, overwrite_above f (base + 1) bs a)

pub span_from_ext :
    (f g : ℕ → ℕ) (base base' n : ℕ)
    → ((k : ℕ) → k < n → f (base + k) ≡ g (base' + k))
    → span_from f base n ≡ span_from g base' n
unfolding span_from
span_from_ext f g base base' zero h = refl
span_from_ext f g base base' (suc n) h =
    ground (arith, ap f first, ap g first', h 0, span_from_ext f g (base + 1) (base' + 1) n later)
  where
    first : base + 0 ≡ base
    first = omega arith

    first' : base' + 0 ≡ base'
    first' = omega arith

    later : (k : ℕ) → k < n → f (base + 1 + k) ≡ g (base' + 1 + k)
    later k p =
        let e : base + suc k ≡ base + 1 + k = omega arith in
        let e' : base' + suc k ≡ base' + 1 + k = omega arith in
        ground (arith, ap f e, ap g e', h (suc k))

span_from-overwrite :
    (f : ℕ → ℕ) (base : ℕ) (bs : List ℕ) → span_from (overwrite f base bs) base (length bs) ≡ bs
unfolding span_from overwrite
span_from-overwrite f base [] = refl
span_from-overwrite f base (b ∷ bs) = ground (
  arith,
  span_from-overwrite f (base + 1) bs,
  span_from_ext (overwrite f base (b ∷ bs)) (overwrite f (base + 1) bs) (base + 1) (base + 1)
      (length bs) (λ k p. ground arith),
)

-- A span that was written without an exception reads back as it was written, and the bytes before
-- and after it are what they were.
pub write_bytes-read_bytes :
    (checked : Bool) (base : ℕ) (bs : List ℕ) (m : Memory) {m' : Memory}
    → write_bytes checked base bs m ≡ some m'
    → (read_bytes checked base (length bs) m' ≡ some bs)
      × ((a : ℕ) → a < base → m'.bytes a ≡ m.bytes a)
      × ((a : ℕ) → base + length bs ≤ a → m'.bytes a ≡ m.bytes a)
unfolding write_bytes read_bytes
write_bytes-read_bytes checked base bs m {m'} h = (
  ground (arith, span_from-overwrite m.bytes base bs),
  λ a p. ground (arith, overwrite_below m.bytes base bs a),
  λ a p. ground (arith, overwrite_above m.bytes base bs a),
)

-- A copy without an exception is a move: the destination reads as the source read before it, also
-- where the two overlap, and no byte outside the destination changes.
pub copy_bytes_moves :
    (checked : Bool) (src dest count : ℕ) (m : Memory) {m' : Memory}
    → copy_bytes checked src dest count m ≡ some m'
    → (read_bytes checked dest count m' ≡ read_bytes checked src count m)
      × ((a : ℕ) → a < dest → m'.bytes a ≡ m.bytes a)
      × ((a : ℕ) → dest + count ≤ a → m'.bytes a ≡ m.bytes a)
unfolding copy_bytes read_bytes
copy_bytes_moves checked src dest count m {m'} h = (
  ground (
    arith,
    span_from_ext
        (λ a. if leb dest a && ltb a (dest + count) then m.bytes (src + (a - dest)) else m.bytes a)
        m.bytes dest src count moved,
  ),
  λ a p. ground arith,
  λ a p. ground arith,
)
  where
    moved :
        (k : ℕ)
        → k < count
        → (if leb dest (dest + k) && ltb (dest + k) (dest + count)
            then m.bytes (src + (dest + k - dest))
            else m.bytes (dest + k))
          ≡ m.bytes (src + k)
    moved k p = let e : dest + k - dest ≡ k = omega arith in rw e (ground arith)

-- The clamp of a device's block transfer: what it lets through is never more than was asked, can be
-- read without an exception, and is cut short only by the end of the memory.
pub clamp_block_size_safe :
    (checked : Bool) (base count : ℕ) (m : Memory)
    → 0 < clamp_block_size checked base count m
    → let c = clamp_block_size checked base count m in
      (c ≤ count)
      × ((bs : List ℕ) × (read_bytes checked base c m ≡ some bs))
      × (c < count → base + c ≡ m.size)
unfolding clamp_block_size read_bytes
clamp_block_size_safe checked base count m h = (
  ground arith,
  (span_from m.bytes base (clamp_block_size checked base count m), ground arith),
  λ p. ground arith,
)
