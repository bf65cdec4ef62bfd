-- ===== src/Memory/Laws.antt =====
-- Loads and stores of words: what they read, what they write and what they leave alone.
use ceres_vm.Prelude.{
  ℕ, zero, suc, ◌+◌, ◌-◌, ◌*◌, ◌/◌, ◌%◌, ◌^◌, ◌≤◌, ◌<◌, ◌≡◌, refl, ap, ◌∙◌, ◌⊎◌, inl, inr, ◌&&◌,
  arith,
}
use ceres_vm.Prelude.Tests.{ltb, leb, ◌==◌, if◌then◌else◌, Bool-cases}
use ceres_vm.Prelude.Bytes.{or_next, or_four}
use native.Mathlib.Nat.{add-zero}
use native.Mathlib.Numerals.{towards_suc}
use ceres_vm.Memory.{Memory, read_raw, read_slow, read_fast, write_raw, write_slow, write_fast, put}

-- Every cell holds a byte.
abbrev pub IsBytes : Memory → Type 0
IsBytes m = (i : ℕ) → m.bytes i < 256

-- The byte that a window with lowest index `first` shows at `i`: zero outside it.
abbrev pub byte_at : ℕ → Memory → ℕ → ℕ
byte_at first m i = if leb first i && ltb i m.size then m.bytes i else 0

-- A little-endian word of `n` bytes.
abbrev pub le_word : ℕ → (ℕ → ℕ) → ℕ → ℕ
le_word zero f base = 0
le_word (suc n) f base = f base + 256 * le_word n f (base + 1)

-- The widths of the machine's accesses.
abbrev pub IsWidth : ℕ → Type 0
IsWidth n = (n ≡ 1) ⊎ (n ≡ 2) ⊎ (n ≡ 4)

pow-add-eight : (k : ℕ) → 2 ^ (k + 8) ≡ 256 * 2 ^ k
pow-add-eight k = simp towards_suc (omega arith)

digit_fits : (v b P : ℕ) {Q : ℕ} → v < P → b < 256 → Q ≡ 256 * P → v + b * P < Q
digit_fits v b P p q e = grind arith

module _ (first base : ℕ) (m : Memory) (h : IsBytes m) where
  byte_at-lt : (i : ℕ) → byte_at first m i < 256
  byte_at-lt i = ground (arith, h i)

  -- The loop adds the bytes from `i` on above the digits that it has.
  read_slow_lem :
      (left i v : ℕ)
      → v < 2 ^ (i * 8)
      → read_slow m first base left i v
        ≡ v + le_word left (byte_at first m) (base + i) * 2 ^ (i * 8)
  unfolding read_slow
  read_slow_lem zero i v p = omega arith
  read_slow_lem (suc left) i v p =
      let b = byte_at first m (base + i) in
      let e = or_next v b (i * 8) p in
      let e8 : 2 ^ ((i + 1) * 8) ≡ 256 * 2 ^ (i * 8) =
        ap (λ (t : ℕ). 2 ^ t) (same (i * 8)) ∙ pow-add-eight (i * 8) in
      let next : base + (i + 1) ≡ base + i + 1 = omega arith in
      rw e (
        read_slow_lem left (i + 1) (v + b * 2 ^ (i * 8))
          (digit_fits v b (2 ^ (i * 8)) p (byte_at-lt (base + i)) e8)
        ∙ rw (e8, next) (omega arith))
    where
      same : (k : ℕ) → (i + 1) * 8 ≡ i * 8 + 8
      same k = omega arith

  module _ (low : first ≤ base) where
    byte_at-inside : (i : ℕ) → base + i < m.size → byte_at first m (base + i) ≡ m.bytes (base + i)
    byte_at-inside i p = ground arith

    read_fast_lem :
        (n : ℕ)
        → IsWidth n
        → base + n ≤ m.size
        → read_fast m base n ≡ le_word n (byte_at first m) base
    unfolding read_fast
    read_fast_lem n (inl e) p = rw e (ground arith)
    read_fast_lem n (inr (inl e)) p =
        let next : base + 0 ≡ base = omega arith in
        rw e (
          or_next (m.bytes base) (m.bytes (base + 1)) 8 (h base)
          ∙ ground (arith, ap m.bytes next, byte_at-inside 0, byte_at-inside 1))
    read_fast_lem n (inr (inr e)) p =
        let e2 : base + 1 + 1 ≡ base + 2 = omega arith in
        let e3 : base + 2 + 1 ≡ base + 3 = omega arith in
        rw
          (
            e,
            or_four (m.bytes base) (m.bytes (base + 1)) (m.bytes (base + 2)) (m.bytes (base + 3))
                (h base) (h (base + 1)) (h (base + 2)),
            e2,
            e3,
          )
          (ground (arith, byte_at-inside 1, byte_at-inside 2, byte_at-inside 3))

-- Loads: whichever path the code takes, a load of 1, 2 or 4 bytes gives the little-endian word of
-- the bytes in the window, those outside it counting as zero.
pub read_raw_lem :
    (first n base : ℕ) (m : Memory)
    → IsWidth n
    → IsBytes m
    → read_raw first n base m ≡ le_word n (byte_at first m) base
unfolding read_raw
read_raw_lem first n base m w h =
    elim (Bool-cases (leb n m.size && leb first base && leb base (m.size - n))) [
      | inl fast ↦ rw fast (read_fast_lem first base m h (ground arith) n w (ground arith))
      | inr slow ↦
          rw slow (read_slow_lem first base m h n 0 0 (omega arith) ∙ simp (add-zero) (omega arith))
    ]

-- What a cell holds after a store of `n` bytes at `base` through a window from `first`.
abbrev pub stored : ℕ → ℕ → ℕ → ℕ → Memory → ℕ → ℕ
stored first n base v m j =
    if leb base j && ltb j (base + n) && leb first j && ltb j m.size
    then v / 2 ^ ((j - base) * 8) % 2 ^ 8
    else m.bytes j

pub size-write_slow :
    (first base v left i : ℕ) (m : Memory) → (write_slow first base v left i m).size ≡ m.size
unfolding write_slow
size-write_slow first base v zero i m = refl
size-write_slow first base v (suc left) i m =
    size-write_slow first base v left (i + 1) _ ∙ ground arith

write_slow_lem :
    (first base v left i j : ℕ) (m : Memory)
    → (write_slow first base v left i m).bytes j ≡ (
        if leb (base + i) j && ltb j (base + (i + left)) && leb first j && ltb j m.size
        then v / 2 ^ ((j - base) * 8) % 2 ^ 8
        else m.bytes j)
unfolding write_slow
write_slow_lem first base v zero i j m = ground arith
write_slow_lem first base v (suc left) i j m = ground (
  arith,
  write_slow_lem first base v left (i + 1) j m,
  write_slow_lem first base v left (i + 1) j
      (record m { bytes = put m.bytes (base + i) (v / 2 ^ (i * 8) % 2 ^ 8) }),
  ap (λ (t : ℕ). v / 2 ^ (t * 8) % 2 ^ 8) here,
)
  where
    here : (if base + i == j then j - base else i) ≡ i
    here = ground arith

-- The byte of `v` that lands at distance `k` from the base.
byte_of_value :
    (v base j k : ℕ) → base + k ≡ j → v / 2 ^ ((j - base) * 8) % 2 ^ 8 ≡ v / 2 ^ (k * 8) % 2 ^ 8
byte_of_value v base j k e = ap (λ (t : ℕ). v / 2 ^ (t * 8) % 2 ^ 8) (omega arith)

write_fast_lem :
    (first n base v j : ℕ) (m : Memory)
    → IsWidth n
    → first ≤ base
    → base + n ≤ m.size
    → (write_fast n base v m).bytes j ≡ stored first n base v m j
unfolding write_fast
write_fast_lem first n base v j m (inl e) p q = rw e (ground (arith, byte_of_value v base j 0))
write_fast_lem first n base v j m (inr (inl e)) p q =
    rw e (ground (arith, byte_of_value v base j 0, byte_of_value v base j 1))
write_fast_lem first n base v j m (inr (inr e)) p q = rw e (
    ground (
      arith,
      byte_of_value v base j 0,
      byte_of_value v base j 1,
      byte_of_value v base j 2,
      byte_of_value v base j 3,
    ))

size-write_fast : (n base v : ℕ) (m : Memory) → (write_fast n base v m).size ≡ m.size
unfolding write_fast
size-write_fast n base v m = refl

-- Stores: whichever path the code takes, a store of 1, 2 or 4 bytes puts the little-endian bytes of
-- its value in the cells of its range that lie in the window, and changes no other cell and no size.
pub write_raw_lem :
    (first n base v : ℕ) (m : Memory)
    → IsWidth n
    → ((write_raw first n base v m).size ≡ m.size)
      × ((j : ℕ) → (write_raw first n base v m).bytes j ≡ stored first n base v m j)
unfolding write_raw
write_raw_lem first n base v m w =
    elim (Bool-cases (leb n m.size && leb first base && leb base (m.size - n))) [
      | inl fast ↦ rw fast (
        size-write_fast n base v m,
        λ j. write_fast_lem first n base v j m w (ground arith) (ground arith),
      )
      | inr slow ↦ rw slow (
        size-write_slow first base v n 0 m,
        λ j. write_slow_lem first base v n 0 j m ∙ zero_base j,
      )
    ]
  where
    zero_base :
        (j : ℕ)
        → (if leb (base + 0) j && ltb j (base + (0 + n)) && leb first j && ltb j m.size
            then v / 2 ^ ((j - base) * 8) % 2 ^ 8
            else m.bytes j)
          ≡ stored first n base v m j
    zero_base j = ground arith

-- The bytes of `v`, put together, are `v` cut to the width.
word_of_bytes :
    (n base v : ℕ) (f : ℕ → ℕ)
    → IsWidth n
    → ((k : ℕ) → k < n → f (base + k) ≡ v / 2 ^ (k * 8) % 2 ^ 8)
    → le_word n f base ≡ v % 2 ^ (8 * n)
word_of_bytes n base v f (inl e) h =
    let z : base + 0 ≡ base = omega arith in
    let b0 = h 0 (omega arith) in rw e (omega (arith, ap f z, b0))
word_of_bytes n base v f (inr (inl e)) h =
    let z : base + 0 ≡ base = omega arith in
    let b0 = h 0 (omega arith) in let b1 = h 1 (omega arith) in rw e (omega (arith, ap f z, b0, b1))
word_of_bytes n base v f (inr (inr e)) h =
    let z : base + 0 ≡ base = omega arith in
    let z2 : base + 1 + 1 ≡ base + 2 = omega arith in
    let z3 : base + 2 + 1 ≡ base + 3 = omega arith in
    let b0 = h 0 (omega arith) in
    let b1 = h 1 (omega arith) in
    let b2 = h 2 (omega arith) in
    let b3 = h 3 (omega arith) in rw (e, z2, z3) (omega (arith, ap f z, b0, b1, b2, b3))

module _ (first n base v : ℕ) (m : Memory) (w : IsWidth n) where
  -- Stores keep every cell a byte.
  pub write_raw-IsBytes : IsBytes m → IsBytes (write_raw first n base v m)
  write_raw-IsBytes h j = ground (arith, (write_raw_lem first n base v m w).1 j, h j)

  module _ (low : first ≤ base) (room : base + n ≤ m.size) where
    byte_after :
        (k : ℕ)
        → k < n
        → byte_at first (write_raw first n base v m) (base + k) ≡ v / 2 ^ (k * 8) % 2 ^ 8
    byte_after k p = ground (
      arith,
      write_raw_lem first n base v m w,
      (write_raw_lem first n base v m w).1 (base + k),
      byte_of_value v base (base + k) k,
    )

    -- A load after a store inside the window gives the stored value, cut to the width.
    pub read_raw-write_raw :
        IsBytes m → read_raw first n base (write_raw first n base v m) ≡ v % 2 ^ (8 * n)
    read_raw-write_raw h =
        read_raw_lem first n base _ w (write_raw-IsBytes h) ∙ word_of_bytes n base v _ w byte_after
