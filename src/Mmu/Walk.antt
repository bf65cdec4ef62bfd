-- ===== src/Mmu/Walk.antt =====
-- The page table that memory holds, read with no unit: where the leaf of an address is, and that the
-- Accessed and Dirty bits change nothing of what the table says.
use ceres_vm.Prelude.{
  ℕ, ◌+◌, ◌-◌, ◌*◌, ◌/◌, ◌%◌, ◌^◌, ◌≤◌, ◌<◌, bit_and, bit_or, ◌≡◌, refl, sym, ap, ◌∙◌, ◌⊎◌, inl,
  inr, Bool, true, false, not, ◌&&◌, ◌||◌, Option, none, some, arith,
}
use ceres_vm.Prelude.Tests.{ltb, leb, ◌==◌, if◌then◌else◌, Bool-cases}
use ceres_vm.Prelude.Bits.{
  bit, bit-lt, bit-bit_and, bit-bit_or, bit-pow, bit_ext, bit_test, bit-mul-pow, bit-ones,
  bit-mod-pow, bit-div-pow,
}
use ceres_vm.Prelude.Widths.{bit_or-lt}
use ceres_vm.Memory.{Memory}
use ceres_vm.Memory.Laws.{byte_at, read_raw_lem}
use ceres_vm.Mmu.{
  MmuAccess, read, write, execute, read_word, write_word, flag_set, page_size, pte_frame_mask,
  pte_present, pte_writable, pte_executable, pte_accessed, pte_dirty, directory_entry_address,
  table_entry_address,
}
use ceres_vm.Mmu.Words.{IsTable, write_word-IsTable, read_word-write_word}

-- Where the leaf entry of an address is, both levels being present.
unfoldable pub leaf : Memory → ℕ → ℕ → Option ℕ
leaf m ptbr va =
    let entry = read_word (directory_entry_address ptbr va) m in
    if flag_set entry pte_present
      && flag_set (read_word (table_entry_address entry va) m) pte_present
    then some (table_entry_address entry va)
    else none

-- Whether a leaf allows an access.
abbrev pub allows : ℕ → MmuAccess → Bool
allows pte read = true
allows pte write = flag_set pte pte_writable
allows pte execute = flag_set pte pte_executable

-- The physical address that a leaf gives.
abbrev pub target : ℕ → ℕ → ℕ
target pte va = bit_or (bit_and pte pte_frame_mask) (va % page_size)

-- What a translation is, by the table alone.
unfoldable pub table_translate : Memory → ℕ → ℕ → MmuAccess → Option ℕ
table_translate m ptbr va access = elim (leaf m ptbr va) [
  | none ↦ none
  | some a ↦ if allows (read_word a m) access then some (target (read_word a m) va) else none
]

mask-digit :
    (k : ℕ) → bit pte_frame_mask k ≡ (if ltb k 12 then 0 else if ltb (k - 12) 20 then 1 else 0)
mask-digit k = ground (arith, bit-mul-pow (2 ^ 20 - 1) 12 k, bit-ones 20 (k - 12))

-- The frame of an entry, by division.
pub frame-eq : (x : ℕ) → bit_and x pte_frame_mask ≡ x / 2 ^ 12 % 2 ^ 20 * 2 ^ 12
frame-eq x = bit_ext _ _ λ k. ground (
  arith,
  bit-bit_and x pte_frame_mask k,
  mask-digit k,
  bit-mul-pow (x / 2 ^ 12 % 2 ^ 20) 12 k,
  bit-mod-pow (x / 2 ^ 12) 20 (k - 12),
  bit-div-pow x 12 (k - 12),
  ap (bit x) (back k),
  bit-lt x k,
)
  where
    back : (k : ℕ) → 12 + (k - 12) ≡ (if leb 12 k then k else 12)
    back k = ground arith

pub table_entry_address-aligned : (entry va : ℕ) → table_entry_address entry va % 4 ≡ 0
table_entry_address-aligned entry va = omega (arith, frame-eq entry)

pub directory_entry_address-aligned :
    (ptbr va : ℕ) → ptbr % 4 ≡ 0 → directory_entry_address ptbr va % 4 ≡ 0
directory_entry_address-aligned ptbr va h = omega arith

-- The second word is the first with no bit changed but Accessed and Dirty, which are never cleared.
pub record ExtendsWord (x y : ℕ) : Type 0 where
  pub frame : bit_and y pte_frame_mask ≡ bit_and x pte_frame_mask
  pub present : flag_set y pte_present ≡ flag_set x pte_present
  pub writable : flag_set y pte_writable ≡ flag_set x pte_writable
  pub executable : flag_set y pte_executable ≡ flag_set x pte_executable
  pub accessed : flag_set x pte_accessed ≡ true → flag_set y pte_accessed ≡ true
  pub dirty : flag_set x pte_dirty ≡ true → flag_set y pte_dirty ≡ true
  pub others : (k : ℕ) → (k == 3 || k == 4) ≡ false → bit y k ≡ bit x k

pub ExtendsWord-refl : (x : ℕ) → ExtendsWord x x
ExtendsWord-refl x = record {
  frame = refl;
  present = refl;
  writable = refl;
  executable = refl;
  accessed = λ h. h;
  dirty = λ h. h;
  others = λ k h. refl;
}

flag-digit : (x n : ℕ) → flag_set x (2 ^ n) ≡ not (bit x n == 0)
flag-digit x n = ap not (bit_test x n)

frame-digits :
    (x s k : ℕ)
    → s < 12
    → bit (bit_and (bit_or x (2 ^ s)) pte_frame_mask) k ≡ bit (bit_and x pte_frame_mask) k
frame-digits x s k h = ground (
  arith,
  bit-bit_and (bit_or x (2 ^ s)) pte_frame_mask k,
  bit-bit_and x pte_frame_mask k,
  bit-bit_or x (2 ^ s) k,
  bit-pow s k,
  mask-digit k,
  bit-lt x k,
)

set_digit :
    (x s n : ℕ)
    → flag_set (bit_or x (2 ^ s)) (2 ^ n) ≡ (if n == s then true else flag_set x (2 ^ n))
set_digit x s n = ground (
  arith,
  flag-digit (bit_or x (2 ^ s)) n,
  flag-digit x n,
  bit-bit_or x (2 ^ s) n,
  bit-pow s n,
  bit-lt x n,
)

other_digit : (x s k : ℕ) → (k == s) ≡ false → bit (bit_or x (2 ^ s)) k ≡ bit x k
other_digit x s k h = ground (arith, h, bit-bit_or x (2 ^ s) k, bit-pow s k, bit-lt x k)

-- Setting Accessed or Dirty.
pub set_flag-ExtendsWord : (x s : ℕ) → (s ≡ 3) ⊎ (s ≡ 4) → ExtendsWord x (bit_or x (2 ^ s))
set_flag-ExtendsWord x s (inl e) = rw e (record {
  frame = bit_ext _ _ λ k. frame-digits x 3 k (omega arith);
  present = set_digit x 3 0;
  writable = set_digit x 3 1;
  executable = set_digit x 3 2;
  accessed = λ h. set_digit x 3 3;
  dirty = λ h. set_digit x 3 4 ∙ h;
  others = λ k h. other_digit x 3 k (ground (arith, h));
})
set_flag-ExtendsWord x s (inr e) = rw e (record {
  frame = bit_ext _ _ λ k. frame-digits x 4 k (omega arith);
  present = set_digit x 4 0;
  writable = set_digit x 4 1;
  executable = set_digit x 4 2;
  accessed = λ h. set_digit x 4 3 ∙ h;
  dirty = λ h. set_digit x 4 4;
  others = λ k h. other_digit x 4 k (ground (arith, h));
})

-- A memory in which every aligned word extends what stood there.
pub record Extends (m m' : Memory) : Type 0 where
  pub table : IsTable m'
  pub words : (q : ℕ) → q % 4 ≡ 0 → ExtendsWord (read_word q m) (read_word q m')

pub Extends-refl : (m : Memory) → IsTable m → Extends m m
Extends-refl m t = record { table = t; words = λ q h. ExtendsWord-refl (read_word q m) }

-- The table is the same to a walk.
pub leaf-Extends :
    (m m' : Memory) (ptbr va : ℕ) → ptbr % 4 ≡ 0 → Extends m m' → leaf m' ptbr va ≡ leaf m ptbr va
unfolding leaf
leaf-Extends m m' ptbr va h x =
    let d = directory_entry_address ptbr va in
    let top = x.words d (directory_entry_address-aligned ptbr va h) in
    let a : table_entry_address (read_word d m') va ≡ table_entry_address (read_word d m) va =
      ap (λ (t : ℕ). (t + va / 2 ^ 12 % 1024 * 4) % 2 ^ 32) top.frame in
    let low =
      x.words (table_entry_address (read_word d m) va)
        (table_entry_address-aligned (read_word d m) va) in
    rw (a, top.present, low.present) refl

-- A word of memory fits 32 bits, and one past the end reads as zero.
pub read_word-lt : (q : ℕ) (m : Memory) → IsTable m → read_word q m < 2 ^ 32
read_word-lt q m t = omega (
  arith,
  read_raw_lem 0 4 q m (inr (inr refl)) t.bytes,
  cell q,
  cell (q + 1),
  cell (q + 1 + 1),
  cell (q + 1 + 1 + 1),
)
  where
    cell : (i : ℕ) → byte_at 0 m i < 256
    cell i = ground (arith, t.bytes i)

pub read_word_outside :
    (q : ℕ) (m : Memory) → IsTable m → q % 4 ≡ 0 → m.size ≤ q → read_word q m ≡ 0
read_word_outside q m t a h = ground (arith, read_raw_lem 0 4 q m (inr (inr refl)) t.bytes)

module _ (p s : ℕ) (m : Memory) (t : IsTable m) (a : p % 4 ≡ 0) (h : (s ≡ 3) ⊎ (s ≡ 4)) where
  marked_lt : bit_or (read_word p m) (2 ^ s) < 2 ^ 32
  marked_lt = bit_or-lt (read_word p m) 32 s (read_word-lt p m t) (ground (arith, h))

  read_marked :
      (q : ℕ)
      → q % 4 ≡ 0
      → read_word q (write_word p (bit_or (read_word p m) (2 ^ s)) m)
        ≡ (if p == q && ltb p m.size then bit_or (read_word p m) (2 ^ s) else read_word q m)
  read_marked q b = read_word-write_word p q (bit_or (read_word p m) (2 ^ s)) m t a b marked_lt

  -- Storing a word with Accessed or Dirty set extends the memory.
  pub set_flag-Extends : Extends m (write_word p (bit_or (read_word p m) (2 ^ s)) m)
  set_flag-Extends = record {
    table = write_word-IsTable p (bit_or (read_word p m) (2 ^ s)) m t;
    words = λ q b. elim (Bool-cases (p == q && ltb p m.size)) [
      | inl here ↦
          let same : p ≡ q = ground arith in
          rw (read_marked q b, here, ← same) (set_flag-ExtendsWord (read_word p m) s h)
      | inr other ↦ rw (read_marked q b, other) (ExtendsWord-refl (read_word q m))
    ];
  }

  -- A present word is inside the memory, so the word that was stored is there.
  pub read_set_flag :
      flag_set (read_word p m) pte_present ≡ true
      → read_word p (write_word p (bit_or (read_word p m) (2 ^ s)) m)
        ≡ bit_or (read_word p m) (2 ^ s)
  read_set_flag present = elim (Bool-cases (ltb p m.size)) [
    | inl inside ↦ ground (arith, read_marked p a)
    | inr outside ↦
        let no_word = read_word_outside p m t a (ground arith) in
        let off : false ≡ true = sym (ap (λ (w : ℕ). flag_set w pte_present) no_word) ∙ present in
        cc
  ]

  pub flag_stored :
      flag_set (read_word p m) pte_present ≡ true
      → flag_set (read_word p (write_word p (bit_or (read_word p m) (2 ^ s)) m)) (2 ^ s) ≡ true
  flag_stored present = rw (read_set_flag present) (set_digit (read_word p m) s s ∙ ground arith)
