-- ===== src/Vm/Vectors.antt =====
-- The vectors: the default handlers, the reset vector and the ones that the program binds.
use ceres_vm.Prelude.{
  ℕ, zero, suc, ◌+◌, ◌-◌, ◌*◌, ◌/◌, ◌%◌, ◌^◌, ◌≤◌, ◌<◌, ◌≡◌, refl, sym, ap, ◌∙◌, Bool, true, false,
  ◌&&◌, inl, ◌||◌, inr, none, List, [], ◌∷◌, arith,
}
use ceres_vm.Prelude.Tests.{ltb, leb, ◌==◌, ==_refl, if◌then◌else◌, Bool-cases}
use ceres_vm.Prelude.Bytes.{or_four}
use ceres_vm.Memory.{Memory, read_raw, read_fast, write_raw}
use ceres_vm.Memory.Laws.{write_raw_lem}
use ceres_vm.Program.{InterruptVectorPatch}
use ceres_vm.Vm.{check_vectors, patch_vectors}
use ceres_vm.Vm.Bios.{init_entry, init_entries, initialize_memory}
use ceres_vm.Vm.Frame.{Keeps, Keeps-trans, write_raw-Keeps, read_raw-Keeps}

-- The reset vector and everything above the BIOS.
abbrev pub not_bios : ℕ → Bool
not_bios a = ltb a 4 || leb 0x400 a

-- One word inside the BIOS or the other vectors.
word-Keeps :
    (base v : ℕ) (m : Memory)
    → 4 ≤ base
    → base + 4 ≤ 0x400
    → Keeps not_bios m (write_raw 0 4 base v m)
word-Keeps base v m low high =
    write_raw-Keeps not_bios 4 base v m (inr (inr refl)) (λ a h. ground (arith, h))

init_entry-Keeps : (k : ℕ) (m : Memory) → k < 16 → Keeps not_bios m (init_entry k m)
unfolding init_entry
init_entry-Keeps k m h = Keeps-trans not_bios (word-Keeps _ _ m (omega arith) (omega (arith, h))) (
    Keeps-trans not_bios (word-Keeps _ _ _ (omega arith) (omega (arith, h))) (
      Keeps-trans not_bios (word-Keeps _ _ _ (omega arith) (omega (arith, h))) (
        Keeps-trans not_bios (word-Keeps _ _ _ (omega arith) (omega (arith, h))) (
          Keeps-trans not_bios (word-Keeps _ _ _ (omega arith) (omega (arith, h))) (
            Keeps-trans not_bios (word-Keeps _ _ _ (omega arith) (omega (arith, h)))
              (word-Keeps _ _ _ (omega arith) (omega (arith, h))))))))

init_entries-Keeps :
    (left k : ℕ) (m : Memory) → k + left ≤ 16 → Keeps not_bios m (init_entries left k m)
unfolding init_entries
init_entries-Keeps zero k m h = record { size = refl; cells = λ a p. refl }
init_entries-Keeps (suc left) k m h =
    Keeps-trans not_bios (init_entry-Keeps k m (omega (arith, h)))
      (init_entries-Keeps left (k + 1) (init_entry k m) (omega (arith, h)))

pub initialize_memory-Keeps : (m : Memory) → Keeps not_bios m (initialize_memory m)
unfolding initialize_memory
initialize_memory-Keeps m = init_entries-Keeps 16 0 m (omega arith)

-- Patches that `check` lets through leave the reset vector and the image alone.
pub patch_vectors-Keeps :
    (ps : List InterruptVectorPatch) (patched : ℕ → Bool) (m : Memory)
    → check_vectors ps patched ≡ none
    → Keeps not_bios m (patch_vectors ps m)
unfolding check_vectors patch_vectors
patch_vectors-Keeps [] patched m h = record { size = refl; cells = λ a p. refl }
patch_vectors-Keeps (p ∷ ps) patched m h =
    let low : 1 ≤ p.interrupt_number = ground (arith, h) in
    let high : p.interrupt_number < 64 = ground (arith, h) in
    let rest : check_vectors ps (λ n. if n == p.interrupt_number then true else patched n) ≡ none =
      ground (arith, h) in
    Keeps-trans not_bios
      (word-Keeps (p.interrupt_number * 4) p.handler_address m (omega (arith, low))
        (omega (arith, high)))
      (patch_vectors-Keeps ps _ _ rest)

-- A word in the RAM is read from its four cells.
pub read_word_cells :
    (base v : ℕ) (m : Memory)
    → base + 4 ≤ m.size
    → v < 2 ^ 32
    → m.bytes base ≡ v % 2 ^ 8
    → m.bytes (base + 1) ≡ v / 2 ^ 8 % 2 ^ 8
    → m.bytes (base + 2) ≡ v / 2 ^ 16 % 2 ^ 8
    → m.bytes (base + 3) ≡ v / 2 ^ 24 % 2 ^ 8
    → read_raw 0 4 base m ≡ v
unfolding read_raw read_fast
read_word_cells base v m fits small b0 b1 b2 b3 = ground (
  arith,
  fits,
  small,
  b0,
  b1,
  b2,
  b3,
  or_four (m.bytes base) (m.bytes (base + 1)) (m.bytes (base + 2)) (m.bytes (base + 3)),
)

-- A word that is stored in the RAM, read back.
module _ (base v : ℕ) (m : Memory) (fits : base + 4 ≤ m.size) where
  stored_byte :
      (k : ℕ) → k < 4 → (write_raw 0 4 base v m).bytes (base + k) ≡ v / 2 ^ (k * 8) % 2 ^ 8
  stored_byte k h =
      let same : base + k - base ≡ k = omega arith in
      (write_raw_lem 0 4 base v m (inr (inr refl))).1 (base + k) ∙ rw same (ground (arith, h, fits))

  pub read_write_word : read_raw 0 4 base (write_raw 0 4 base v m) ≡ v % 2 ^ 32
  read_write_word =
      let size = (write_raw_lem 0 4 base v m (inr (inr refl))).0 in
      let first : base + 0 ≡ base = omega arith in
      let first_byte : (write_raw 0 4 base v m).bytes base ≡ v / 2 ^ (0 * 8) % 2 ^ 8 =
        ap (λ (a : ℕ). (write_raw 0 4 base v m).bytes a) (sym first)
        ∙ stored_byte 0 (omega arith) in
      read_word_cells base (v % 2 ^ 32) (write_raw 0 4 base v m) (omega (arith, size, fits))
        (omega arith) (omega (arith, first_byte)) (omega (arith, stored_byte 1 (omega arith)))
        (omega (arith, stored_byte 2 (omega arith))) (omega (arith, stored_byte 3 (omega arith)))

-- The vectors that a program binds, with their handlers.
abbrev pub AreBound : List InterruptVectorPatch → Memory → Type 0
AreBound [] m = Unit
AreBound (p ∷ ps) m =
    (read_raw 0 4 (p.interrupt_number * 4) m ≡ p.handler_address % 2 ^ 32) × AreBound ps m

-- The cells of one vector.
abbrev of_vector : ℕ → ℕ → Bool
of_vector n a = leb (n * 4) a && ltb a (n * 4 + 4)

-- A vector that is bound already is bound by no later patch.
patch_vectors_bound :
    (ps : List InterruptVectorPatch) (patched : ℕ → Bool) (m : Memory) (n : ℕ)
    → check_vectors ps patched ≡ none
    → patched n ≡ true
    → Keeps (of_vector n) m (patch_vectors ps m)
unfolding check_vectors patch_vectors
patch_vectors_bound [] patched m n h b = record { size = refl; cells = λ a p. refl }
patch_vectors_bound (p ∷ ps) patched m n h b =
    let apart : (n == p.interrupt_number) ≡ false = bound_apart p ps patched n h b in
    Keeps-trans (of_vector n)
      (write_raw-Keeps (of_vector n) 4 (p.interrupt_number * 4) p.handler_address m (inr (inr refl))
        (λ a q. ground (arith, q, apart)))
      (patch_vectors_bound ps (λ k. if k == p.interrupt_number then true else patched k) _ n
        (ground (arith, h)) (rw apart b))
  where
    bound_apart :
        (p : InterruptVectorPatch) (ps : List InterruptVectorPatch) (patched : ℕ → Bool) (n : ℕ)
        → check_vectors (p ∷ ps) patched ≡ none
        → patched n ≡ true
        → (n == p.interrupt_number) ≡ false
    bound_apart p ps patched n h b = elim (Bool-cases (n == p.interrupt_number)) [
      | inl e ↦
          let same : n ≡ p.interrupt_number = ground (arith, e) in
          let taken : patched p.interrupt_number ≡ true = ap patched (sym same) ∙ b in
          ground (arith, h, taken)
      | inr e ↦ e
    ]

-- Patches that `check` lets through bind every vector that they name.
pub patch_vectors-AreBound :
    (ps : List InterruptVectorPatch) (patched : ℕ → Bool) (m : Memory)
    → check_vectors ps patched ≡ none
    → 256 ≤ m.size
    → AreBound ps (patch_vectors ps m)
unfolding check_vectors patch_vectors
patch_vectors-AreBound [] patched m h room = tt
patch_vectors-AreBound (p ∷ ps) patched m h room =
    let high : p.interrupt_number < 64 = ground (arith, h) in
    let n = p.interrupt_number in
    let m1 = write_raw 0 4 (n * 4) p.handler_address m in
    let size = (write_raw_lem 0 4 (n * 4) p.handler_address m (inr (inr refl))).0 in
    let next : ℕ → Bool = λ k. if k == n then true else patched k in
    let rest : check_vectors ps next ≡ none = ground (arith, h) in
    (
      read_raw-Keeps (of_vector n) m1 (patch_vectors ps m1)
            (patch_vectors_bound ps next m1 n rest (rw (==_refl n) refl)) (n * 4)
            (omega (arith, size, high, room)) (λ j q. ground (arith, q))
          ∙ read_write_word (n * 4) p.handler_address m (omega (arith, high, room)),
      patch_vectors-AreBound ps next m1 rest (omega (arith, size, room)),
    )

-- Writes above the vectors leave them.
pub AreBound-Keeps :
    (kept : ℕ → Bool) (m m' : Memory)
    → Keeps kept m m'
    → 256 ≤ m.size
    → ((a : ℕ) → a < 256 → kept a ≡ true)
    → (ps : List InterruptVectorPatch) (patched : ℕ → Bool) → check_vectors ps patched ≡ none
    → AreBound ps m
    → AreBound ps m'
unfolding check_vectors
AreBound-Keeps kept m m' k room low [] patched h b = tt
AreBound-Keeps kept m m' k room low (p ∷ ps) patched h b =
    let high : p.interrupt_number < 64 = ground (arith, h) in
    (
      read_raw-Keeps kept m m' k (p.interrupt_number * 4) (omega (arith, high, room))
            (λ j q. low (p.interrupt_number * 4 + j) (omega (arith, high)))
          ∙ b.0,
      AreBound-Keeps kept m m' k room low ps
          (λ n. if n == p.interrupt_number then true else patched n) (ground (arith, h)) b.1,
    )
