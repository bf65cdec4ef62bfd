-- ===== src/Program/Bytes.antt =====
-- Numbers of two and four bytes in a span: what a part of the span holds, and what was written.
use ceres_vm.Prelude.{ℕ, zero, suc, ◌+◌, ◌/◌, ◌^◌, ◌<◌, ◌≤◌, ◌≡◌, refl, List, [], ◌∷◌, arith}
use ceres_vm.Prelude.Lists.{take, drop}
use ceres_vm.Prelude.Words.{u8}
use ceres_vm.Prelude.Bytes.{or_four}
use ceres_vm.Program.{le32}
use ceres_vm.Program.Loading.{byte_of, le32_at}

pub byte_of-drop : (n : ℕ) (bs : List ℕ) (i : ℕ) → byte_of (drop n bs) i ≡ byte_of bs (n + i)
unfolding byte_of
byte_of-drop zero bs i = let e : 0 + i ≡ i = omega arith in rw e
byte_of-drop (suc n) [] i = refl
byte_of-drop (suc n) (b ∷ bs) i =
    let e : suc n + i ≡ suc (n + i) = omega arith in rw e (byte_of-drop n bs i)

pub byte_of-take : (n : ℕ) (bs : List ℕ) (i : ℕ) → i < n → byte_of (take n bs) i ≡ byte_of bs i
unfolding byte_of
byte_of-take zero bs i h = absurd (omega arith)
byte_of-take (suc n) [] i h = refl
byte_of-take (suc n) (b ∷ bs) zero h = refl
byte_of-take (suc n) (b ∷ bs) (suc i) h = byte_of-take n bs i (omega arith)

-- A number read from a part of the span, inside the part.
pub le32_at-part :
    (n m : ℕ) (bs : List ℕ) (i : ℕ)
    → i + 4 ≤ m
    → le32_at (take m (drop n bs)) i ≡ le32_at bs (n + i)
unfolding le32_at
le32_at-part n m bs i h =
    let e1 : n + (i + 1) ≡ n + i + 1 = omega arith in
    let e2 : n + (i + 2) ≡ n + i + 2 = omega arith in
    let e3 : n + (i + 3) ≡ n + i + 3 = omega arith in
    rw
      (
        byte_of-take m (drop n bs) i (omega arith),
        byte_of-take m (drop n bs) (i + 1) (omega arith),
        byte_of-take m (drop n bs) (i + 2) (omega arith),
        byte_of-take m (drop n bs) (i + 3) (omega arith),
        byte_of-drop n bs i,
        byte_of-drop n bs (i + 1),
        byte_of-drop n bs (i + 2),
        byte_of-drop n bs (i + 3),
        e1,
        e2,
        e3,
      )
      refl

-- The bytes of a 32-bit number, put together again.
pub le32-word_bytes :
    (v : ℕ) → v < 2 ^ 32 → le32 (u8 v) (u8 (v / 2 ^ 8)) (u8 (v / 2 ^ 16)) (u8 (v / 2 ^ 24)) ≡ v
unfolding le32
le32-word_bytes v h = omega (
  arith,
  or_four (u8 v) (u8 (v / 2 ^ 8)) (u8 (v / 2 ^ 16)) (u8 (v / 2 ^ 24)) (omega arith) (omega arith)
      (omega arith),
)
