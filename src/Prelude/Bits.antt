-- ===== src/Prelude/Bits.antt =====
-- The digits of a number, one at a time: laws of `&`, `|`, `^`, shifts and masks at every width.
use Prim.Native.Nat.{ℕ, zero, suc, ◌+◌, ◌-◌, ◌*◌, ◌/◌, ◌%◌, ◌^◌, ◌≤◌, ◌<◌, min, max, differ}
use Prim.Native.Nat.{bit_and, bit_or, bit_xor}
use mathlib.Core.Path.{◌≡◌, refl, sym, ap, ◌∙◌}
use mathlib.Core.Logic.{◌⊎◌, inl, inr}
use mathlib.Core.Bool.{true}
use native.Mathlib.Nat.{
  pow-suc, div-div-eq-div-mul, one-le-pow, zero-add, suc-add, mul_comm, mod-lt, div-add-mod',
}
use native.Mathlib.Omega.{arith}
use ceres_vm.Prelude.Tests.{ltb, leb, ◌==◌, lt→ltb, le→ltb, Bool-cases, if◌then◌else◌}
use ceres_vm.Prelude.BitStep.{bit_and_step, bit_or_step, bit_xor_step}

-- Binary digit `k` of `x`, lowest first.
unfoldable pub bit : ℕ → ℕ → ℕ
bit x zero = x % 2
bit x (suc k) = bit (x / 2) k

pub bit-lt : (x k : ℕ) → bit x k < 2
unfolding bit
bit-lt x zero = omega arith
bit-lt x (suc k) = bit-lt (x / 2) k

pub zero-bit : (k : ℕ) → bit 0 k ≡ 0
unfolding bit
zero-bit zero = refl
zero-bit (suc k) = zero-bit k

pub bit-bit_and : (a b k : ℕ) → bit (bit_and a b) k ≡ min (bit a k) (bit b k)
unfolding bit
bit-bit_and a b zero = omega (arith, bit_and_step a b)
bit-bit_and a b (suc k) =
    let e : bit_and a b / 2 ≡ bit_and (a / 2) (b / 2) = omega (arith, bit_and_step a b) in
    rw e (bit-bit_and (a / 2) (b / 2) k)

pub bit-bit_or : (a b k : ℕ) → bit (bit_or a b) k ≡ max (bit a k) (bit b k)
unfolding bit
bit-bit_or a b zero = omega (arith, bit_or_step a b)
bit-bit_or a b (suc k) =
    let e : bit_or a b / 2 ≡ bit_or (a / 2) (b / 2) = omega (arith, bit_or_step a b) in
    rw e (bit-bit_or (a / 2) (b / 2) k)

-- Two digits differ by one at most.
differ_digits : (x y : ℕ) → x < 2 → y < 2 → differ x y ≡ (x - y) + (y - x)
differ_digits zero y p q = omega arith
differ_digits (suc zero) zero p q = omega arith
differ_digits (suc zero) (suc zero) p q = omega arith
differ_digits (suc zero) (suc (suc y)) p q = absurd (omega arith)
differ_digits (suc (suc x)) y p q = absurd (omega arith)

pub bit-bit_xor : (a b k : ℕ) → bit (bit_xor a b) k ≡ (bit a k - bit b k) + (bit b k - bit a k)
unfolding bit
bit-bit_xor a b zero =
    omega (arith, bit_xor_step a b, differ_digits (a % 2) (b % 2) (omega arith) (omega arith))
bit-bit_xor a b (suc k) =
    let e : bit_xor a b / 2 ≡ bit_xor (a / 2) (b / 2) =
      omega (arith, bit_xor_step a b, differ_digits (a % 2) (b % 2) (omega arith) (omega arith)) in
    rw e (bit-bit_xor (a / 2) (b / 2) k)

pub bit-suc : (x k : ℕ) → bit x (suc k) ≡ bit (x / 2) k
unfolding bit
bit-suc x k = refl

div-two-div-pow : (y m : ℕ) → y / 2 ^ suc m ≡ y / 2 / 2 ^ m
div-two-div-pow y m =
    rw (div-div-eq-div-mul y 2 (2 ^ m)) (ap (λ t. y / t) (pow-suc 2 m ∙ mul_comm (2 ^ m) 2))

-- A right shift drops digits.
pub bit-div-pow : (x n k : ℕ) → bit (x / 2 ^ n) k ≡ bit x (n + k)
bit-div-pow x zero k = let e : x / 1 ≡ x = omega arith in rw (e, zero-add k)
bit-div-pow x (suc n) k =
    rw (suc-add n k, div-two-div-pow x n, bit-suc x (n + k)) (bit-div-pow (x / 2) n k)

-- The digits of two fields put together.
pub bit_fields :
    (n q r k : ℕ) → r < 2 ^ n → bit (q * 2 ^ n + r) k ≡ (if ltb k n then bit r k else bit q (k - n))
bit_fields zero q zero k h =
    let e : q * 1 + 0 ≡ q = omega arith in
    let e' : k - 0 ≡ k = omega arith in rw (e, e', le→ltb k 0 (omega arith))
bit_fields zero q (suc r) k h = absurd (omega arith)
bit_fields (suc n) q r zero h = rw (lt→ltb 0 (suc n) (omega arith)) (unfold bit in low)
  where
    low : (q * 2 ^ suc n + r) % 2 ≡ r % 2
    low = omega (arith, pow-suc 2 n, ap (λ (t : ℕ). q * t) (pow-suc 2 n))
bit_fields (suc n) q r (suc k) h =
    let e : (q * 2 ^ suc n + r) / 2 ≡ q * 2 ^ n + r / 2 =
      omega (arith, pow-suc 2 n, ap (λ (t : ℕ). q * t) (pow-suc 2 n)) in
    let small : r / 2 < 2 ^ n = omega (arith, pow-suc 2 n) in
    let s : suc k - suc n ≡ k - n = omega arith in
    rw (bit-suc, e, s, bit-suc) (bit_fields n q (r / 2) k small ∙ ground arith)

-- Digits past the width of a number are zero.
pub bit-high : (r w k : ℕ) → r < 2 ^ w → w ≤ k → bit r k ≡ 0
bit-high r w k h p =
    let e : 0 * 2 ^ w + r ≡ r = omega arith in
    rw (← e) (bit_fields w 0 r k h ∙ rw (le→ltb k w p) (zero-bit (k - w)))

pub pow_pos : (n : ℕ) → 0 < 2 ^ n
pow_pos n = one-le-pow n 2 (omega arith)

pub mod-pow-lt : (x n : ℕ) → x % 2 ^ n < 2 ^ n
mod-pow-lt x n = mod-lt x (pow_pos n)

-- A remainder keeps the low digits.
pub bit-mod-pow : (x w k : ℕ) → bit (x % 2 ^ w) k ≡ (if ltb k w then bit x k else 0)
bit-mod-pow x w k = elim (Bool-cases (ltb k w)) [
  | inl low ↦ rw low (sym (whole low) ∙ ap (λ t. bit t k) (div-add-mod' x (2 ^ w)))
  | inr high ↦ rw high (bit-high (x % 2 ^ w) w k (mod-pow-lt x w) (ground arith))
]
  where
    whole : ltb k w ≡ true → bit (x / 2 ^ w * 2 ^ w + x % 2 ^ w) k ≡ bit (x % 2 ^ w) k
    whole low = bit_fields w (x / 2 ^ w) (x % 2 ^ w) k (mod-pow-lt x w) ∙ rw low

-- A left shift moves digits up.
pub bit-mul-pow : (x n k : ℕ) → bit (x * 2 ^ n) k ≡ (if ltb k n then 0 else bit x (k - n))
bit-mul-pow x n k =
    let e : x * 2 ^ n + 0 ≡ x * 2 ^ n = omega arith in
    rw (← e) (bit_fields n x 0 k (pow_pos n) ∙ rw zero-bit)

-- The digits of a mask of `w` ones.
pub bit-ones : (w k : ℕ) → bit (2 ^ w - 1) k ≡ (if ltb k w then 1 else 0)
bit-ones zero k = rw (le→ltb k 0 (omega arith)) (zero-bit k)
bit-ones (suc w) zero =
    rw (lt→ltb 0 (suc w) (omega arith)) (unfold bit in omega (arith, pow-suc 2 w, pow_pos w))
bit-ones (suc w) (suc k) =
    let e : (2 ^ suc w - 1) / 2 ≡ 2 ^ w - 1 = omega (arith, pow-suc 2 w, pow_pos w) in
    rw (bit-suc, e) (bit-ones w k ∙ ground arith)

-- The digits of a complement at width `w`.
pub bit_complement :
    (w a k : ℕ) → a < 2 ^ w → bit (2 ^ w - 1 - a) k ≡ (if ltb k w then 1 - bit a k else 0)
bit_complement zero a k h =
    let e : 1 - 1 - a ≡ 0 = omega arith in rw (e, le→ltb k 0 (omega arith)) (zero-bit k)
bit_complement (suc w) a zero h =
    rw (lt→ltb 0 (suc w) (omega arith)) (unfold bit in omega (arith, pow-suc 2 w, pow_pos w))
bit_complement (suc w) a (suc k) h =
    let e : (2 ^ suc w - 1 - a) / 2 ≡ 2 ^ w - 1 - a / 2 = omega (arith, pow-suc 2 w, pow_pos w) in
    rw (bit-suc, bit-suc, e)
      (bit_complement w (a / 2) k (omega (arith, pow-suc 2 w)) ∙ ground arith)

bit_ext_below : (n x y : ℕ) → x ≤ n → y ≤ n → ((k : ℕ) → bit x k ≡ bit y k) → x ≡ y
bit_ext_below zero x y p q e = omega arith
bit_ext_below (suc n) x y p q e =
    let half : x / 2 ≡ y / 2 =
      bit_ext_below n (x / 2) (y / 2) (omega arith) (omega arith)
        (λ k. rw (← bit-suc x k, ← bit-suc y k) (e (suc k))) in
    let low : x % 2 ≡ y % 2 = unfold bit in e 0 in omega arith

-- A number is its digits.
pub bit_ext : (a b : ℕ) → ((k : ℕ) → bit a k ≡ bit b k) → a ≡ b
bit_ext a b e = bit_ext_below (a + b) a b (omega arith) (omega arith) e

-- A mask of `w` low ones takes the remainder.
pub bit_and-ones : (a w : ℕ) → bit_and a (2 ^ w - 1) ≡ a % 2 ^ w
bit_and-ones a w =
    bit_ext _ _
      λ k. ground (arith, bit-bit_and a (2 ^ w - 1) k, bit-ones w k, bit-mod-pow a w k, bit-lt a k)

-- `|` of a field and what lies below it is their sum.
pub bit_or_fields : (n q r : ℕ) → r < 2 ^ n → bit_or (q * 2 ^ n) r ≡ q * 2 ^ n + r
bit_or_fields n q r h = bit_ext _ _ λ k.
    ground
      (arith, bit-bit_or (q * 2 ^ n) r k, bit-mul-pow q n k, bit_fields n q r k h, bit-high r n k h)

-- A number below two is its lowest digit.
pub bit_digit : (b k : ℕ) → b < 2 → bit b k ≡ (if k == 0 then b else 0)
unfolding bit
bit_digit b zero h = omega arith
bit_digit b (suc k) h = rw (bit-high b 1 (suc k) h (omega arith)) (ground arith)

-- `&` with one power of two shows one digit.
pub bit_and-pow : (a n : ℕ) → bit_and a (2 ^ n) ≡ bit a n * 2 ^ n
bit_and-pow a n =
    let one_pow : 1 * 2 ^ n ≡ 2 ^ n = omega arith in
    bit_ext _ _ λ k. ground (
      arith,
      bit-bit_and a (2 ^ n) k,
      ap (λ t. bit t k) one_pow,
      bit-mul-pow 1 n k,
      bit-mul-pow (bit a n) n k,
      bit_digit 1 (k - n),
      bit_digit (bit a n) (k - n),
      bit-lt a k,
      bit-lt a n,
      ap (bit a) (same k),
    )
  where
    same : (k : ℕ) → n + (k - n) ≡ (if leb n k then k else n)
    same k = ground arith

-- A digit by division.
pub bit-eq : (x k : ℕ) → bit x k ≡ x / 2 ^ k % 2
bit-eq x k =
    let e : k + 0 ≡ k = omega arith in
    sym (ap (bit x) e) ∙ sym (bit-div-pow x k 0) ∙ unfold bit in refl

pub bit_or_comm : (a b : ℕ) → bit_or a b ≡ bit_or b a
bit_or_comm a b = bit_ext _ _ λ k. omega (arith, bit-bit_or a b k, bit-bit_or b a k)

-- The only digit of a power of two.
pub bit-pow : (n k : ℕ) → bit (2 ^ n) k ≡ (if k == n then 1 else 0)
bit-pow n k =
    let one_pow : 1 * 2 ^ n ≡ 2 ^ n = omega arith in
    ground (arith, ap (λ t. bit t k) one_pow, bit-mul-pow 1 n k, bit_digit 1 (k - n))

pub bit-cases : (x k : ℕ) → (bit x k ≡ 0) ⊎ (bit x k ≡ 1)
bit-cases x k = ground (arith, bit-lt x k)

-- The usual test of one digit, `x & (1 << n)`.
pub bit_test : (x n : ℕ) → (bit_and x (2 ^ n) == 0) ≡ (bit x n == 0)
bit_test x n = elim (bit-cases x n) [
  | inl e ↦ ground (arith, bit_and-pow x n, ap (λ (t : ℕ). t * 2 ^ n) e)
  | inr e ↦ ground (arith, bit_and-pow x n, ap (λ (t : ℕ). t * 2 ^ n) e, pow_pos n)
]
