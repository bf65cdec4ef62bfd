-- ===== src/Prelude/BitStep.antt =====
-- One equation for the lowest digit of `&`, `|` and `^`, from the digit recursion they stand for.
use Prim.Native.Nat.{ℕ, zero, suc, ◌+◌, ◌*◌, ◌/◌, ◌%◌, ◌≤◌, min, max, differ, digits, bitwise}
use Prim.Native.Nat.{bit_and, bit_or, bit_xor, bit_and-bitwise, bit_or-bitwise, bit_xor-bitwise}
use mathlib.Core.Path.{◌≡◌, refl, ap}
use native.Mathlib.Nat.{le_refl}
use native.Mathlib.Omega.{arith}

-- The recursion on digits, at any fuel that reaches the first number, gives what it gives at less.
digits_enough :
    (combine : ℕ → ℕ → ℕ) (rest : ℕ → ℕ) (a b fuel more : ℕ)
    → a ≤ fuel
    → fuel ≤ more
    → digits rest combine more a b ≡ digits rest combine fuel a b
digits_enough combine rest zero b zero zero h k = refl
digits_enough combine rest zero b zero (suc more) h k = refl
digits_enough combine rest zero b (suc fuel) zero h k = refl
digits_enough combine rest zero b (suc fuel) (suc more) h k = refl
digits_enough combine rest (suc a) b zero more h k = absurd (omega (arith, h))
digits_enough combine rest (suc a) b (suc fuel) zero h k = absurd (omega (arith, k))
digits_enough combine rest (suc a) b (suc fuel) (suc more) h k =
    ap (λ upper. upper * 2 + combine (suc a % 2) (b % 2))
      (digits_enough combine rest (suc a / 2) (b / 2) fuel more (omega arith) (omega arith))

-- The lowest digit of a digit-wise operation, its first number not 0.
lowest_digit :
    (combine : ℕ → ℕ → ℕ) (rest : ℕ → ℕ) (a b : ℕ)
    → bitwise rest combine (suc a) b
      ≡ bitwise rest combine (suc a / 2) (b / 2) * 2 + combine (suc a % 2) (b % 2)
lowest_digit combine rest a b =
    ap (λ upper. upper * 2 + combine (suc a % 2) (b % 2))
      (digits_enough combine rest (suc a / 2) (b / 2) (suc a / 2) a (le_refl _) (omega arith))

pub bit_xor_step : (x y : ℕ) → bit_xor x y ≡ bit_xor (x / 2) (y / 2) * 2 + differ (x % 2) (y % 2)
bit_xor_step zero y = simp bit_xor-bitwise (omega arith)
bit_xor_step (suc x) y = simp bit_xor-bitwise (lowest_digit differ (λ rest. rest) x y)

pub bit_and_step : (x y : ℕ) → bit_and x y ≡ bit_and (x / 2) (y / 2) * 2 + min (x % 2) (y % 2)
bit_and_step zero y = simp bit_and-bitwise (omega arith)
bit_and_step (suc x) y = simp bit_and-bitwise (lowest_digit min (λ rest. 0) x y)

pub bit_or_step : (x y : ℕ) → bit_or x y ≡ bit_or (x / 2) (y / 2) * 2 + max (x % 2) (y % 2)
bit_or_step zero y = simp bit_or-bitwise (omega arith)
bit_or_step (suc x) y = simp bit_or-bitwise (lowest_digit max (λ rest. rest) x y)
