-- ===== src/Engine/Alu/Divide.antt =====
-- Division of words: quotient and remainder belong together.
use ceres_vm.Prelude.{ℕ, ◌+◌, ◌*◌, ◌/◌, ◌%◌, ◌^◌, ◌<◌, ◌≡◌, refl, Bool, false, Option, some, arith}
use ceres_vm.Prelude.Tests.{◌==◌}
use ceres_vm.Prelude.Words.{top_bit-eq}
use native.Mathlib.Nat.{div-add-mod', mod-lt, div-le_self, mod-le}
use ceres_vm.Engine.State.{Machine, Devices, get_reg}
use ceres_vm.Engine.Alu.{execute_unsigned_div, execute_unsigned_mod}
use ceres_vm.Engine.Alu.Sums.{HasResult, finish-HasResult}

module _ {W : Type 0} (dv : Devices W) (trig : ℕ → Machine W → Option (Bool × Machine W)) where
  -- DIV and MOD of words, for a divisor that is not zero: both return; the quotient and the remainder
  -- that they leave in their registers make up the dividend, the remainder being below the divisor;
  -- Zero and Sign are those of the result, and Carry and Overflow are clear.
  pub unsigned_div_mod :
      (dest dest' a b : ℕ) (m : Machine W)
      → a < 2 ^ 32
      → 0 < b
      → (q r : Machine W) × (execute_unsigned_div dv trig dest a b m ≡ some (tt, q))
        × (execute_unsigned_mod dv trig dest' a b m ≡ some (tt, r))
        × (get_reg dest q * b + get_reg dest' r ≡ a)
        × (get_reg dest' r < b)
        × HasResult dest (a / b) false false q
        × HasResult dest' (a % b) false false r
  unfolding execute_unsigned_div execute_unsigned_mod
  unsigned_div_mod dest dest' a b m ha hb =
      let nonzero : (b == 0) ≡ false = ground arith in
      let q_lt : a / b < 2 ^ 32 = omega (arith, div-le_self a b) in
      let r_fits : a % b < 2 ^ 32 = omega (arith, mod-le a b) in
      let r_lt : a % b < b = mod-lt a hb in
      let q = finish-HasResult _ _ _ _ dest (a / b) m refl (top_bit-eq (a / b) q_lt) in
      let r = finish-HasResult _ _ _ _ dest' (a % b) m refl (top_bit-eq (a % b) r_fits) in
      (
        _,
        _,
        rw (execute_unsigned_div, nonzero) refl,
        rw (execute_unsigned_mod, nonzero) refl,
        rw (q.value, r.value) (div-add-mod' a b),
        rw r.value r_lt,
        q,
        r,
      )
