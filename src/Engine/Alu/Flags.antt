-- ===== src/Engine/Alu/Flags.antt =====
-- The flags word: what was set is what is read, and the other flags are kept.
use ceres_vm.Prelude.{ℕ, ◌-◌, ◌^◌, ◌<◌, bit_and, bit_or, ◌≡◌, ap, Bool, true, false, not, arith}
use ceres_vm.Prelude.Tests.{◌==◌, if◌then◌else◌}
use ceres_vm.Prelude.Bits.{bit, bit-lt, bit-bit_and, bit-bit_or, bit-pow, bit_test, bit_complement}
use native.Mathlib.Nat.{pow-le-pow_right}
use ceres_vm.Engine.State.{
  get_flag, set_flag, raise_flag, clear_flag, zero_flag, sign_flag, carry_flag, overflow_flag,
}
use ceres_vm.Engine.Alu.{result_flags}

flag-digit : (i w : ℕ) → get_flag i w ≡ not (bit w i == 0)
unfolding get_flag
flag-digit i w = ap not (bit_test w i)

flag-lt : (j : ℕ) → j < 8 → 2 ^ j < 2 ^ 32
flag-lt j h = omega (arith, pow-le-pow_right {n = 2} (omega arith) {i = j} {j = 7} (omega arith))

pub get_flag-raise :
    (i j w : ℕ) → get_flag i (raise_flag j w) ≡ (if i == j then true else get_flag i w)
unfolding raise_flag
get_flag-raise i j w = ground (
  arith,
  flag-digit i (bit_or w (2 ^ j)),
  flag-digit i w,
  bit-bit_or w (2 ^ j) i,
  bit-pow j i,
  bit-lt w i,
)

pub get_flag-clear :
    (i j w : ℕ)
    → i < 8
    → j < 8
    → get_flag i (clear_flag j w) ≡ (if i == j then false else get_flag i w)
unfolding clear_flag
get_flag-clear i j w hi hj = ground (
  arith,
  flag-digit i (bit_and w (2 ^ 32 - 1 - 2 ^ j)),
  flag-digit i w,
  bit-bit_and w (2 ^ 32 - 1 - 2 ^ j) i,
  bit_complement 32 (2 ^ j) i (flag-lt j hj),
  bit-pow j i,
  bit-lt w i,
)

pub get_flag-set_flag :
    (i j : ℕ) (v : Bool) (w : ℕ)
    → i < 8
    → j < 8
    → get_flag i (set_flag j v w) ≡ (if i == j then v else get_flag i w)
unfolding set_flag
get_flag-set_flag i j true w hi hj = get_flag-raise i j w
get_flag-set_flag i j false w hi hj = get_flag-clear i j w hi hj

-- After an arithmetic instruction the four result flags are those that it gave, and Interrupt, Halting,
-- Trap and Paging are as before.
pub result_flags_lem :
    (z s c o : Bool) (w i : ℕ)
    → i < 8
    → get_flag i (result_flags z s c o w) ≡ (
        if i == zero_flag
        then z
        else if i == sign_flag
        then s
        else if i == carry_flag
        then c
        else if i == overflow_flag
        then o
        else get_flag i w)
unfolding result_flags
result_flags_lem z s c o w i h = ground (
  arith,
  get_flag-set_flag i overflow_flag o
      (set_flag carry_flag c (set_flag sign_flag s (set_flag zero_flag z w))) h (omega arith),
  get_flag-set_flag i carry_flag c (set_flag sign_flag s (set_flag zero_flag z w)) h (omega arith),
  get_flag-set_flag i sign_flag s (set_flag zero_flag z w) h (omega arith),
  get_flag-set_flag i zero_flag z w h (omega arith),
)
