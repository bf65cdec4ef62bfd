-- ===== src/Engine/Execute/Jumps.antt =====
-- A comparison and a conditional jump: the jump is taken exactly in the order that its name says.
use ceres_vm.Prelude.{ℕ, ◌+◌, ◌-◌, ◌%◌, ◌^◌, ◌<◌, ◌≡◌, ap, ◌∙◌, Bool, not, arith}
use ceres_vm.Prelude.Tests.{ltb, leb, ◌==◌}
use ceres_vm.Prelude.Words.{sub32, top_bit-eq}
use ceres_vm.Engine.State.{Machine, flag_on, zero_flag, sign_flag, carry_flag, overflow_flag}
use ceres_vm.Engine.Alu.Flags.{result_flags_lem}
use ceres_vm.Engine.Alu.Sums.{biased, signed_difference_fits, sub_overflow}
use ceres_vm.Engine.Execute.{
  Condition, z, nz, c, nc, s, ns, o, no_overflow, gr, ge, ls, le, ab, ae, bl, be, holds,
  compare_values,
}

-- What a jump after a comparison of `a` with `b` asks; `biased` is the signed number plus 2 ^ 31.
abbrev pub asks : Condition → ℕ → ℕ → Bool
asks z a b = a == b
asks nz a b = not (a == b)
asks c a b = ltb a b
asks nc a b = not (ltb a b)
asks s a b = leb (2 ^ 31) ((a + 2 ^ 32 - b) % 2 ^ 32)
asks ns a b = not (leb (2 ^ 31) ((a + 2 ^ 32 - b) % 2 ^ 32))
asks o a b = not (signed_difference_fits a b)
asks no_overflow a b = signed_difference_fits a b
asks gr a b = ltb (biased b) (biased a)
asks ge a b = leb (biased b) (biased a)
asks ls a b = ltb (biased a) (biased b)
asks le a b = leb (biased a) (biased b)
asks ab a b = ltb b a
asks ae a b = leb b a
asks bl a b = ltb a b
asks be a b = leb a b

module _ {W : Type 0} (a b : ℕ) (m : Machine W) (ha : a < 2 ^ 32) (hb : b < 2 ^ 32) where
  compared_zero : flag_on zero_flag (compare_values a b m) ≡ (a == b)
  unfolding compare_values
  compared_zero = result_flags_lem _ _ _ _ m.flags zero_flag (omega arith)

  compared_sign :
      flag_on sign_flag (compare_values a b m) ≡ leb (2 ^ 31) ((a + 2 ^ 32 - b) % 2 ^ 32)
  unfolding compare_values
  compared_sign =
      result_flags_lem _ _ _ _ m.flags sign_flag (omega arith)
      ∙ top_bit-eq (sub32 a b) (omega arith)

  compared_carry : flag_on carry_flag (compare_values a b m) ≡ ltb a b
  unfolding compare_values
  compared_carry = result_flags_lem _ _ _ _ m.flags carry_flag (omega arith)

  compared_overflow :
      flag_on overflow_flag (compare_values a b m) ≡ not (signed_difference_fits a b)
  unfolding compare_values
  compared_overflow =
      result_flags_lem _ _ _ _ m.flags overflow_flag (omega arith) ∙ sub_overflow a b ha hb

  -- After CMP or CMPI of two words, what a conditional jump tests is the order of the words that its
  -- name says: signed for gr, ge, ls and le, unsigned for ab, ae, bl and be, and the flags for the others.
  pub holds-compare_values : (t : Condition) → holds t (compare_values a b m) ≡ asks t a b
  holds-compare_values z = compared_zero
  holds-compare_values nz = ap not compared_zero
  holds-compare_values c = compared_carry
  holds-compare_values nc = ap not compared_carry
  holds-compare_values s = compared_sign
  holds-compare_values ns = ap not compared_sign
  holds-compare_values o = compared_overflow
  holds-compare_values no_overflow = rw compared_overflow (ground arith)
  holds-compare_values gr = rw (compared_zero, compared_sign, compared_overflow) (ground arith)
  holds-compare_values ge = rw (compared_sign, compared_overflow) (ground arith)
  holds-compare_values ls = rw (compared_sign, compared_overflow) (ground arith)
  holds-compare_values le = rw (compared_zero, compared_sign, compared_overflow) (ground arith)
  holds-compare_values ab = rw (compared_zero, compared_carry) (ground arith)
  holds-compare_values ae = rw compared_carry (ground arith)
  holds-compare_values bl = compared_carry
  holds-compare_values be = rw (compared_zero, compared_carry) (ground arith)
