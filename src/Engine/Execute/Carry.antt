-- ===== src/Engine/Execute/Carry.antt =====
-- The carry that ADDC and SUBC take in and give on.
use ceres_vm.Prelude.{ℕ, ◌+◌, ◌-◌, ◌%◌, ◌^◌, ◌<◌, ◌≡◌, ◌∙◌, not, ◌&&◌, inl, inr, arith}
use ceres_vm.Prelude.Tests.{leb, ◌==◌, Bool-cases}
use ceres_vm.Isa.{rd, rs, rt}
use ceres_vm.Engine.State.{Machine, flag_on, get_reg, carry_flag}
use ceres_vm.Engine.Alu.{b2n}
use ceres_vm.Engine.Alu.Sums.{execute_add-HasResult}
use ceres_vm.Engine.Execute.{addc, arithmetic, with_carry}

-- ADDC of words: the destination holds the sum of both registers and the carry that came in, modulo
-- 2 ^ 32; the carry that goes out is that sum's, except where rt holds 2 ^ 32 - 1 and a carry came in,
-- for which it is clear although the sum does not fit 32 bits.
pub addc_carry :
    {W : Type 0} (inst : ℕ) (m : Machine W)
    → get_reg (rs inst) m < 2 ^ 32
    → get_reg (rt inst) m < 2 ^ 32
    → (get_reg (rd inst) (arithmetic addc inst m)
        ≡ (get_reg (rs inst) m + get_reg (rt inst) m + b2n (flag_on carry_flag m)) % 2 ^ 32)
      × (flag_on carry_flag (arithmetic addc inst m) ≡ (
          leb (2 ^ 32) (get_reg (rs inst) m + get_reg (rt inst) m + b2n (flag_on carry_flag m))
          && not (get_reg (rt inst) m == 2 ^ 32 - 1 && flag_on carry_flag m)))
unfolding arithmetic
addc_carry inst m ha hb =
    let a = get_reg (rs inst) m in
    let b = get_reg (rt inst) m in
    let r = execute_add-HasResult (rd inst) a (with_carry b m) m ha (omega arith) in
    elim (Bool-cases (flag_on carry_flag m)) [
      | inl on ↦ (r.value ∙ ground (arith, on), r.carry ∙ ground (arith, on))
      | inr off ↦ (r.value ∙ ground (arith, off), r.carry ∙ ground (arith, off))
    ]
