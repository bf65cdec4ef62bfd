-- ===== src/Engine/Pairs/Runs.antt =====
-- The handlers of the group, decoding included.
use ceres_vm.Prelude.{
  ℕ, ◌+◌, ◌-◌, ◌%◌, ◌^◌, ◌<◌, ◌≡◌, refl, Bool, true, false, not, Option, some, arith,
}
use ceres_vm.Prelude.Tests.{ltb, leb, ◌==◌}
use ceres_vm.Prelude.Words.{u8}
use mathlib.Core.Path.{subst}
use ceres_vm.Isa.{opcode, rd, rs, rt}
use ceres_vm.Isa.Wide
use ceres_vm.Isa.Wide.{is_wide, describe, valid_subfield, int_pair, Bank, Entry, find_row, rows}
use ceres_vm.Isa.Pairs.{FitsBank, check-FitsBank}
use ceres_vm.Engine.State.{Machine, Devices, get_reg}
use ceres_vm.Engine.Pairs.{PairOp, add64, sub64_two, get_pair, pair_operation, run_pair}
use ceres_vm.Engine.Pairs.Sums.{
  HasPair, execute_add64-HasPair, execute_sub64-HasPair, signed_sum_fits64,
  signed_difference_fits64,
}
use ceres_vm.Engine.Pairs.RoundTrip.{get_pair-lt, decoded-ok}

-- Every register holds a word.
abbrev pub HasWords : {W : Type 0} → Machine W → Type 0
HasWords m = (r : ℕ) → get_reg r m < 2 ^ 32

abbrev three_pairs : Entry
three_pairs = record { rd_bank = int_pair; rs_bank = int_pair; rt_bank = int_pair }

-- An instruction on three pairs keeps off fp and sp.
destination_fits :
    (inst code : ℕ)
    → opcode inst ≡ code
    → is_wide code ≡ true
    → find_row code rows ≡ three_pairs
    → (code == 0xFB) ≡ false
    → Wide.check inst ≡ Wide.ok
    → rd inst + 1 < 14
unfolding describe
destination_fits inst code op wide row other runs =
    let wide' : is_wide (opcode inst) ≡ true = rw op wide in
    let fits = (check-FitsBank inst wide').0 runs in
    let entry : describe inst ≡ three_pairs = rw (describe, op, wide, fits.0, other) row in
    (subst (λ (e : Entry). FitsBank e.rd_bank (rd inst)) entry fits.1).1

add64_destination : (inst : ℕ) → opcode inst ≡ 0xD7 → Wide.check inst ≡ Wide.ok → rd inst + 1 < 14
unfolding is_wide find_row
add64_destination inst op runs = destination_fits inst 0xD7 op refl refl refl runs

sub64_destination : (inst : ℕ) → opcode inst ≡ 0xD8 → Wide.check inst ≡ Wide.ok → rd inst + 1 < 14
unfolding is_wide find_row
sub64_destination inst op runs = destination_fits inst 0xD8 op refl refl refl runs

module _ {W : Type 0} (dv : Devices W) (trig : ℕ → Machine W → Option (Bool × Machine W)) where
  run_pair-ok :
      (op : PairOp) (inst : ℕ) (m : Machine W)
      → Wide.check inst ≡ Wide.ok
      → run_pair dv trig op inst m ≡ some (tt, pair_operation op inst m)
  unfolding run_pair
  run_pair-ok op inst m h = rw (run_pair, decoded-ok dv trig inst m h) refl

  -- The handlers of `add64` and `sub64`, for a word of their opcode that the machine runs, the registers
  -- holding words: each returns with the 64-bit sum or difference of its source pairs in its destination
  -- pair, with the carry or borrow and the signed overflow in the flags, and fp and sp as they were.
  pub add64_sub64_run :
      (inst inst' : ℕ) (m : Machine W)
      → opcode inst ≡ 0xD7
      → opcode inst' ≡ 0xD8
      → Wide.check inst ≡ Wide.ok
      → Wide.check inst' ≡ Wide.ok
      → HasWords m
      → ((m' : Machine W) × (run_pair dv trig add64 inst m ≡ some (tt, m'))
          × HasPair
              (rd inst)
              ((get_pair (rs inst) m + get_pair (rt inst) m) % 2 ^ 64)
              (leb (2 ^ 64) (get_pair (rs inst) m + get_pair (rt inst) m))
              (not (signed_sum_fits64 (get_pair (rs inst) m) (get_pair (rt inst) m)))
              m
              m'
          × (get_reg 14 m' ≡ get_reg 14 m)
          × (get_reg 15 m' ≡ get_reg 15 m))
        × ((m' : Machine W) × (run_pair dv trig sub64_two inst' m ≡ some (tt, m'))
            × HasPair
                (rd inst')
                ((get_pair (rs inst') m + 2 ^ 64 - get_pair (rt inst') m) % 2 ^ 64)
                (ltb (get_pair (rs inst') m) (get_pair (rt inst') m))
                (not (signed_difference_fits64 (get_pair (rs inst') m) (get_pair (rt inst') m)))
                m
                m'
            × (get_reg 14 m' ≡ get_reg 14 m)
            × (get_reg 15 m' ≡ get_reg 15 m))
  unfolding pair_operation
  add64_sub64_run inst inst' m op op' runs runs' words =
      let d : rd inst + 1 < 14 = add64_destination inst op runs in
      let d' : rd inst' + 1 < 14 = sub64_destination inst' op' runs' in
      let pair_lt : (f : ℕ) → get_pair f m < 2 ^ 64 =
        λ f. get_pair-lt f m (words f) (words (u8 (f + 1))) in
      let added =
        execute_add64-HasPair (rd inst) (get_pair (rs inst) m) (get_pair (rt inst) m) m
          (omega (arith, d)) (pair_lt (rs inst)) (pair_lt (rt inst)) in
      let subtracted =
        execute_sub64-HasPair (rd inst') (get_pair (rs inst') m) (get_pair (rt inst') m) m
          (omega (arith, d')) (pair_lt (rs inst')) (pair_lt (rt inst')) in
      (
        (
          pair_operation add64 inst m,
          run_pair-ok add64 inst m runs,
          added,
          added.others 14 (ground (arith, d)) (ground (arith, d)),
          added.others 15 (ground (arith, d)) (ground (arith, d)),
        ),
        (
          pair_operation sub64_two inst' m,
          run_pair-ok sub64_two inst' m runs',
          subtracted,
          subtracted.others 14 (ground (arith, d')) (ground (arith, d')),
          subtracted.others 15 (ground (arith, d')) (ground (arith, d')),
        ),
      )
