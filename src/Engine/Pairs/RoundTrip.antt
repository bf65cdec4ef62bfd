-- ===== src/Engine/Pairs/RoundTrip.antt =====
-- STRD and LDRD as a program sees them, and the long products and quotients.
use ceres_vm.Prelude.{
  ℕ, ◌+◌, ◌*◌, ◌/◌, ◌%◌, ◌^◌, ◌<◌, ◌≡◌, refl, Bool, true, false, Option, some, arith,
}
use ceres_vm.Prelude.Tests.{◌==◌}
use ceres_vm.Prelude.Words.{u8}
use native.Mathlib.Nat.{div-add-mod', mod-lt, div-le_self, mod-le}
use ceres_vm.Isa.{rd, rs}
use ceres_vm.Isa.Wide
use ceres_vm.Engine.State.{Machine, Devices, get_reg, charge, advance_pc, flag_on, paging_flag}
use ceres_vm.Engine.SystemStack.{IsMachineMemory}
use ceres_vm.Engine.Transfers.{Addressing, load_address, store_address}
use ceres_vm.Engine.Pairs.{
  get_pair, set_pair, decoded, load64, store64, ldrd, strd, div64, mod64, divide64,
  execute_divide64,
}
use ceres_vm.Engine.Pairs.Sums.{HasPair, pair_written-HasPair, get_pair-sum}
use ceres_vm.Engine.Pairs.Words.{IsWritable64, stored64, write64_off, read64_off, both_words}

pub get_pair-lt :
    {W : Type 0} (f : ℕ) (m : Machine W)
    → get_reg f m < 2 ^ 32
    → get_reg (u8 (f + 1)) m < 2 ^ 32
    → get_pair f m < 2 ^ 64
get_pair-lt f m h h' = omega (arith, get_pair-sum f m h)

module _ {W : Type 0} (dv : Devices W) (trig : ℕ → Machine W → Option (Bool × Machine W)) where
  pub decoded-ok :
      (inst : ℕ) (m : Machine W)
      → Wide.check inst ≡ Wide.ok
      → decoded dv trig inst m ≡ some (true, m)
  unfolding decoded
  decoded-ok inst m h = rw (decoded, h) refl

  -- STRD and LDRD of words that the machine runs, in any of their addressings, paging off, at a word's
  -- address in the RAM, above the BIOS and outside the program's text: the store goes through, charges two cycles and goes on to the
  -- next instruction; and a load from that address, in any machine with paging off and no fault raised
  -- that has the memory the store left, puts the stored 64 bits in its own pair and goes on.
  pub ldrd-strd :
      (mode mode' : Addressing) (inst inst' : ℕ) (m h : Machine W)
      → Wide.check inst ≡ Wide.ok
      → Wide.check inst' ≡ Wide.ok
      → IsMachineMemory m.memory
      → flag_on paging_flag m ≡ false
      → m.faulted ≡ false
      → IsWritable64 (store_address mode inst m) m
      → get_reg (rs inst) m < 2 ^ 32
      → get_reg (u8 (rs inst + 1)) m < 2 ^ 32
      → h.memory ≡ both_words (store_address mode inst m) (get_pair (rs inst) m) m.memory
      → flag_on paging_flag h ≡ false
      → h.faulted ≡ false
      → load_address mode' inst' h ≡ store_address mode inst m
      → (strd dv trig mode inst m
          ≡ some (tt, advance_pc (stored64 (store_address mode inst m) (get_pair (rs inst) m) m)))
        × (ldrd dv trig mode' inst' h
            ≡ some (tt, advance_pc (set_pair (rd inst') (get_pair (rs inst) m) (charge 2 h))))
  unfolding strd ldrd store64 load64
  ldrd-strd mode mode' inst inst' m h runs runs' fits off calm ok low high memory off' calm' same =
      (
        rw
            (
              strd,
              decoded-ok inst m runs,
              store64,
              write64_off dv trig (store_address mode inst m) (get_pair (rs inst) m) m fits off calm
                  ok,
            )
            refl,
        rw
            (
              ldrd,
              decoded-ok inst' h runs',
              same,
              load64,
              read64_off dv trig (store_address mode inst m) (get_pair (rs inst) m) m.memory h fits
                  ok.low ok.high ok.aligned (get_pair-lt (rs inst) m low high) memory off' calm',
            )
            refl,
      )

  -- `div64` and `mod64`, for a divisor that is not zero: the quotient and the remainder that they leave
  -- in their pairs make up the dividend, the remainder being below the divisor; Zero and Sign are those
  -- of the result, and Carry and Overflow are clear.
  pub div64_mod64 :
      (dest dest' a b : ℕ) (m : Machine W)
      → dest < 15
      → dest' < 15
      → a < 2 ^ 64
      → 0 < b
      → (q r : Machine W) × (execute_divide64 dv trig div64 dest a b m ≡ some (tt, q))
        × (execute_divide64 dv trig mod64 dest' a b m ≡ some (tt, r))
        × (get_pair dest q * b + get_pair dest' r ≡ a)
        × (get_pair dest' r < b)
        × HasPair dest (a / b) false false m q
        × HasPair dest' (a % b) false false m r
  unfolding execute_divide64 divide64
  div64_mod64 dest dest' a b m low low' ha hb =
      let nonzero : (b == 0) ≡ false = ground arith in
      let q =
        pair_written-HasPair dest (a / b) false false m low (omega (arith, div-le_self a b)) in
      let r = pair_written-HasPair dest' (a % b) false false m low' (omega (arith, mod-le a b)) in
      (
        _,
        _,
        rw (execute_divide64, nonzero) refl,
        rw (execute_divide64, nonzero) refl,
        rw (q.value, r.value) (div-add-mod' a b),
        rw r.value (mod-lt a hb),
        q,
        r,
      )
