-- ===== src/Interrupt.antt =====
-- The interrupt controller (Ceres/libs/vm/include/ceres/vm/interrupt_controller.h): the pending
-- requests as a 64-bit mask and the count of raises. What waits on them (`waitForRaise`, `poke`) is
-- the host's threads and has no part in this state.
pub mod Laws
mod Tests
use ceres_vm.Prelude.{
  ℕ, zero, suc, ◌+◌, ◌-◌, ◌^◌, ◌%◌, bit_and, bit_or, Bool, not, Option, none, some,
}
use ceres_vm.Prelude.Tests.{◌==◌, if◌then◌else◌}
use ceres_vm.Prelude.Words.{u64}

abbrev pub interrupt_number_count : ℕ
interrupt_number_count = 64

abbrev pub reserved_interrupt_count : ℕ
reserved_interrupt_count = 16

pub record InterruptController : Type 0 where
  pub pending : ℕ
  pub raises : ℕ

abbrev pub bit_of : ℕ → ℕ
bit_of number = 2 ^ number

-- `raise` of the source; the name `raises` is its counter.
unfoldable pub raise : ℕ → InterruptController → InterruptController
raise number c = record c {
  pending = bit_or c.pending (bit_of number);
  raises = u64 (c.raises + 1);
}

unfoldable pub clear : ℕ → InterruptController → InterruptController
clear number c = record c { pending = bit_and c.pending (2 ^ 64 - 1 - bit_of number) }

unfoldable pub clear_all : InterruptController → InterruptController
clear_all c = record c { pending = 0 }

unfoldable pub has_pending : InterruptController → Bool
has_pending c = not (c.pending == 0)

-- The loop of `peek`, `left` numbers from `number` on.
unfoldable pub lowest_from : ℕ → ℕ → ℕ → Option ℕ
lowest_from zero number pending = none
lowest_from (suc left) number pending =
    let rest = lowest_from left (number + 1) pending in
    if not (bit_and pending (bit_of number) == 0) then some number else rest

unfoldable pub peek : InterruptController → Option ℕ
peek c = if c.pending == 0 then none else lowest_from interrupt_number_count 0 c.pending

unfoldable pub restore_pending_mask : ℕ → InterruptController → InterruptController
restore_pending_mask mask c = record c { pending = mask }
