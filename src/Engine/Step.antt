-- ===== src/Engine/Step.antt =====
-- HALT and the requests that wake the machine.
use ceres_vm.Prelude.{◌≡◌, false, not, inl, inr, arith}
use ceres_vm.Prelude.Tests.{◌==◌, Bool-cases}
use ceres_vm.Engine.State.{Machine, flag_on, halting_flag, has_wake_event}
use ceres_vm.Engine.Interrupts.{handle_halt}
use ceres_vm.Engine.Alu.Flags.{get_flag-raise}

-- HALT does not sleep over a request that was raised since the machine last woke: it sets Halting
-- exactly if there was none, spends the request otherwise, and after either no wake is left over; the
-- next HALT sleeps unless something is raised in between.
pub handle_halt_lem :
    {W : Type 0} (m : Machine W)
    → flag_on halting_flag m ≡ false
    → (flag_on halting_flag (handle_halt m) ≡ not (has_wake_event m))
      × (has_wake_event (handle_halt m) ≡ false)
unfolding handle_halt has_wake_event
handle_halt_lem m awake = elim (Bool-cases (m.interrupts.raises == m.raises_consumed)) [
  | inl same ↦
      let asleep = get_flag-raise halting_flag halting_flag m.flags in
      (ground (arith, same, asleep), ground (arith, same))
  | inr raised ↦ (ground (arith, raised, awake), ground (arith, raised))
]
