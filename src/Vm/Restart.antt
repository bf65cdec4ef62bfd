-- ===== src/Vm/Restart.antt =====
-- A program asked for while the machine runs: `requestLoad`, then `restartIfRequested`.
use ceres_vm.Prelude.{◌<◌, ◌^◌, ◌≡◌, refl, ap, ◌∙◌, true, false, some, none, []}
use ceres_vm.Interrupt.{clear_all}
use ceres_vm.Program.{Program}
use ceres_vm.Engine.State.{Machine}
use ceres_vm.Vm.{
  Vm, check, load_program, request_load, request_reset, take_pending, restart_if_requested,
}
use ceres_vm.Vm.Arguments.{ProgramArguments}
use ceres_vm.Vm.Room.{IsMachineSize}
use ceres_vm.Vm.Image.{HasSizes}
use ceres_vm.Vm.Started.{IsLoaded, started, IsLoaded-memories}

module _ {W : Type 0} (reset_devices : Machine W → Machine W) where
  -- The machine that `restartIfRequested` turns on, from the one that `loadProgram` left.
  abbrev pub turned_on : Vm W → Vm W
  turned_on vm = record vm {
    engine = reset_devices (record vm.engine { interrupts = clear_all vm.engine.interrupts });
    powered_on = true;
  }

  module _ (p : Program) (a : ProgramArguments) (vm : Vm W) where
    -- The machine as `loadProgram` finds it.
    abbrev waiting : Vm W
    waiting = record vm {
      powered_on = false;
      reset_requested = false;
      program = some p;
      pending_program = none;
      arguments = a;
      pending_arguments = record { arguments = []; environment = [] };
    }

    request_load_fits :
        check vm.engine.memory.size p a ≡ none
        → request_load p a vm
          ≡ (none, request_reset (record vm { pending_program = some p; pending_arguments = a }))
    unfolding request_load
    request_load_fits fine = rw (request_load, fine) refl

    restart_loaded :
        (loaded : Vm W)
        → load_program p waiting ≡ some (none, loaded)
        → restart_if_requested reset_devices
            (request_reset (record vm { pending_program = some p; pending_arguments = a }))
          ≡ some (true, turned_on loaded)
    unfolding restart_if_requested request_reset take_pending
    restart_loaded loaded same = rw (same) refl

    restarted :
        (loaded : Vm W)
        → check vm.engine.memory.size p a ≡ none
        → load_program p waiting ≡ some (none, loaded)
        → restart_if_requested reset_devices (request_load p a vm).1 ≡ some (true, turned_on loaded)
    restarted loaded fine same =
        ap (λ r. restart_if_requested reset_devices r.1) (request_load_fits fine)
        ∙ restart_loaded loaded same

    -- `requestLoad` of a program that `check` lets in with its arguments, its sections as long as its
    -- header says and its entry point a word, by a machine that is on or off, and then
    -- `restartIfRequested`: the machine is loaded with that program and those arguments as
    -- `loadProgram` leaves it, nothing is left pending, and then its pending interrupts are cleared, the
    -- devices reset and the machine turned on.
    pub restart-request_load :
        IsMachineSize vm.engine.memory.size
        → HasSizes p
        → p.header.entry_point < 2 ^ 32
        → check vm.engine.memory.size p a ≡ none
        → (loaded : Vm W) × (restart_if_requested reset_devices (request_load p a vm).1
            ≡ some (true, turned_on loaded))
          × IsLoaded p loaded
          × (loaded.arguments ≡ a)
          × (loaded.pending_program ≡ none)
          × (loaded.reset_requested ≡ false)
    restart-request_load s sizes small fine =
        let (memory, memory', same, holds) = IsLoaded-memories p waiting s sizes small refl fine in
        (
          started p waiting memory memory',
          restarted (started p waiting memory memory') fine same,
          holds,
          refl,
          refl,
          refl,
        )
