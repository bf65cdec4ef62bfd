-- ===== src/Vm.antt =====
-- The machine as it is put together and started: Ceres/libs/vm/src/ceresvm.cpp,
-- Ceres/libs/vm/include/ceres/vm/ceresvm.h and, for the default handlers, Ceres/libs/vm/include/ceres/vm/bios.h.
pub mod Bios
pub mod Arguments
pub mod Room
pub mod Frame
pub mod Placed
pub mod Block
pub mod Image
pub mod Vectors
pub mod Started
pub mod Restart
mod Tests
use ceres_vm.Prelude.{
  ℕ, zero, suc, ◌+◌, ◌-◌, ◌*◌, ◌/◌, ◌%◌, ◌^◌, Bool, true, false, not, ◌||◌, Option, none, some,
  List, [], ◌∷◌,
}
use ceres_vm.Prelude.Tests.{ltb, leb, ◌==◌, if◌then◌else◌}
use ceres_vm.Prelude.Words.{u32}
use ceres_vm.Memory.{
  Memory, write_raw, write_bytes, set_bytes, unrestricted_start, system_stack_size,
}
use ceres_vm.Interrupt.{clear_all, interrupt_number_count}
use ceres_vm.Program.{Program, ProgramHeader, InterruptVectorPatch}
use ceres_vm.Engine.State.{Machine, set_reg}
use ceres_vm.Engine.Interrupts.{reset}
use ceres_vm.Vm.Bios.{initialize_memory}
use ceres_vm.Vm.Arguments.{
  ProgramArguments, ArgumentBlock, argument_block_size, place_strings, argument_block, bind,
}

-- The errors of `check`, `loadProgram` and `powerOn`.
pub data VmError : Type 0 where
  powered : VmError
  too_little_memory : VmError
  vector_out_of_range : VmError
  vector_twice : VmError

pub record Vm (W : Type 0) : Type 0 where
  pub engine : Machine W
  pub powered_on : Bool
  pub reset_requested : Bool
  pub program : Option Program
  pub arguments : ProgramArguments
  pub block : ArgumentBlock
  pub pending_program : Option Program
  pub pending_arguments : ProgramArguments

unfoldable pub required_memory : ProgramHeader → ProgramArguments → ℕ
required_memory h arguments =
    unrestricted_start
    + h.text_size
    + h.rodata_size
    + h.data_size
    + h.bss_size
    + h.minimum_stack
    + system_stack_size
    + argument_block_size arguments

-- The loop of `check` over the patches, `patched` the vectors it has met.
pub check_vectors : List InterruptVectorPatch → (ℕ → Bool) → Option VmError
check_vectors [] patched = none
check_vectors (p ∷ ps) patched =
    if p.interrupt_number == 0 || leb interrupt_number_count p.interrupt_number
    then some vector_out_of_range
    else if patched p.interrupt_number
    then some vector_twice
    else check_vectors ps (λ n. if n == p.interrupt_number then true else patched n)

-- `check`, for a machine with `size` bytes of memory.
unfoldable pub check : ℕ → Program → ProgramArguments → Option VmError
check size p arguments =
    if ltb size (required_memory p.header arguments)
    then some too_little_memory
    else check_vectors p.interrupt_vectors (λ _. false)

-- A section of the image where the header gives it a size: `writeBytesUnchecked`.
unfoldable pub place_section : ℕ → ℕ → List ℕ → Memory → Option Memory
place_section size offset bytes m = if ltb 0 size then write_bytes false offset bytes m else some m

-- The image from `UnrestrictedSegmentStart` on. `none` is an exception that leaves `loadProgram`, which
-- ends the process.
unfoldable pub place_image : Program → Memory → Option Memory
place_image p m =
    let rodata_at = unrestricted_start + p.header.text_size in
    let data_at = rodata_at + p.header.rodata_size in
    let bss_at = data_at + p.header.data_size in
    bind (place_section p.header.text_size unrestricted_start p.text m) (λ m1.
      bind (place_section p.header.rodata_size rodata_at p.rodata m1) (λ m2.
        bind (place_section p.header.data_size data_at p.data_section m2)
          (λ m3. set_bytes false bss_at 0 p.header.bss_size m3)))

abbrev pub image_end : ProgramHeader → ℕ
image_end h = unrestricted_start + h.text_size + h.rodata_size + h.data_size + h.bss_size

-- The vectors that the program binds.
unfoldable pub patch_vectors : List InterruptVectorPatch → Memory → Memory
patch_vectors [] m = m
patch_vectors (p ∷ ps) m =
    patch_vectors ps (write_raw 0 4 (p.interrupt_number * 4) p.handler_address m)

module _ {W : Type 0} where
  -- `placeArguments`
  unfoldable pub place_arguments : Vm W → Option (Vm W)
  place_arguments vm =
      let block = argument_block vm.engine.memory.size vm.arguments in
      bind (place_strings vm.arguments vm.engine.memory) (λ memory. some (record vm {
        block = block;
        engine = set_reg 15 block.vector (
            set_reg 2 block.environment (
              set_reg 1 block.vector
                (set_reg 0 block.count (record vm.engine { memory = memory }))));
      }))

  -- The engine with the program's memory, ranges and limits, before its reset.
  unfoldable pub with_image : Program → Memory → Machine W → Machine W
  with_image p memory m = record m {
    memory =
        patch_vectors p.interrupt_vectors
          (write_raw 0 4 0 p.header.entry_point (initialize_memory memory));
    text_start = unrestricted_start;
    text_end = unrestricted_start + p.header.text_size;
    stack_limit = image_end p.header;
    stack_floor = image_end p.header;
  }

  -- `loadProgram`: its error, if it has one, and the machine.
  unfoldable pub load_program : Program → Vm W → Option (Option VmError × Vm W)
  load_program p vm =
      if vm.powered_on
      then some (some powered, vm)
      else elim (check vm.engine.memory.size p vm.arguments) [
        | some e ↦ some (some e, vm)
        | none ↦ bind (place_image p vm.engine.memory) (λ memory.
            bind (place_arguments (record vm { engine = reset (with_image p memory vm.engine) }))
              (λ vm'. some (none, record vm' { program = some p })))
      ]

  unfoldable pub request_reset : Vm W → Vm W
  request_reset vm = record vm { reset_requested = true; powered_on = false }

  unfoldable pub request_load : Program → ProgramArguments → Vm W → Option VmError × Vm W
  request_load p arguments vm = elim (check vm.engine.memory.size p arguments) [
    | some e ↦ (some e, vm)
    | none ↦ (
      none,
      request_reset (record vm { pending_program = some p; pending_arguments = arguments }),
    )
  ]

  unfoldable pub power_on : Vm W → Option VmError × Vm W
  power_on vm =
      if vm.powered_on then (some powered, vm) else (none, record vm { powered_on = true })

  unfoldable pub shutdown : Vm W → Vm W
  shutdown vm = record vm { powered_on = false }

  -- What `requestLoad` left takes the program's place.
  unfoldable pub take_pending : Vm W → Vm W
  take_pending vm = elim vm.pending_program [
    | none ↦ vm
    | some p ↦ record vm {
      program = some p;
      pending_program = none;
      arguments = vm.pending_arguments;
      pending_arguments = record { arguments = []; environment = [] };
    }
  ]

  -- `restartIfRequested`; `reset_devices` is the bus's call of every device's `reset`.
  unfoldable pub restart_if_requested : (Machine W → Machine W) → Vm W → Option (Bool × Vm W)
  restart_if_requested reset_devices vm =
      if not vm.reset_requested
      then some (false, vm)
      else let vm1 = take_pending (record vm { reset_requested = false }) in
        elim vm1.program [
          | none ↦ some (false, vm1)
          | some p ↦ bind (load_program p vm1) (λ r. elim r.0 [
            | some e ↦ some (false, r.1)
            | none ↦
                let m = r.1.engine in
                some (
                  true,
                  record r.1 {
                    engine = reset_devices (record m { interrupts = clear_all m.interrupts });
                    powered_on = true;
                  },
                )
          ])
        ]
