-- ===== src/Vm/Tests.antt =====
-- A machine of 8192 bytes and a program of four bytes of text, one of data and a vector, started with one
-- argument.
use ceres_vm.Prelude.{◌^◌, ◌≡◌, refl, true, false, some, none, [], ◌∷◌, arith}
use ceres_vm.Memory
use ceres_vm.Memory.{Memory}
use ceres_vm.Scheduler.{no_scheduled_event}
use ceres_vm.Program.{Program, magic_number}
use ceres_vm.Engine.State.{Machine}
use ceres_vm.Vm.{
  Vm, check, check_vectors, required_memory, load_program, request_load, restart_if_requested,
}
use ceres_vm.Vm.Arguments.{ProgramArguments, argument_block_size}
use ceres_vm.Vm.Room.{HasRoom, IsMachineSize, check-HasRoom}
use ceres_vm.Vm.Image.{HasSizes}
use ceres_vm.Vm.Started.{IsLoaded, load_program-IsLoaded}
use ceres_vm.Vm.Restart.{turned_on, restart-request_load}

abbrev small_program : Program
small_program = record {
  header = record {
    magic = magic_number;
    version = 4;
    flags = 1;
    entry_point = 0x400;
    text_size = 4;
    rodata_size = 0;
    data_size = 1;
    bss_size = 16;
    minimum_stack = 64;
  };
  text = 1 ∷ 2 ∷ 3 ∷ 4 ∷ [];
  rodata = [];
  data_section = 9 ∷ [];
  interrupt_vectors = record { interrupt_number = 17; handler_address = 0x400 } ∷ [];
  debug_section = [];
}

abbrev one_argument : ProgramArguments
one_argument = record { arguments = (0x61 ∷ 0x62 ∷ []) ∷ []; environment = [] }

abbrev memory : Memory
memory = record { size = 8192; bytes = λ c. 0 }

memory_made : Memory.make 8192 ≡ some memory
unfolding Memory.make
memory_made = refl

program_checked : check 8192 small_program one_argument ≡ none
unfolding check required_memory argument_block_size check_vectors
program_checked = refl

check-HasRoom_example : HasRoom 8192 small_program one_argument
check-HasRoom_example = check-HasRoom 8192 small_program one_argument memory_made program_checked

abbrev engine : Machine (Unit {0})
engine = record {
  regs = λ r. 0;
  fregs = λ r. 0;
  pc = 0;
  flags = 0;
  memory = memory;
  vram = record { size = 16384; bytes = λ c. 0; written = λ p. 0 };
  interrupts = record { pending = 2 ^ 17; raises = 1 };
  scheduler = record { events = []; next = no_scheduled_event };
  mmu = record { ptbr = 0; tlb = []; tlb_next_victim = 0; fault_address = 0 };
  devices = tt;
  faulted = false;
  executed_instructions = 0;
  cycles = 0;
  stack_limit = 0x400;
  stack_floor = 0x400;
  interrupt_depth = 0;
  saved_stack_pointer = 0;
  interrupt_shadow = false;
  raises_consumed = 0;
  stopped_for_good = false;
  fault_address = 0;
  fault_access = 0;
  fault_reason = 0;
  strict_mmio = false;
  division_faults = false;
  ieee_divide = false;
  text_start = 0;
  text_end = 0;
}

abbrev vm : Vm (Unit {0})
vm = record {
  engine = engine;
  powered_on = false;
  reset_requested = false;
  program = none;
  arguments = one_argument;
  block = record { count = 0; vector = 0; environment = 0 };
  pending_program = none;
  pending_arguments = record { arguments = []; environment = [] };
}

size-IsMachineSize : IsMachineSize 8192
size-IsMachineSize = record { least = omega arith; most = omega arith; pages = omega arith }

small_program-HasSizes : HasSizes small_program
small_program-HasSizes = ground arith

load_program-IsLoaded_example :
    (vm' : Vm (Unit {0})) × (load_program small_program vm ≡ some (none, vm'))
    × IsLoaded small_program vm'
    × (vm'.arguments ≡ vm.arguments)
load_program-IsLoaded_example =
    load_program-IsLoaded small_program vm size-IsMachineSize small_program-HasSizes (omega arith)
      refl program_checked

abbrev running : Vm (Unit {0})
running = record vm { powered_on = true }

abbrev quiet : Machine (Unit {0}) → Machine (Unit {0})
quiet m = m

restart-request_load_example :
    (loaded : Vm (Unit {0})) × (restart_if_requested quiet
        (request_load small_program one_argument running).1
      ≡ some (true, turned_on quiet loaded))
    × IsLoaded small_program loaded
    × (loaded.arguments ≡ one_argument)
    × (loaded.pending_program ≡ none)
    × (loaded.reset_requested ≡ false)
restart-request_load_example =
    restart-request_load quiet small_program one_argument running size-IsMachineSize
      small_program-HasSizes (omega arith) program_checked
