-- ===== src/Vm/Started.antt =====
-- The machine after `loadProgram`.
use ceres_vm.Prelude.{
  ℕ, ◌+◌, ◌-◌, ◌*◌, ◌/◌, ◌%◌, ◌^◌, ◌≤◌, ◌<◌, ◌≡◌, refl, sym, ap, ◌∙◌, false, some, none, ◌&&◌, inr,
  arith,
}
use mathlib.Core.Path.{subst}
use ceres_vm.Prelude.Tests.{ltb, leb, if◌then◌else◌}
use ceres_vm.Prelude.Lists.{length}
use ceres_vm.Prelude.Words.{u32, add32}
use ceres_vm.Memory.{Memory, read_raw, read_bytes, write_raw, unrestricted_start}
use ceres_vm.Memory.Laws.{write_raw_lem, stored}
use ceres_vm.Program.{Program}
use ceres_vm.Program.Loading.{byte_of}
use ceres_vm.Engine.State.{get_reg, set_reg}
use ceres_vm.Engine.Interrupts.{reset}
use ceres_vm.Vm.{
  Vm, check, patch_vectors, place_image, place_arguments, with_image, load_program, image_end,
}
use ceres_vm.Vm.Bios.{initialize_memory}
use ceres_vm.Vm.Arguments.{vector_at, argument_block, place_strings}
use ceres_vm.Vm.Room.{IsMachineSize, HasRoom, fits-HasRoom, check-fits, check-vectors}
use ceres_vm.Vm.Frame.{Keeps}
use ceres_vm.Vm.Block.{ArePlaced, place_strings-ArePlaced}
use ceres_vm.Vm.Placed.{HasStrings}
use ceres_vm.Vm.Image.{HasSizes, image, length-image, place_image-cells, read_bytes-image}
use ceres_vm.Vm.Vectors.{
  not_bios, initialize_memory-Keeps, patch_vectors-Keeps, read_word_cells, AreBound,
  patch_vectors-AreBound, AreBound-Keeps,
}

-- The machine that `loadProgram` leaves, from the memory with the image and the one with the
-- arguments.
module _ {W : Type 0} (p : Program) (vm : Vm W) where
  abbrev pub started : Memory → Memory → Vm W
  started memory memory' =
      let block = argument_block (with_image p memory vm.engine).memory.size vm.arguments in
      let m = reset (with_image p memory vm.engine) in
      record vm {
        program = some p;
        block = block;
        engine = set_reg 15 block.vector (
            set_reg 2 block.environment
              (set_reg 1 block.vector (set_reg 0 block.count (record m { memory = memory' }))));
      }

  load_program-started :
      (memory memory' : Memory)
      → vm.powered_on ≡ false
      → check vm.engine.memory.size p vm.arguments ≡ none
      → place_image p vm.engine.memory ≡ some memory
      → place_strings vm.arguments (with_image p memory vm.engine).memory ≡ some memory'
      → load_program p vm ≡ some (none, started memory memory')
  unfolding load_program place_arguments reset
  load_program-started memory memory' off fine placed strings =
      simp (off, fine, placed, strings) refl

-- A machine that is started with `p`.
pub record IsLoaded {W : Type 0} (p : Program) (vm' : Vm W) : Type 0 where
  pub image_placed :
      read_bytes false unrestricted_start (length (image p)) vm'.engine.memory ≡ some (image p)
  pub entry : vm'.engine.pc ≡ p.header.entry_point
  pub flags : vm'.engine.flags ≡ 0
  pub outermost : vm'.engine.interrupt_depth ≡ 0
  pub limit : vm'.engine.stack_limit ≡ image_end p.header
  pub room : image_end p.header + p.header.minimum_stack ≤ get_reg 15 vm'.engine
  pub aligned : get_reg 15 vm'.engine % 8 ≡ 0
  pub text_start : vm'.engine.text_start ≡ unrestricted_start
  pub text_end : vm'.engine.text_end ≡ unrestricted_start + p.header.text_size
  pub program : vm'.program ≡ some p
  pub vectors : AreBound p.interrupt_vectors vm'.engine.memory
  pub argc : get_reg 0 vm'.engine ≡ length vm'.arguments.arguments
  pub argv : HasStrings vm'.arguments.arguments (get_reg 1 vm'.engine) vm'.engine.memory
  pub envp : HasStrings vm'.arguments.environment (get_reg 2 vm'.engine) vm'.engine.memory
  pub below : get_reg 15 vm'.engine ≡ get_reg 1 vm'.engine
  pub block_count : vm'.block.count ≡ get_reg 0 vm'.engine
  pub block_vector : vm'.block.vector ≡ get_reg 1 vm'.engine
  pub block_environment : vm'.block.environment ≡ get_reg 2 vm'.engine

module _ {W : Type 0} (p : Program) (vm : Vm W) (s : IsMachineSize vm.engine.memory.size)
    (sizes : HasSizes p) (small : p.header.entry_point < 2 ^ 32)
    (fine : check vm.engine.memory.size p vm.arguments ≡ none) where
  room : HasRoom vm.engine.memory.size p vm.arguments
  room =
      fits-HasRoom vm.engine.memory.size p vm.arguments s
        (check-fits vm.engine.memory.size p vm.arguments fine)

  image_fits : image_end p.header ≤ vm.engine.memory.size
  image_fits = omega (arith, room.above_stack, room.below_strings, room.below_system)

  module _ (memory : Memory) (same_size : memory.size ≡ vm.engine.memory.size) where
    abbrev entered : Memory
    entered = write_raw 0 4 0 p.header.entry_point (initialize_memory memory)

    abbrev bound : Memory
    bound = patch_vectors p.interrupt_vectors entered

    bound-Keeps : Keeps not_bios entered bound
    bound-Keeps =
        patch_vectors-Keeps p.interrupt_vectors (λ _. false) entered
          (check-vectors vm.engine.memory.size p vm.arguments fine)

    bound_size : bound.size ≡ vm.engine.memory.size
    bound_size =
        bound-Keeps.size
        ∙ (write_raw_lem 0 4 0 p.header.entry_point (initialize_memory memory) (inr (inr refl))).0
        ∙ (initialize_memory-Keeps memory).size
        ∙ same_size

    entry_byte : (k : ℕ) → k < 4 → bound.bytes k ≡ p.header.entry_point / 2 ^ (k * 8) % 2 ^ 8
    entry_byte k h =
        bound-Keeps.cells k (ground (arith, h))
        ∙ (write_raw_lem 0 4 0 p.header.entry_point (initialize_memory memory) (inr (inr refl))).1 k
        ∙ inside
      where
        same : k - 0 ≡ k
        same = omega arith

        inside :
            stored 0 4 0 p.header.entry_point (initialize_memory memory) k
            ≡ p.header.entry_point / 2 ^ (k * 8) % 2 ^ 8
        inside =
            rw same (ground (arith, h, same_size, (initialize_memory-Keeps memory).size, s.least))

    reset_vector : read_raw 0 4 0 bound ≡ p.header.entry_point
    reset_vector =
        let first : p.header.entry_point / 1 ≡ p.header.entry_point = omega arith in
        read_word_cells 0 p.header.entry_point bound (omega (arith, bound_size, s.least)) small
          (entry_byte 0 (omega arith) ∙ ap (λ (t : ℕ). t % 2 ^ 8) first)
          (entry_byte 1 (omega arith)) (entry_byte 2 (omega arith)) (entry_byte 3 (omega arith))

    image_kept : (c : ℕ) → 0x400 ≤ c → bound.bytes c ≡ memory.bytes c
    image_kept c h =
        bound-Keeps.cells c (ground (arith, h))
        ∙ (write_raw_lem 0 4 0 p.header.entry_point (initialize_memory memory) (inr (inr refl))).1 c
        ∙ ground (arith, h, (initialize_memory-Keeps memory).cells c)

    module _
        (cells : (c : ℕ)
          → memory.bytes c ≡ (
              if leb unrestricted_start c && ltb c (image_end p.header)
              then byte_of (image p) (c - unrestricted_start)
              else vm.engine.memory.bytes c))
        (memory' : Memory)
        (placed : ArePlaced vm.arguments (vector_at bound.size vm.arguments) bound memory') where
      abbrev keeps : Keeps (λ c. ltb c (vector_at bound.size vm.arguments)) bound memory'
      keeps = placed.keeps

      bound_room : HasRoom bound.size p vm.arguments
      bound_room = subst (λ t. HasRoom t p vm.arguments) (sym bound_size) room

      envp_place :
          add32 (vector_at bound.size vm.arguments) (u32 ((length vm.arguments.arguments + 1) * 4))
          ≡ vector_at bound.size vm.arguments + (length vm.arguments.arguments + 1) * 4
      envp_place =
          omega (arith, bound_size, s.most, bound_room.below_strings, bound_room.below_system)

      argc_count : u32 (length vm.arguments.arguments) ≡ length vm.arguments.arguments
      argc_count =
          omega (arith, bound_size, s.most, bound_room.below_strings, bound_room.below_system)

      loaded_vectors : AreBound p.interrupt_vectors memory'
      loaded_vectors =
          let fits : 256 ≤ bound.size = omega (arith, bound_size, s.least) in
          let checked = check-vectors vm.engine.memory.size p vm.arguments fine in
          AreBound-Keeps (λ c. ltb c (vector_at bound.size vm.arguments)) bound memory' keeps fits
            (λ c h. ground (arith, h, bound_room.above_stack)) p.interrupt_vectors (λ _. false)
            checked
            (patch_vectors-AreBound p.interrupt_vectors (λ _. false) entered checked
              (omega (arith, bound-Keeps.size, fits)))

      loaded_image : read_bytes false unrestricted_start (length (image p)) memory' ≡ some (image p)
      loaded_image =
          read_bytes-image p memory' sizes (omega (arith, keeps.size, bound_size, image_fits))
            (λ k h.
              let below : unrestricted_start + k < vector_at bound.size vm.arguments =
                subst (λ t. unrestricted_start + k < vector_at t vm.arguments) (sym bound_size)
                  (omega (arith, h, length-image p sizes, room.above_stack)) in
              let offset : unrestricted_start + k - unrestricted_start ≡ 0 + k = omega arith in
              keeps.cells (unrestricted_start + k) (ground (arith, below))
              ∙ image_kept (unrestricted_start + k) (omega arith)
              ∙ cells (unrestricted_start + k)
              ∙ ground (arith, h, length-image p sizes, ap (byte_of (image p)) offset))

      started-IsLoaded : IsLoaded p (started p vm memory memory')
      unfolding with_image reset argument_block vector_at
      started-IsLoaded = record {
        image_placed = loaded_image;
        entry = reset_vector;
        flags = refl;
        outermost = refl;
        limit = refl;
        room =
            subst (λ t. image_end p.header + p.header.minimum_stack ≤ vector_at t vm.arguments)
              (sym bound_size) room.above_stack;
        aligned = subst (λ t. vector_at t vm.arguments % 8 ≡ 0) (sym bound_size) room.aligned;
        text_start = refl;
        text_end = refl;
        program = refl;
        vectors = loaded_vectors;
        argc = argc_count;
        argv = placed.arguments;
        envp =
            subst (λ t. HasStrings vm.arguments.environment t memory') (sym envp_place)
              placed.environment;
        below = refl;
        block_count = refl;
        block_vector = refl;
        block_environment = refl;
      }

-- The two memories of `started`, for a program that fits.
pub IsLoaded-memories :
    {W : Type 0} (p : Program) (vm : Vm W)
    → IsMachineSize vm.engine.memory.size
    → HasSizes p
    → p.header.entry_point < 2 ^ 32
    → vm.powered_on ≡ false
    → check vm.engine.memory.size p vm.arguments ≡ none
    → (memory memory' : Memory) × (load_program p vm ≡ some (none, started p vm memory memory'))
      × IsLoaded p (started p vm memory memory')
unfolding with_image
IsLoaded-memories p vm s sizes small off fine =
    let (memory, placed, size, cells) =
      place_image-cells p vm.engine.memory sizes (image_fits p vm s sizes small fine) in
    let same = bound_size p vm s sizes small fine memory size in
    let (memory', strings, filled) =
      place_strings-ArePlaced vm.arguments (bound p vm s sizes small fine memory size) p
        (subst IsMachineSize (sym same) s)
        (subst (λ t. HasRoom t p vm.arguments) (sym same) (room p vm s sizes small fine)) in
    (
      memory,
      memory',
      load_program-started p vm memory memory' off fine placed strings,
      started-IsLoaded p vm s sizes small fine memory size cells memory' filled,
    )

-- `loadProgram` of a program that `check` lets in, its sections as long as its header says and its entry
-- point a word, into a machine that is off and whose memory has a size that a machine can have: it
-- returns without an error and leaves the program's image in memory from the start of the unrestricted
-- segment on, text, rodata, data and zeros for the rest; the program counter at the entry point, and the
-- handler of every vector that the program binds, cut to 32 bits, in its vector, whatever the default
-- handlers wrote there; the flags clear and no interrupt in service; the stack guarded from the image's
-- end, with the stack that the program asks for between it and sp, a multiple of 8; the text range
-- guarded; in r0 the number of arguments; in r1 and r2, and in the block that the machine remembers, the
-- addresses of the arrays of the arguments and of the environment, in each of which every word is the
-- address of its string, ended by a zero byte, and the word after the last is null; sp at the first
-- array; and the arguments that the machine was given are kept.
pub load_program-IsLoaded :
    {W : Type 0} (p : Program) (vm : Vm W)
    → IsMachineSize vm.engine.memory.size
    → HasSizes p
    → p.header.entry_point < 2 ^ 32
    → vm.powered_on ≡ false
    → check vm.engine.memory.size p vm.arguments ≡ none
    → (vm' : Vm W) × (load_program p vm ≡ some (none, vm'))
      × IsLoaded p vm'
      × (vm'.arguments ≡ vm.arguments)
load_program-IsLoaded p vm s sizes small off fine =
    let (memory, memory', same, holds) = IsLoaded-memories p vm s sizes small off fine in
    (started p vm memory memory', same, holds, refl)
