-- ===== src/Vm/Room.antt =====
-- Where the argument block lies, for a program that `check` lets through.
use ceres_vm.Prelude.{ℕ, ◌+◌, ◌-◌, ◌%◌, ◌^◌, ◌≤◌, ◌≡◌, none, some, arith}
use ceres_vm.Memory
use ceres_vm.Memory.{Memory, system_stack_size}
use ceres_vm.Program.{Program}
use ceres_vm.Prelude.{false}
use ceres_vm.Vm.{check_vectors, check, required_memory, image_end}
use ceres_vm.Vm.Arguments.{
  ProgramArguments, argument_block_size, all_strings, pointers, strings_at, vector_at,
}

-- The sizes that `Memory` takes: whole pages, between the least and the limit.
pub record IsMachineSize (size : ℕ) : Type 0 where
  pub least : 8192 ≤ size
  pub most : size ≤ 2 ^ 31
  pub pages : size % 4096 ≡ 0

make-IsMachineSize : (size : ℕ) {m : Memory} → Memory.make size ≡ some m → IsMachineSize size
unfolding Memory.make
make-IsMachineSize size h = ground (arith, h)

-- What the loader relies on of the block's place.
pub record HasRoom (size : ℕ) (p : Program) (a : ProgramArguments) : Type 0 where
  pub above_stack : image_end p.header + p.header.minimum_stack ≤ vector_at size a
  pub aligned : vector_at size a % 8 ≡ 0
  pub below_strings : vector_at size a + pointers a ≤ strings_at size a
  pub below_system : strings_at size a + all_strings a ≤ size - system_stack_size

pub fits-HasRoom :
    (size : ℕ) (p : Program) (a : ProgramArguments)
    → IsMachineSize size
    → required_memory p.header a ≤ size
    → HasRoom size p a
unfolding required_memory argument_block_size strings_at vector_at
fits-HasRoom size p a s h = omega (arith, s.least, s.most, s.pages, h)

pub check-fits :
    (size : ℕ) (p : Program) (a : ProgramArguments)
    → check size p a ≡ none
    → required_memory p.header a ≤ size
unfolding check
check-fits size p a h = ground (arith, h)

pub check-vectors :
    (size : ℕ) (p : Program) (a : ProgramArguments)
    → check size p a ≡ none
    → check_vectors p.interrupt_vectors (λ _. false) ≡ none
unfolding check
check-vectors size p a h = ground (arith, h)

-- A program that `check` lets into a machine's memory, with its arguments: the block of pointers and
-- strings that `placeArguments` writes lies between the image with the stack the program asked for and
-- the system stack, the pointers below the strings, and the stack pointer under it is a multiple of 8.
pub check-HasRoom :
    (size : ℕ) (p : Program) (a : ProgramArguments) {m : Memory}
    → Memory.make size ≡ some m
    → check size p a ≡ none
    → HasRoom size p a
check-HasRoom size p a made h =
    fits-HasRoom size p a (make-IsMachineSize size made) (check-fits size p a h)
