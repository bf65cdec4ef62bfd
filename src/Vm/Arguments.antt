-- ===== src/Vm/Arguments.antt =====
-- What a program is started with, and where the loader puts it: `argumentBlockSize` and
-- `placeArguments` of Ceres/libs/vm/src/ceresvm.cpp. A string is its bytes.
use ceres_vm.Prelude.{ℕ, ◌+◌, ◌-◌, ◌*◌, ◌/◌, ◌^◌, false, Option, none, some, List, [], ◌∷◌}
use ceres_vm.Prelude.Lists.{length}
use ceres_vm.Prelude.Words.{u32, u64, add32, sub32}
use ceres_vm.Memory.{Memory, write_raw, write_bytes, system_stack_size}

-- A step that can throw, and the rest.
abbrev pub bind {ℓ κ} : {A : Type ℓ} {B : Type κ} → Option A → (A → Option B) → Option B
bind none k = none
bind (some a) k = k a

pub record ProgramArguments : Type 0 where
  pub arguments : List (List ℕ)
  pub environment : List (List ℕ)

pub record ArgumentBlock : Type 0 where
  pub count : ℕ
  pub vector : ℕ
  pub environment : ℕ

-- The strings' bytes, each with the zero that ends it.
abbrev pub strings_size : List (List ℕ) → ℕ
strings_size [] = 0
strings_size (s ∷ ss) = length s + 1 + strings_size ss

abbrev pub all_strings : ProgramArguments → ℕ
all_strings a = strings_size a.arguments + strings_size a.environment

-- The two arrays, each with its null pointer.
abbrev pub pointers : ProgramArguments → ℕ
pointers a = (length a.arguments + 1 + length a.environment + 1) * 4

-- `(x + 3) & ~3` is `(x + 3) / 4 * 4`.
unfoldable pub argument_block_size : ProgramArguments → ℕ
argument_block_size a = (all_strings a + 3) / 4 * 4 + pointers a + 8

-- `stringsAt`, in the 64 bits of `usize` and then in 32.
unfoldable pub strings_at : ℕ → ProgramArguments → ℕ
strings_at size a = u32 (u64 (u32 (size - system_stack_size) + 2 ^ 64 - all_strings a) / 4 * 4)

-- `vectorAt`
unfoldable pub vector_at : ℕ → ProgramArguments → ℕ
vector_at size a = sub32 (strings_at size a) (u32 (pointers a)) / 8 * 8

unfoldable pub argument_block : ℕ → ProgramArguments → ArgumentBlock
argument_block size a = record {
  count = u32 (length a.arguments);
  vector = vector_at size a;
  environment = add32 (vector_at size a) (u32 ((length a.arguments + 1) * 4));
}

-- The lambda `put` and the loop around it: the strings from `cursor` on, their addresses from `slot`
-- on, then the null pointer. The cursor comes back.
unfoldable pub put_strings : List (List ℕ) → ℕ → ℕ → Memory → Option (ℕ × Memory)
put_strings [] cursor slot m = some (cursor, write_raw 0 4 slot 0 m)
put_strings (s ∷ ss) cursor slot m = bind (write_bytes false cursor s m) (λ m1.
    put_strings ss (add32 (add32 cursor (u32 (length s))) 1) (add32 slot 4)
      (write_raw 0 4 slot cursor (write_raw 0 1 (add32 cursor (u32 (length s))) 0 m1)))

-- `placeArguments`, as far as memory goes.
unfoldable pub place_strings : ProgramArguments → Memory → Option Memory
place_strings a m =
    let block = argument_block m.size a in
    bind (put_strings a.arguments (strings_at m.size a) block.vector m)
      (λ r. bind (put_strings a.environment r.0 block.environment r.1) (λ r'. some r'.1))
