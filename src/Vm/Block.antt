-- ===== src/Vm/Block.antt =====
-- The two argument arrays and their strings in memory, after `placeArguments`.
use ceres_vm.Prelude.{ℕ, ◌+◌, ◌*◌, ◌^◌, ◌<◌, ◌≡◌, refl, Bool, some, arith}
use ceres_vm.Prelude.Tests.{ltb}
use ceres_vm.Prelude.Lists.{length}
use ceres_vm.Prelude.Words.{u32, add32}
use ceres_vm.Memory.{Memory}
use ceres_vm.Program.{Program}
use ceres_vm.Vm.Arguments.{
  ProgramArguments, strings_size, strings_at, vector_at, argument_block, put_strings, place_strings,
}
use ceres_vm.Vm.Room.{IsMachineSize, HasRoom}
use ceres_vm.Vm.Frame.{Keeps, Keeps-trans, Keeps-weaken}
use ceres_vm.Vm.Placed.{HasStrings, outside, IsPut-HasStrings, IsPut-Keeps, put_strings-IsPut}

place_strings-both :
    (a : ProgramArguments) (m m1 m2 : Memory) (c1 c2 : ℕ)
    → put_strings a.arguments (strings_at m.size a) (vector_at m.size a) m ≡ some (c1, m1)
    → put_strings a.environment c1 (vector_at m.size a + (length a.arguments + 1) * 4) m1
      ≡ some (c2, m2)
    → vector_at m.size a + (length a.arguments + 1) * 4 < 2 ^ 32
    → place_strings a m ≡ some m2
unfolding place_strings argument_block
place_strings-both a m m1 m2 c1 c2 e1 e2 small =
    let next : add32 (vector_at m.size a) (u32 ((length a.arguments + 1) * 4))
        ≡ vector_at m.size a + (length a.arguments + 1) * 4 =
      omega (arith, small) in
    rw (e1, next, e2) refl

-- What writing the arguments leaves: both arrays with their strings, and all below them as it was.
pub record ArePlaced (a : ProgramArguments) (lo : ℕ) (m m' : Memory) : Type 0 where
  pub keeps : Keeps (λ c. ltb c lo) m m'
  pub arguments : HasStrings a.arguments lo m'
  pub environment : HasStrings a.environment (lo + (length a.arguments + 1) * 4) m'

pub place_strings-ArePlaced :
    (a : ProgramArguments) (m : Memory) (p : Program)
    → IsMachineSize m.size
    → HasRoom m.size p a
    → (m' : Memory) × (place_strings a m ≡ some m') × ArePlaced a (vector_at m.size a) m m'
place_strings-ArePlaced a m p s r =
    let lo = vector_at m.size a in
    let at = strings_at m.size a in
    let kept : ℕ → Bool = λ c. ltb c lo in
    let next : ℕ = lo + (length a.arguments + 1) * 4 in
    let (m1, e1, k1, put1) =
      put_strings-IsPut a.arguments at lo m (omega (arith, r.below_strings)) s.most
        (omega (arith, r.below_system)) in
    let (m2, e2, k2, put2) =
      put_strings-IsPut a.environment (at + strings_size a.arguments) next m1
        (omega (arith, r.below_strings)) (omega (arith, s.most, k1.size))
        (omega (arith, r.below_system, k1.size)) in
    (
      m2,
      place_strings-both a m m1 m2 _ _ e1 e2
          (omega (arith, r.below_strings, r.below_system, s.most)),
      record {
        keeps =
            Keeps-trans kept
              (Keeps-weaken (outside a.arguments at lo) kept
                (λ c h. ground (arith, h, r.below_strings)) k1)
              (Keeps-weaken (outside a.environment (at + strings_size a.arguments) next) kept
                (λ c h. ground (arith, h, r.below_strings)) k2);
        arguments = IsPut-HasStrings a.arguments at lo m2 (
            IsPut-Keeps _ m1 m2 k2 a.arguments at lo
              (omega (arith, r.below_strings, r.below_system, k1.size))
              (λ c h q. ground (arith, h, q, r.below_strings))
              (λ c h q. ground (arith, h, q, r.below_strings)) put1);
        environment = IsPut-HasStrings a.environment (at + strings_size a.arguments) next m2 put2;
      },
    )
