-- ===== src/Isa/Tests.antt =====
-- One word of three registers.
use ceres_vm.Prelude.{◌≡◌, refl}
use ceres_vm.Isa.{set, make_three}

make_word : make_three 0x10 1 2 3 0xFF ≡ 0x101230FF
unfolding make_three set
make_word = refl
