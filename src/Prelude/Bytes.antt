-- ===== src/Prelude/Bytes.antt =====
-- Four bytes put together by shifts and `|`: the sum of the bytes, each times its weight.
use Prim.Native.Nat.{ℕ, ◌+◌, ◌*◌, ◌^◌, ◌<◌, bit_or}
use mathlib.Core.Path.{◌≡◌, ◌∙◌}
use native.Mathlib.Omega.{arith}
use ceres_vm.Prelude.Bits.{bit_or_comm, bit_or_fields}

pub or_next : (v b k : ℕ) → v < 2 ^ k → bit_or v (b * 2 ^ k) ≡ v + b * 2 ^ k
or_next v b k h = bit_or_comm v (b * 2 ^ k) ∙ bit_or_fields k b v h ∙ omega arith

pub or_four :
    (a b c d : ℕ)
    → a < 256
    → b < 256
    → c < 256
    → bit_or (bit_or (bit_or a (b * 2 ^ 8)) (c * 2 ^ 16)) (d * 2 ^ 24)
      ≡ a + (256 * b + (65536 * c + 16777216 * d))
or_four a b c d p q r =
    rw
      (
        or_next a b 8 p,
        or_next (a + b * 2 ^ 8) c 16 (omega arith),
        or_next (a + b * 2 ^ 8 + c * 2 ^ 16) d 24 (omega arith),
      )
      (omega arith)
