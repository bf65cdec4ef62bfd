-- ===== src/Isa.antt =====
-- The instruction word (Ceres/libs/core/include/ceres/core/isa/fields.h and instructions.h): its
-- fields, what reads and sets them, and the words that `make` builds.
pub mod Laws
pub mod Wide
pub mod Pairs
mod Tests
use ceres_vm.Prelude.{
  ℕ, zero, suc, ◌+◌, ◌-◌, ◌*◌, ◌/◌, ◌%◌, ◌^◌, bit_and, bit_or, Bool, true, false, List, [], ◌∷◌,
}
use ceres_vm.Prelude.Tests.{ltb, leb, ◌==◌, if◌then◌else◌}
use ceres_vm.Prelude.Words.{u32, not32}

-- `Field<Pos, Width>`
pub record Field : Type 0 where
  pub pos : ℕ
  pub width : ℕ

-- `Field::Mask`, also for the width 32 where the source writes it apart.
abbrev pub mask : Field → ℕ
mask f = u32 ((2 ^ f.width - 1) * 2 ^ f.pos)

unfoldable pub get : Field → ℕ → ℕ
get f raw = bit_and raw (mask f) / 2 ^ f.pos

unfoldable pub set : Field → ℕ → ℕ → ℕ
set f raw value = bit_or (bit_and raw (not32 (mask f))) (bit_and (u32 (value * 2 ^ f.pos)) (mask f))

abbrev pub opcode_field : Field
opcode_field = record { pos = 24; width = 8 }

abbrev pub rd_field : Field
rd_field = record { pos = 20; width = 4 }

abbrev pub rs_field : Field
rs_field = record { pos = 16; width = 4 }

abbrev pub rt_field : Field
rt_field = record { pos = 12; width = 4 }

abbrev pub imm8_field : Field
imm8_field = record { pos = 0; width = 8 }

abbrev pub imm16_field : Field
imm16_field = record { pos = 0; width = 16 }

abbrev pub imm20_field : Field
imm20_field = record { pos = 0; width = 20 }

abbrev pub imm24_field : Field
imm24_field = record { pos = 0; width = 24 }

abbrev pub opcode : ℕ → ℕ
opcode raw = get opcode_field raw

abbrev pub rd : ℕ → ℕ
rd raw = get rd_field raw

abbrev pub rs : ℕ → ℕ
rs raw = get rs_field raw

abbrev pub rt : ℕ → ℕ
rt raw = get rt_field raw

abbrev pub imm8 : ℕ → ℕ
imm8 raw = get imm8_field raw

abbrev pub imm16 : ℕ → ℕ
imm16 raw = get imm16_field raw

-- A pattern of `w` bits read as signed and widened to 32 bits: what the casts through `i16` and `i24`
-- do, and `simm20` by hand.
unfoldable pub sign_extend : ℕ → ℕ → ℕ
sign_extend w x = if bit_and x (2 ^ (w - 1)) == 0 then x else bit_or x (not32 (2 ^ w - 1))

abbrev pub simm16 : ℕ → ℕ
simm16 raw = sign_extend 16 (get imm16_field raw)

abbrev pub simm20 : ℕ → ℕ
simm20 raw = sign_extend 20 (get imm20_field raw)

abbrev pub simm24 : ℕ → ℕ
simm24 raw = sign_extend 24 (get imm24_field raw)

-- The overloads of `make`.
unfoldable pub make_opcode : ℕ → ℕ
unfolding set
make_opcode op = set opcode_field 0 op

unfoldable pub make_imm24 : ℕ → ℕ → ℕ
unfolding make_opcode
make_imm24 op imm = set imm24_field (make_opcode op) imm

unfoldable pub make_imm8 : ℕ → ℕ → ℕ
unfolding make_opcode
make_imm8 op imm = set imm8_field (make_opcode op) imm

unfoldable pub make_two : ℕ → ℕ → ℕ → ℕ → ℕ
unfolding make_opcode
make_two op d s imm = set imm16_field (set rs_field (set rd_field (make_opcode op) d) s) imm

unfoldable pub make_three : ℕ → ℕ → ℕ → ℕ → ℕ → ℕ
unfolding make_opcode
make_three op d s t imm =
    set imm8_field (set rt_field (set rs_field (set rd_field (make_opcode op) d) s) t) imm

-- `bytes` and `fromBytes`, by the shifts of endian.h.
unfoldable pub bytes : ℕ → List ℕ
bytes raw = raw % 2 ^ 8 ∷ raw / 2 ^ 8 % 2 ^ 8 ∷ raw / 2 ^ 16 % 2 ^ 8 ∷ raw / 2 ^ 24 % 2 ^ 8 ∷ []

unfoldable pub from_bytes : ℕ → ℕ → ℕ → ℕ → ℕ
from_bytes b0 b1 b2 b3 = bit_or (bit_or (bit_or b0 (b1 * 2 ^ 8)) (b2 * 2 ^ 16)) (b3 * 2 ^ 24)
