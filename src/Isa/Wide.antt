-- ===== src/Isa/Wide.antt =====
-- The 64-bit instructions (Ceres/libs/core/include/ceres/core/isa/wide.h): which bank each register
-- field names and which words the machine runs. The names and forms of the entries, which only the
-- assembler and the disassembler read, are left out.
use ceres_vm.Prelude.{ℕ, ◌%◌, Bool, true, not, ◌&&◌, ◌||◌, List, [], ◌∷◌}
use ceres_vm.Prelude.Tests.{ltb, leb, ◌==◌, if◌then◌else◌}
use ceres_vm.Isa.{Field, get, opcode, rd, rs, rt}

pub data Bank : Type 0 where
  no_bank : Bank
  int_bank : Bank
  float_bank : Bank
  int_pair : Bank
  double_pair : Bank

-- The banks of the fields rd, rs and rt.
pub record Entry : Type 0 where
  pub rd_bank : Bank
  pub rs_bank : Bank
  pub rt_bank : Bank

pub data Decode : Type 0 where
  ok : Decode
  register_pair : Decode
  bad_subfield : Decode

abbrev pub shift_kind_field : Field
shift_kind_field = record { pos = 6; width = 2 }

abbrev pub shift_amount_field : Field
shift_amount_field = record { pos = 0; width = 6 }

abbrev pub bit_op_field : Field
bit_op_field = record { pos = 0; width = 2 }

abbrev pub unary_op_field : Field
unary_op_field = record { pos = 0; width = 3 }

abbrev pub fcvt_kind_field : Field
fcvt_kind_field = record { pos = 0; width = 4 }

abbrev pub fcvt_kind_count : ℕ
fcvt_kind_count = 14

abbrev banks : Bank → Bank → Bank → Entry
banks d s t = record { rd_bank = d; rs_bank = s; rt_bank = t }

abbrev none_of : Entry
none_of = banks no_bank no_bank no_bank

-- An entry by its opcode.
pub record Row : Type 0 where
  pub code : ℕ
  pub entry : Entry

-- The entries of `detail::fixed`.
abbrev pub rows : List Row
rows =
    record { code = 0xD7; entry = banks int_pair int_pair int_pair }
    ∷ record { code = 0xD8; entry = banks int_pair int_pair int_pair }
    ∷ record { code = 0xD9; entry = banks int_pair int_pair no_bank }
    ∷ record { code = 0xDA; entry = banks no_bank int_pair int_pair }
    ∷ record { code = 0xDB; entry = banks int_pair int_bank int_bank }
    ∷ record { code = 0xDC; entry = banks int_pair int_bank int_bank }
    ∷ record { code = 0xDD; entry = banks int_pair int_pair int_pair }
    ∷ record { code = 0xDE; entry = banks int_pair int_pair int_pair }
    ∷ record { code = 0xDF; entry = banks int_pair int_pair int_pair }
    ∷ record { code = 0xE0; entry = banks int_pair int_pair int_pair }
    ∷ record { code = 0xE1; entry = banks int_pair int_pair int_pair }
    ∷ record { code = 0xE2; entry = banks int_pair int_pair int_bank }
    ∷ record { code = 0xE3; entry = banks int_pair int_pair int_bank }
    ∷ record { code = 0xE4; entry = banks int_pair int_pair int_bank }
    ∷ record { code = 0xE5; entry = banks int_pair int_pair no_bank }
    ∷ record { code = 0xE6; entry = banks int_pair int_bank no_bank }
    ∷ record { code = 0xE7; entry = banks int_bank int_pair no_bank }
    ∷ record { code = 0xE8; entry = banks int_pair int_pair no_bank }
    ∷ record { code = 0xE9; entry = banks int_pair int_bank no_bank }
    ∷ record { code = 0xEA; entry = banks int_bank int_pair no_bank }
    ∷ record { code = 0xEB; entry = banks int_pair int_bank int_bank }
    ∷ record { code = 0xEC; entry = banks int_bank int_pair int_bank }
    ∷ record { code = 0xED; entry = banks int_pair no_bank no_bank }
    ∷ record { code = 0xEF; entry = banks double_pair double_pair double_pair }
    ∷ record { code = 0xF0; entry = banks double_pair double_pair double_pair }
    ∷ record { code = 0xF1; entry = banks double_pair double_pair double_pair }
    ∷ record { code = 0xF2; entry = banks double_pair double_pair double_pair }
    ∷ record { code = 0xF3; entry = banks double_pair double_pair double_pair }
    ∷ record { code = 0xF4; entry = banks double_pair double_pair no_bank }
    ∷ record { code = 0xF5; entry = banks no_bank double_pair double_pair }
    ∷ record { code = 0xF6; entry = banks double_pair double_pair double_pair }
    ∷ record { code = 0xF7; entry = banks double_pair double_pair double_pair }
    ∷ record { code = 0xF8; entry = banks double_pair double_pair no_bank }
    ∷ record { code = 0xF9; entry = banks double_pair double_pair double_pair }
    ∷ record { code = 0xFA; entry = banks int_bank double_pair no_bank }
    ∷ record { code = 0xFB; entry = banks no_bank no_bank no_bank }
    ∷ record { code = 0xFC; entry = banks double_pair double_pair no_bank }
    ∷ record { code = 0xFD; entry = banks double_pair int_bank no_bank }
    ∷ record { code = 0xFE; entry = banks int_bank double_pair no_bank }
    ∷ record { code = 0x7A; entry = banks double_pair int_bank int_bank }
    ∷ record { code = 0x7B; entry = banks int_bank double_pair int_bank }
    ∷ record { code = 0x7C; entry = banks double_pair no_bank no_bank }
    ∷ record { code = 0x7D; entry = banks double_pair int_pair no_bank }
    ∷ record { code = 0x7E; entry = banks int_pair double_pair no_bank }
    ∷ []

unfoldable pub find_row : ℕ → List Row → Entry
find_row op [] = none_of
find_row op (r ∷ rs) = if r.code == op then r.entry else find_row op rs

abbrev pub fixed : ℕ → Entry
fixed op = find_row op rows

-- The banks of `Conversions`, by their kind.
abbrev pub conversions : List Row
conversions =
    record { code = 0; entry = banks double_pair float_bank no_bank }
    ∷ record { code = 1; entry = banks float_bank double_pair no_bank }
    ∷ record { code = 2; entry = banks double_pair int_bank no_bank }
    ∷ record { code = 3; entry = banks double_pair int_bank no_bank }
    ∷ record { code = 4; entry = banks int_bank double_pair no_bank }
    ∷ record { code = 5; entry = banks int_bank double_pair no_bank }
    ∷ record { code = 6; entry = banks double_pair int_pair no_bank }
    ∷ record { code = 7; entry = banks double_pair int_pair no_bank }
    ∷ record { code = 8; entry = banks int_pair double_pair no_bank }
    ∷ record { code = 9; entry = banks int_pair double_pair no_bank }
    ∷ record { code = 10; entry = banks float_bank int_pair no_bank }
    ∷ record { code = 11; entry = banks float_bank int_pair no_bank }
    ∷ record { code = 12; entry = banks int_pair float_bank no_bank }
    ∷ record { code = 13; entry = banks int_pair float_bank no_bank }
    ∷ []

unfoldable pub is_wide : ℕ → Bool
is_wide op = (leb 0xD7 op && leb op 0xFE && not (op == 0xEE)) || (leb 0x7A op && leb op 0x7E)

unfoldable pub valid_subfield : ℕ → Bool
valid_subfield raw =
    if opcode raw == 0xE5
    then ltb (get shift_kind_field raw) 3
    else if opcode raw == 0xE7
    then ltb (get bit_op_field raw) 3
    else if opcode raw == 0xF8
    then ltb (get unary_op_field raw) 6
    else if opcode raw == 0xFB
    then ltb (get fcvt_kind_field raw) fcvt_kind_count
    else true

unfoldable pub describe : ℕ → Entry
describe raw =
    if not (is_wide (opcode raw)) || not (valid_subfield raw)
    then none_of
    else if opcode raw == 0xFB
    then find_row (get fcvt_kind_field raw) conversions
    else fixed (opcode raw)

unfoldable pub valid_field : Bank → ℕ → Bool
valid_field no_bank field = true
valid_field int_bank field = true
valid_field float_bank field = true
valid_field int_pair field = (field % 2 == 0) && not (field == 14)
valid_field double_pair field = field % 2 == 0

unfoldable pub check : ℕ → Decode
check raw =
    if not (is_wide (opcode raw))
    then ok
    else if not (valid_subfield raw)
    then bad_subfield
    else if not (valid_field (describe raw).rd_bank (rd raw))
        || not (valid_field (describe raw).rs_bank (rs raw))
        || not (valid_field (describe raw).rt_bank (rt raw))
    then register_pair
    else ok
