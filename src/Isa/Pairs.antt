-- ===== src/Isa/Pairs.antt =====
-- What the check of the 64-bit instructions promises their handlers.
use ceres_vm.Prelude.{ℕ, ◌+◌, ◌<◌, ◌%◌, ◌≡◌, ◌↔◌, refl, true, arith}
use ceres_vm.Isa.{opcode, rd, rs, rt, rd_field, rs_field, rt_field}
use ceres_vm.Isa.Laws.{get-lt}
use ceres_vm.Isa.Wide.{
  Bank, no_bank, int_bank, float_bank, int_pair, double_pair, ok, check, describe, valid_field,
  valid_subfield, is_wide,
}

-- A pair starts at an even register; an integer pair lies below fp and sp, a pair of doubles inside
-- the sixteen float registers.
abbrev pub FitsBank : Bank → ℕ → Type 0
FitsBank no_bank field = Unit
FitsBank int_bank field = Unit
FitsBank float_bank field = Unit
FitsBank int_pair field = (field % 2 ≡ 0) × (field + 1 < 14)
FitsBank double_pair field = (field % 2 ≡ 0) × (field + 1 < 16)

valid_field-FitsBank :
    (b : Bank) (field : ℕ) → field < 16 → valid_field b field ≡ true → FitsBank b field
unfolding valid_field
valid_field-FitsBank no_bank field low h = tt
valid_field-FitsBank int_bank field low h = tt
valid_field-FitsBank float_bank field low h = tt
valid_field-FitsBank int_pair field low h = (ground (arith, h), ground (arith, h, low))
valid_field-FitsBank double_pair field low h = (ground (arith, h), ground (arith, h, low))

FitsBank-valid_field : (b : Bank) (field : ℕ) → FitsBank b field → valid_field b field ≡ true
unfolding valid_field
FitsBank-valid_field no_bank field h = refl
FitsBank-valid_field int_bank field h = refl
FitsBank-valid_field float_bank field h = refl
FitsBank-valid_field int_pair field h = ground (arith, h.0, h.1)
FitsBank-valid_field double_pair field h = ground (arith, h.0)

-- What `check` asks of a 64-bit word.
abbrev IsValid : ℕ → Type 0
IsValid raw =
    (valid_subfield raw ≡ true)
    × (valid_field (describe raw).rd_bank (rd raw) ≡ true)
    × (valid_field (describe raw).rs_bank (rs raw) ≡ true)
    × (valid_field (describe raw).rt_bank (rt raw) ≡ true)

check-IsValid : (raw : ℕ) → is_wide (opcode raw) ≡ true → check raw ≡ ok → IsValid raw
unfolding check
check-IsValid raw wide h = (
  ground (arith, wide, h),
  ground (arith, wide, h),
  ground (arith, wide, h),
  ground (arith, wide, h),
)

IsValid-check : (raw : ℕ) → IsValid raw → check raw ≡ ok
unfolding check
IsValid-check raw h = ground (arith, h.0, h.1, h.2, h.3)

-- The machine runs a 64-bit word exactly if its subfield names an instruction and every field of it
-- that names a pair names an even register with the next one in the bank, below fp and sp for the
-- integers.
pub check-FitsBank :
    (raw : ℕ)
    → is_wide (opcode raw) ≡ true
    → (check raw ≡ ok) ↔ (
        (valid_subfield raw ≡ true)
        × FitsBank (describe raw).rd_bank (rd raw)
        × FitsBank (describe raw).rs_bank (rs raw)
        × FitsBank (describe raw).rt_bank (rt raw))
check-FitsBank raw wide = (
  λ h.
      let valid = check-IsValid raw wide h in
      (
        valid.0,
        valid_field-FitsBank _ _ (get-lt rd_field raw (record { inside = omega arith })) valid.1,
        valid_field-FitsBank _ _ (get-lt rs_field raw (record { inside = omega arith })) valid.2,
        valid_field-FitsBank _ _ (get-lt rt_field raw (record { inside = omega arith })) valid.3,
      ),
  λ fits. IsValid-check raw (
    fits.0,
    FitsBank-valid_field _ _ fits.1,
    FitsBank-valid_field _ _ fits.2,
    FitsBank-valid_field _ _ fits.3,
  ),
)
