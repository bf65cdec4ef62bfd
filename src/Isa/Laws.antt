-- ===== src/Isa/Laws.antt =====
-- The fields of a word: what was set is what is read, in its own field and in every other.
use ceres_vm.Prelude.{
  ℕ, ◌+◌, ◌-◌, ◌*◌, ◌%◌, ◌^◌, ◌≤◌, ◌<◌, bit_and, ◌≡◌, ap, ◌∙◌, ◌⊎◌, inl, ◌&&◌, arith,
}
use ceres_vm.Prelude.Tests.{ltb, leb, if◌then◌else◌}
use ceres_vm.Prelude.Bits.{
  bit, bit-lt, bit-bit_and, bit-bit_or, bit_ext, bit-mul-pow, bit-ones, bit-div-pow, bit-mod-pow,
  bit_complement, mod-pow-lt,
}
use ceres_vm.Prelude.Words.{u32, not32}
use ceres_vm.Isa.{
  Field, mask, get, set, opcode_field, rd_field, rs_field, rt_field, imm8_field, make_opcode,
  make_three, opcode, rd, rs, rt, imm8,
}

-- A field that lies inside the word, as `static_assert` asks.
pub record IsField (f : Field) : Type 0 where
  pub inside : f.pos + f.width ≤ 32

-- The digits of a field's mask.
mask-digit :
    (f : Field)
    → IsField f
    → (k : ℕ) → bit (mask f) k ≡ (if leb f.pos k && ltb k (f.pos + f.width) then 1 else 0)
mask-digit f i k = ground (
  arith,
  bit-mod-pow ((2 ^ f.width - 1) * 2 ^ f.pos) 32 k,
  bit-mul-pow (2 ^ f.width - 1) f.pos k,
  bit-ones f.width (k - f.pos),
  i.inside,
)

get-digit :
    (f : Field)
    → IsField f
    → (raw k : ℕ) → bit (get f raw) k ≡ (if ltb k f.width then bit raw (f.pos + k) else 0)
unfolding get
get-digit f i raw k = ground (
  arith,
  bit-div-pow (bit_and raw (mask f)) f.pos k,
  bit-bit_and raw (mask f) (f.pos + k),
  mask-digit f i (f.pos + k),
  bit-lt raw (f.pos + k),
)

-- A field's value has its width.
pub get-lt : (f : Field) (raw : ℕ) → IsField f → get f raw < 2 ^ f.width
get-lt f raw i = rw (← whole) (mod-pow-lt (get f raw) f.width)
  where
    whole : get f raw % 2 ^ f.width ≡ get f raw
    whole = bit_ext _ _ λ k. ground (arith, bit-mod-pow (get f raw) f.width k, get-digit f i raw k)

set-digit :
    (f : Field)
    → IsField f
    → (raw value k : ℕ)
    → bit (set f raw value) k ≡ (
        if leb f.pos k && ltb k (f.pos + f.width)
        then bit value (k - f.pos)
        else if ltb k 32
        then bit raw k
        else 0)
unfolding set
set-digit f i raw value k = ground (
  arith,
  bit-bit_or (bit_and raw (not32 (mask f))) (bit_and (u32 (value * 2 ^ f.pos)) (mask f)) k,
  bit-bit_and raw (not32 (mask f)) k,
  bit-bit_and (u32 (value * 2 ^ f.pos)) (mask f) k,
  mask-digit f i k,
  bit_complement 32 (mask f) k (mod-pow-lt ((2 ^ f.width - 1) * 2 ^ f.pos) 32),
  bit-mod-pow (value * 2 ^ f.pos) 32 k,
  bit-mul-pow value f.pos k,
  bit-lt raw k,
  bit-lt value (k - f.pos),
  i.inside,
)

get_own : (f : Field) (raw value : ℕ) → IsField f → get f (set f raw value) ≡ value % 2 ^ f.width
get_own f raw value i = bit_ext _ _ λ k. ground (
  arith,
  get-digit f i (set f raw value) k,
  set-digit f i raw value (f.pos + k),
  bit-mod-pow value f.width k,
  ap (bit value) (back k),
)
  where
    back : (k : ℕ) → f.pos + k - f.pos ≡ k
    back k = omega arith

get_apart :
    (f g : Field) (raw value : ℕ)
    → IsField f
    → IsField g
    → (f.pos + f.width ≤ g.pos) ⊎ (g.pos + g.width ≤ f.pos)
    → get g (set f raw value) ≡ get g raw
get_apart f g raw value i j apart = bit_ext _ _ λ k. ground (
  arith,
  get-digit g j (set f raw value) k,
  get-digit g j raw k,
  set-digit f i raw value (g.pos + k),
  apart,
  i.inside,
  j.inside,
)

-- Setting a field and reading it back gives the value, cut to the field's width; reading a field apart
-- from it gives what stood there.
pub get-set :
    (f g : Field) (raw value : ℕ)
    → IsField f
    → IsField g
    → (f.pos + f.width ≤ g.pos) ⊎ (g.pos + g.width ≤ f.pos)
    → (get f (set f raw value) ≡ value % 2 ^ f.width) × (get g (set f raw value) ≡ get g raw)
get-set f g raw value i j apart = (get_own f raw value i, get_apart f g raw value i j apart)

-- The value that is read back from its own field.
own :
    (f : Field) (raw value : ℕ)
    → f.pos + f.width ≤ 32
    → get f (set f raw value) ≡ value % 2 ^ f.width
own f raw value h = get_own f raw value (record { inside = h })

-- A field keeps its value when one apart from it is set.
kept :
    (f g : Field) (raw value : ℕ)
    → f.pos + f.width ≤ 32
    → g.pos + g.width ≤ 32
    → (f.pos + f.width ≤ g.pos) ⊎ (g.pos + g.width ≤ f.pos)
    → get g (set f raw value) ≡ get g raw
kept f g raw value h k apart =
    get_apart f g raw value (record { inside = h }) (record { inside = k }) apart

-- The word of an instruction with three registers and a byte: every field is read back.
pub make_three-decode :
    (op d s t imm : ℕ)
    → op < 2 ^ 8
    → d < 2 ^ 4
    → s < 2 ^ 4
    → t < 2 ^ 4
    → imm < 2 ^ 8
    → (opcode (make_three op d s t imm) ≡ op)
      × (rd (make_three op d s t imm) ≡ d)
      × (rs (make_three op d s t imm) ≡ s)
      × (rt (make_three op d s t imm) ≡ t)
      × (imm8 (make_three op d s t imm) ≡ imm)
unfolding make_three make_opcode
make_three-decode op d s t imm ho hd hs ht hi =
    let w0 = set opcode_field 0 op in
    let w1 = set rd_field w0 d in
    let w2 = set rs_field w1 s in
    let w3 = set rt_field w2 t in
    (
      kept imm8_field opcode_field w3 imm (omega arith) (omega arith) (inl (omega arith))
          ∙ kept rt_field opcode_field w2 t (omega arith) (omega arith) (inl (omega arith))
          ∙ kept rs_field opcode_field w1 s (omega arith) (omega arith) (inl (omega arith))
          ∙ kept rd_field opcode_field w0 d (omega arith) (omega arith) (inl (omega arith))
          ∙ own opcode_field 0 op (omega arith)
          ∙ omega arith,
      kept imm8_field rd_field w3 imm (omega arith) (omega arith) (inl (omega arith))
          ∙ kept rt_field rd_field w2 t (omega arith) (omega arith) (inl (omega arith))
          ∙ kept rs_field rd_field w1 s (omega arith) (omega arith) (inl (omega arith))
          ∙ own rd_field w0 d (omega arith)
          ∙ omega arith,
      kept imm8_field rs_field w3 imm (omega arith) (omega arith) (inl (omega arith))
          ∙ kept rt_field rs_field w2 t (omega arith) (omega arith) (inl (omega arith))
          ∙ own rs_field w1 s (omega arith)
          ∙ omega arith,
      kept imm8_field rt_field w3 imm (omega arith) (omega arith) (inl (omega arith))
          ∙ own rt_field w2 t (omega arith)
          ∙ omega arith,
      own imm8_field w3 imm (omega arith) ∙ omega arith,
    )
