-- ===== src/Mmio/Masks.antt =====
-- The word of a slot and its device's table agree.
use ceres_vm.Prelude.{
  ℕ, ◌*◌, ◌/◌, ◌%◌, ◌^◌, ◌<◌, ◌≡◌, refl, bit_or, ◌&&◌, List, [], ◌∷◌, inl, inr, arith, ◌∙◌,
}
use ceres_vm.Prelude.Tests.{ltb, ◌==◌, if◌then◌else◌, Bool-cases}
use ceres_vm.Prelude.Bits.{bit, bit-lt, bit-bit_or, bit-pow, bit-div-pow, zero-bit, bit_test}
use ceres_vm.Mmio.{find, mask_from, declared_mask, MmioBus, IoDevices, declares_at}

-- The digits of the mask are the table's registers below 0x100.
bit-mask_from :
    (mask k : ℕ) (os : List ℕ)
    → k < 64
    → bit (mask_from mask os) k ≡ (if find (4 * k) os then 1 else bit mask k)
unfolding mask_from
bit-mask_from mask k [] h = refl
bit-mask_from mask k (o ∷ os) h = elim (Bool-cases (ltb o 0x100 && (o % 4 == 0))) [
  | inl e ↦
      rw (mask_from, e)
        (bit-mask_from (bit_or mask (2 ^ (o / 4))) k os h
          ∙ ground (arith, e, bit-bit_or mask (2 ^ (o / 4)) k, bit-pow (o / 4) k, bit-lt mask k))
  | inr e ↦ rw (mask_from, e) (bit-mask_from mask k os h ∙ ground (arith, e))
]

-- The bit test of `declares` gives what a search of the table gives, at every aligned offset.
pub declares_at-find :
    {S : Type 0} (io : IoDevices S) (device index k : ℕ) (bus : MmioBus)
    → bus.declared index ≡ declared_mask (io.registers device)
    → declares_at io device index (4 * k) bus ≡ find (4 * k) (io.registers device)
unfolding declares_at
declares_at-find io device index k bus same = elim (Bool-cases (ltb (4 * k) 0x100)) [
  | inl low ↦ rw same (
      ground (
        arith,
        low,
        bit-mask_from 0 k (io.registers device),
        bit-div-pow (declared_mask (io.registers device)) (4 * k / 4) 0,
        bit_test (declared_mask (io.registers device) / 2 ^ (4 * k / 4)) 0,
        zero-bit k,
      ))
  | inr high ↦ ground (arith, high)
]
