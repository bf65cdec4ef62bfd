-- ===== src/Program.antt =====
-- The program file of Ceres/libs/core/include/ceres/core/format/program.h and
-- Ceres/libs/core/src/format/program.cpp: its header, its sections and the writer, which gives the bytes that
-- it writes.
pub mod Loading
pub mod Bytes
pub mod Streams
pub mod RoundTrip
pub mod Refusals
mod Tests
use ceres_vm.Prelude.{
  ℕ, zero, suc, ◌+◌, ◌-◌, ◌*◌, ◌/◌, ◌^◌, ◌||◌, bit_and, bit_or, Bool, true, false, not, Option,
  none, some, List, [], ◌∷◌, ◌++◌,
}
use ceres_vm.Prelude.Tests.{ltb, ◌==◌, if◌then◌else◌}
use ceres_vm.Prelude.Lists.{length, drop, take}
use ceres_vm.Prelude.Words.{u8, u32}

abbrev pub magic_number : ℕ
magic_number = 0x43524553

abbrev pub current_version : ℕ
current_version = 4

abbrev pub minimum_supported_version : ℕ
minimum_supported_version = 4

-- The size of the packed header.
abbrev pub header_size : ℕ
header_size = 32

pub record ProgramHeader : Type 0 where
  pub magic : ℕ
  pub version : ℕ
  pub flags : ℕ
  pub entry_point : ℕ
  pub text_size : ℕ
  pub rodata_size : ℕ
  pub data_size : ℕ
  pub bss_size : ℕ
  pub minimum_stack : ℕ

pub record InterruptVectorPatch : Type 0 where
  pub interrupt_number : ℕ
  pub handler_address : ℕ

pub record Program : Type 0 where
  pub header : ProgramHeader
  pub text : List ℕ
  pub rodata : List ℕ
  pub data_section : List ℕ
  pub interrupt_vectors : List InterruptVectorPatch
  pub debug_section : List ℕ

abbrev pub has_debug_info : ℕ
has_debug_info = 0

abbrev pub has_interrupt_vectors : ℕ
has_interrupt_vectors = 1

-- `(header.flags & flag) != 0`, the flag by the place of its digit.
unfoldable pub announces : ℕ → ProgramHeader → Bool
announces flag h = not (bit_and h.flags (2 ^ flag) == 0)

-- `flags |= flag` and `flags &= ~flag` on 16 bits.
unfoldable pub announce : ℕ → Bool → ℕ → ℕ
announce flag there flags =
    if there then bit_or flags (2 ^ flag) else bit_and flags (2 ^ 16 - 1 - 2 ^ flag)

abbrev pub is_empty {ℓ} : {A : Type ℓ} → List A → Bool
is_empty [] = true
is_empty (x ∷ xs) = false

unfoldable pub make :
    ProgramHeader → List ℕ → List ℕ → List ℕ → List InterruptVectorPatch → List ℕ → Program
unfolding announce
make h text rodata bytes vectors debug = record {
  header = record h {
    flags =
        announce has_interrupt_vectors (not (is_empty vectors))
          (announce has_debug_info (not (is_empty debug)) h.flags);
  };
  text = text;
  rodata = rodata;
  data_section = bytes;
  interrupt_vectors = vectors;
  debug_section = debug;
}

-- The bytes of a 16-bit and of a 32-bit number, the low one first.
abbrev pub half_bytes : ℕ → List ℕ
half_bytes v = u8 v ∷ u8 (v / 2 ^ 8) ∷ []

abbrev pub word_bytes : ℕ → List ℕ
word_bytes v = u8 v ∷ u8 (v / 2 ^ 8) ∷ u8 (v / 2 ^ 16) ∷ u8 (v / 2 ^ 24) ∷ []

-- `b0 | b1 << 8 | b2 << 16 | b3 << 24`
unfoldable pub le32 : ℕ → ℕ → ℕ → ℕ → ℕ
le32 b0 b1 b2 b3 = bit_or (bit_or (bit_or b0 (b1 * 2 ^ 8)) (b2 * 2 ^ 16)) (b3 * 2 ^ 24)

-- The packed header as it lies in memory on a host whose numbers have their low byte first.
unfoldable pub header_bytes : ProgramHeader → List ℕ
header_bytes h =
    word_bytes h.magic
    ++ (half_bytes h.version
        ++ (half_bytes h.flags
            ++ (word_bytes h.entry_point
                ++ (word_bytes h.text_size
                    ++ (word_bytes h.rodata_size
                        ++ (word_bytes h.data_size
                            ++ (word_bytes h.bss_size ++ word_bytes h.minimum_stack)))))))

abbrev pub patch_bytes : InterruptVectorPatch → List ℕ
patch_bytes p = u8 p.interrupt_number ∷ word_bytes p.handler_address

unfoldable pub vectors_bytes : List InterruptVectorPatch → List ℕ
vectors_bytes [] = []
vectors_bytes (p ∷ ps) = patch_bytes p ++ vectors_bytes ps

unfoldable pub table_bytes : List InterruptVectorPatch → List ℕ
unfolding vectors_bytes
table_bytes [] = []
table_bytes (p ∷ ps) = word_bytes (u32 (length (p ∷ ps))) ++ vectors_bytes (p ∷ ps)

unfoldable pub debug_bytes : List ℕ → List ℕ
debug_bytes [] = []
debug_bytes (b ∷ bs) = word_bytes (u32 (length (b ∷ bs))) ++ (b ∷ bs)

-- `writeToStream` on a stream that takes everything.
unfoldable pub write_to_stream : Program → List ℕ
unfolding header_bytes table_bytes debug_bytes
write_to_stream p =
    header_bytes p.header
    ++ (p.text
        ++ (p.rodata
            ++ (p.data_section
                ++ (table_bytes p.interrupt_vectors ++ debug_bytes p.debug_section))))
