-- ===== src/Program/Tests.antt =====
-- A program of four bytes of text with one interrupt vector and a debug section, written and loaded.
use ceres_vm.Prelude.{◌≡◌, refl, false, List, [], ◌∷◌, ◌++◌, ◌+◌, ℕ, ◌↔◌, arith}
use ceres_vm.Prelude.Tests.{if◌then◌else◌}
use mathlib.Core.Option
use ceres_vm.Prelude.Lists.{take, drop}
use ceres_vm.Program.{
  ProgramHeader, InterruptVectorPatch, Program, make, write_to_stream, header_size, magic_number,
  announces, le32,
}
use ceres_vm.Program.Loading.{
  ok, load_from_bytes, load_from_stream, header_of, byte_of, le32_at, span_sections, span_vectors,
  span_patches, span_debug, check_header,
}
use ceres_vm.Program.Streams.{
  program_of, drop_debug, whole_table, same_debug, load_from_stream-load_from_bytes,
}
use ceres_vm.Program.Refusals.{IsLoadable, load_from_bytes_lem}
use ceres_vm.Program.RoundTrip.{load-write_to_stream, IsComplete}

abbrev header : ProgramHeader
header = record {
  magic = magic_number;
  version = 4;
  flags = 0;
  entry_point = 0x400;
  text_size = 4;
  rodata_size = 0;
  data_size = 1;
  bss_size = 16;
  minimum_stack = 64;
}

abbrev text : List ℕ
text = 1 ∷ 2 ∷ 3 ∷ 4 ∷ []

abbrev vectors : List InterruptVectorPatch
vectors = record { interrupt_number = 17; handler_address = 0x1234 } ∷ []

written :
    take 8 (write_to_stream (make header text [] (9 ∷ []) vectors (7 ∷ [])))
    ≡ 0x53 ∷ 0x45 ∷ 0x52 ∷ 0x43 ∷ 4 ∷ 0 ∷ 3 ∷ 0 ∷ []
unfolding write_to_stream make
written = refl

behind_header :
    drop 32 (write_to_stream (make header text [] (9 ∷ []) vectors (7 ∷ [])))
    ≡ 1 ∷ 2 ∷ 3 ∷ 4 ∷ 9 ∷ 1 ∷ 0 ∷ 0 ∷ 0 ∷ 17 ∷ 0x34 ∷ 0x12 ∷ 0 ∷ 0 ∷ 1 ∷ 0 ∷ 0 ∷ 0 ∷ 7 ∷ []
unfolding write_to_stream make
behind_header = refl

header-IsComplete : IsComplete header text [] (9 ∷ []) vectors (7 ∷ [])
header-IsComplete = ground arith

load-write_to_stream_example :
    (load_from_stream (write_to_stream (make header text [] (9 ∷ []) vectors (7 ∷ [])))
      ≡ ok (make header text [] (9 ∷ []) vectors (7 ∷ [])))
    × (load_from_bytes (write_to_stream (make header text [] (9 ∷ []) vectors (7 ∷ [])))
        ≡ ok (make header text [] (9 ∷ []) vectors (7 ∷ [])))
load-write_to_stream_example =
    load-write_to_stream header text [] (9 ∷ []) vectors (7 ∷ []) header-IsComplete

-- A file that announces both tables and ends inside the entry of its one interrupt vector.
abbrev cut : List ℕ
cut =
    0x53 ∷ 0x45 ∷ 0x52 ∷ 0x43 ∷ 4 ∷ 0 ∷ 3 ∷ 0 ∷ 0 ∷ 0 ∷ 0 ∷ 0 ∷ 0 ∷ 0 ∷ 0 ∷ 0 ∷ 0 ∷ 0 ∷ 0 ∷ 0 ∷ 0
    ∷ 0 ∷ 0 ∷ 0 ∷ 0 ∷ 0 ∷ 0 ∷ 0 ∷ 0 ∷ 0 ∷ 0 ∷ 0 ∷ 1 ∷ 0 ∷ 0 ∷ 0 ∷ 9 ∷ []

cut_differs : same_debug cut ≡ false
unfolding same_debug whole_table announces header_of byte_of le32_at le32
cut_differs = refl

load_from_stream-load_from_bytes_example : program_of (load_from_stream cut) ≡ (
    if same_debug cut
    then program_of (load_from_bytes cut)
    else Option.map drop_debug (program_of (load_from_bytes cut)))
load_from_stream-load_from_bytes_example = load_from_stream-load_from_bytes cut

cut-magic : (header_of cut).magic ≡ magic_number
unfolding header_of byte_of
cut-magic = refl

load_from_bytes_lem_example : IsLoadable cut ↔ (
    (p : Program) × (load_from_bytes cut ≡ ok p)
    × (p.header ≡ header_of cut)
    × (p.text ++ (p.rodata ++ p.data_section)
        ≡ take
            (p.header.text_size + p.header.rodata_size + p.header.data_size)
            (drop header_size cut)))
load_from_bytes_lem_example = load_from_bytes_lem cut

cut_loaded :
    load_from_bytes cut
    ≡ ok (record {
      header = header_of cut;
      text = [];
      rodata = [];
      data_section = [];
      interrupt_vectors = [];
      debug_section = 9 ∷ [];
    })
unfolding load_from_bytes span_sections span_vectors span_patches span_debug check_header announces
    header_of byte_of le32_at le32
cut_loaded = refl
