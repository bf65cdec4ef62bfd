-- ===== src/Program/Loading.antt =====
-- The loaders of Ceres/libs/core/src/format/program.cpp, from bytes at hand and from a stream, which is the
-- bytes that are left of it.
use ceres_vm.Prelude.{ℕ, zero, suc, ◌+◌, ◌*◌, ◌||◌, not, Option, none, some, List, [], ◌∷◌}
use ceres_vm.Prelude.Tests.{ltb, ◌==◌, if◌then◌else◌}
use ceres_vm.Prelude.Lists.{length, drop, take}
use ceres_vm.Program.{
  ProgramHeader, InterruptVectorPatch, Program, magic_number, current_version,
  minimum_supported_version, header_size, has_debug_info, has_interrupt_vectors, announces, le32,
}

pub data LoadError : Type 0 where
  no_file : LoadError
  header_missing : LoadError
  bad_magic : LoadError
  unsupported_version : LoadError
  text_missing : LoadError
  rodata_missing : LoadError
  data_missing : LoadError
  sections_missing : LoadError

pub data Loaded : Type 0 where
  ok : Program → Loaded
  err : LoadError → Loaded

-- `bytes[i]`, of an index that was checked.
unfoldable pub byte_of : List ℕ → ℕ → ℕ
byte_of [] i = 0
byte_of (b ∷ bs) zero = b
byte_of (b ∷ bs) (suc i) = byte_of bs i

-- A number of two and of four bytes in memory, on such a host.
abbrev pub half_at : List ℕ → ℕ → ℕ
half_at bytes i = byte_of bytes i + 256 * byte_of bytes (i + 1)

abbrev pub word_at : List ℕ → ℕ → ℕ
word_at bytes i =
    byte_of bytes i
    + (256 * byte_of bytes (i + 1)
        + (65536 * byte_of bytes (i + 2) + 16777216 * byte_of bytes (i + 3)))

-- The packed header at the start of the bytes.
unfoldable pub header_of : List ℕ → ProgramHeader
header_of bytes = record {
  magic = word_at bytes 0;
  version = half_at bytes 4;
  flags = half_at bytes 6;
  entry_point = word_at bytes 8;
  text_size = word_at bytes 12;
  rodata_size = word_at bytes 16;
  data_size = word_at bytes 20;
  bss_size = word_at bytes 24;
  minimum_stack = word_at bytes 28;
}

-- `b0 | b1 << 8 | b2 << 16 | b3 << 24` of the bytes from `i` on.
unfoldable pub le32_at : List ℕ → ℕ → ℕ
le32_at bytes i =
    le32 (byte_of bytes i) (byte_of bytes (i + 1)) (byte_of bytes (i + 2)) (byte_of bytes (i + 3))

-- What the loaders test of a header, with the error of each test.
unfoldable pub check_header : ProgramHeader → Option LoadError
check_header h =
    if not (h.magic == magic_number)
    then some bad_magic
    else if ltb current_version h.version || ltb h.version minimum_supported_version
    then some unsupported_version
    else none

-- The rounds of `readInterruptVectors` over a span, `left` of them from `cursor` on.
unfoldable pub span_patches : List ℕ → ℕ → ℕ → Option (List InterruptVectorPatch)
span_patches bytes zero cursor = some []
span_patches bytes (suc left) cursor =
    let rest = span_patches bytes left (cursor + 5) in
    if ltb (length bytes) (cursor + 5) then none else elim rest [
      | none ↦ none
      | some ps ↦
          let patch : InterruptVectorPatch = record {
            interrupt_number = byte_of bytes cursor;
            handler_address = le32_at bytes (cursor + 1);
          } in
          some (patch ∷ ps)
    ]

-- `readInterruptVectors` over a span: the entries and where the table ends.
unfoldable pub span_vectors : List ℕ → ℕ → ProgramHeader → List InterruptVectorPatch × ℕ
span_vectors bytes offset h =
    if not (announces has_interrupt_vectors h)
    then ([], offset)
    else if ltb (length bytes) (offset + 4)
    then ([], offset)
    else let count = le32_at bytes offset in
      elim (span_patches bytes count (offset + 4)) [
        | none ↦ ([], offset)
        | some ps ↦ (ps, offset + 4 + 5 * count)
      ]

-- `readDebugSection` over a span.
unfoldable pub span_debug : List ℕ → ℕ → ProgramHeader → List ℕ
span_debug bytes offset h =
    if not (announces has_debug_info h)
    then []
    else if ltb (length bytes) (offset + 4)
    then []
    else let size = le32_at bytes offset in
      if size == 0 || ltb (length bytes) (offset + 4 + size)
      then []
      else take size (drop (offset + 4) bytes)

-- `loadFromBytes` after the header.
unfoldable pub span_sections : ProgramHeader → List ℕ → Loaded
span_sections h bytes =
    let expected = header_size + h.text_size + h.rodata_size + h.data_size in
    if ltb (length bytes) expected
    then err sections_missing
    else let table = span_vectors bytes expected h in
      ok (record {
        header = h;
        text = take h.text_size (drop header_size bytes);
        rodata = take h.rodata_size (drop (header_size + h.text_size) bytes);
        data_section = take h.data_size (drop (header_size + h.text_size + h.rodata_size) bytes);
        interrupt_vectors = table.0;
        debug_section = span_debug bytes table.1 h;
      })

-- A header that passes its tests, and what follows it.
abbrev pub checked : ProgramHeader → Loaded → Loaded
checked h loaded = elim (check_header h) [ some e ↦ err e | none ↦ loaded ]

-- `loadFromBytes`
unfoldable pub load_from_bytes : List ℕ → Loaded
load_from_bytes bytes =
    if ltb (length bytes) header_size
    then err header_missing
    else checked (header_of bytes) (span_sections (header_of bytes) bytes)

-- `loadFromMemory`, whose body is that of `loadFromBytes` over a pointer and a size.
unfoldable pub load_from_memory : List ℕ → Loaded
load_from_memory bytes =
    if ltb (length bytes) header_size
    then err header_missing
    else checked (header_of bytes) (span_sections (header_of bytes) bytes)

unfoldable pub load_from_string : List ℕ → Loaded
load_from_string bytes = load_from_bytes bytes

-- `stream.read` of `n` bytes: what was read and what is left, or none for a stream that has failed.
unfoldable pub read_stream : ℕ → List ℕ → Option (List ℕ × List ℕ)
read_stream n s = if ltb (length s) n then none else some (take n s, drop n s)

-- The rounds of `readInterruptVectors` over a stream, with the stream as they leave it.
unfoldable pub stream_patches : ℕ → List ℕ → Option (List InterruptVectorPatch × List ℕ)
stream_patches zero s = some ([], s)
stream_patches (suc left) s = elim (read_stream 5 s) [
  | none ↦ none
  | some r ↦ elim (stream_patches left r.1) [
    | none ↦ none
    | some q ↦
        some
          (record { interrupt_number = byte_of r.0 0; handler_address = le32_at r.0 1 } ∷ q.0, q.1)
  ]
]

-- `readInterruptVectors` over a stream: the entries and the stream, none once it has failed.
unfoldable pub stream_vectors : List ℕ → ProgramHeader → List InterruptVectorPatch × Option (List ℕ)
stream_vectors s h =
    if not (announces has_interrupt_vectors h) then ([], some s) else elim (read_stream 4 s) [
      | none ↦ ([], none)
      | some r ↦ elim (stream_patches (le32_at r.0 0) r.1) [
        | none ↦ ([], none)
        | some q ↦ (q.0, some q.1)
      ]
    ]

-- `readDebugSection` over a stream.
unfoldable pub stream_debug : Option (List ℕ) → ProgramHeader → List ℕ
stream_debug none h = []
stream_debug (some s) h = if not (announces has_debug_info h) then [] else elim (read_stream 4 s) [
  | none ↦ []
  | some r ↦
      let size = le32_at r.0 0 in
      if size == 0 then [] else elim (read_stream size r.1) [ none ↦ [] | some q ↦ q.0 ]
]

-- `loadFromStream` after the header.
unfoldable pub stream_sections : ProgramHeader → List ℕ → Loaded
stream_sections h s0 = elim (read_stream h.text_size s0) [
  | none ↦ err text_missing
  | some s1 ↦ elim (read_stream h.rodata_size s1.1) [
    | none ↦ err rodata_missing
    | some s2 ↦ elim (read_stream h.data_size s2.1) [
      | none ↦ err data_missing
      | some s3 ↦
          let table = stream_vectors s3.1 h in
          ok (record {
            header = h;
            text = s1.0;
            rodata = s2.0;
            data_section = s3.0;
            interrupt_vectors = table.0;
            debug_section = stream_debug table.1 h;
          })
    ]
  ]
]

-- `loadFromStream` on a stream that is good, by the bytes that it holds.
unfoldable pub load_from_stream : List ℕ → Loaded
load_from_stream s = elim (read_stream header_size s) [
  | none ↦ err header_missing
  | some s0 ↦ checked (header_of s0.0) (stream_sections (header_of s0.0) s0.1)
]

-- `loadFromFile`, none for a file that cannot be opened.
unfoldable pub load_from_file : Option (List ℕ) → Loaded
load_from_file none = err no_file
load_from_file (some bytes) = load_from_stream bytes
