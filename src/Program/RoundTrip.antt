-- ===== src/Program/RoundTrip.antt =====
-- What the writer writes, the loaders load.
use ceres_vm.Prelude.{
  ℕ, ◌-◌, ◌%◌, ◌^◌, ◌<◌, ◌≡◌, refl, sym, ap, ◌∙◌, Bool, true, false, not, bit_and, bit_or, Option,
  none, some, List, [], ◌∷◌, ◌++◌, inl, inr, arith,
}
use mathlib.Core.List.{append-nil}
use ceres_vm.Prelude.Tests.{if◌then◌else◌, ◌==◌, Bool-cases}
use ceres_vm.Prelude.Lists.{length, length-append, take-append, drop-append}
use ceres_vm.Prelude.Bits.{bit-bit_and, bit-bit_or, bit-pow, bit-lt, bit_test, bit_complement}
use ceres_vm.Prelude.Widths.{pow-lt, bit_or-lt, bit_and-lt}
use ceres_vm.Prelude.Words.{u32}
use ceres_vm.Program.{
  ProgramHeader, InterruptVectorPatch, Program, make, header_bytes, vectors_bytes, table_bytes,
  debug_bytes, write_to_stream, word_bytes, has_debug_info, has_interrupt_vectors, announces,
  announce, is_empty, magic_number, current_version,
}
use mathlib.Core.Option
use ceres_vm.Program.Streams.{program_of, drop_debug, same_debug, load_from_stream-load_from_bytes}
use ceres_vm.Program.Bytes.{le32-word_bytes}
use ceres_vm.Program.Loading.{
  Loaded, ok, err, checked, byte_of, le32_at, header_of, check_header, read_stream, stream_patches,
  stream_vectors, stream_debug, stream_sections, load_from_stream, load_from_bytes,
}

-- A header whose fields fit the widths that the file gives them.
pub record IsPacked (h : ProgramHeader) : Type 0 where
  pub magic : h.magic < 2 ^ 32
  pub version : h.version < 2 ^ 16
  pub flags : h.flags < 2 ^ 16
  pub entry : h.entry_point < 2 ^ 32
  pub text : h.text_size < 2 ^ 32
  pub rodata : h.rodata_size < 2 ^ 32
  pub data_section : h.data_size < 2 ^ 32
  pub bss : h.bss_size < 2 ^ 32
  pub stack : h.minimum_stack < 2 ^ 32

-- Entries of a number of one byte and an address of four.
abbrev pub AllPacked : List InterruptVectorPatch → Type 0
AllPacked [] = Unit {0}
AllPacked (p ∷ ps) = (p.interrupt_number < 2 ^ 8) × (p.handler_address < 2 ^ 32) × AllPacked ps

read_stream-append :
    (xs ys : List ℕ) (n : ℕ) → n ≡ length xs → read_stream n (xs ++ ys) ≡ some (xs, ys)
unfolding read_stream
read_stream-append xs ys n e =
    rw (e, take-append xs ys, drop-append xs ys) (ground (arith, length-append xs ys))

header_of-header_bytes :
    (h : ProgramHeader) (rest : List ℕ) → IsPacked h → header_of (header_bytes h ++ rest) ≡ h
unfolding header_of header_bytes byte_of
header_of-header_bytes h rest p =
    ground (
      arith, p.magic, p.version, p.flags, p.entry, p.text, p.rodata, p.data_section, p.bss, p.stack,
    )

stream_patches-vectors_bytes :
    (ps : List InterruptVectorPatch) (rest : List ℕ)
    → AllPacked ps
    → stream_patches (length ps) (vectors_bytes ps ++ rest) ≡ some (ps, rest)
unfolding stream_patches vectors_bytes read_stream le32_at byte_of
stream_patches-vectors_bytes [] rest fits = refl
stream_patches-vectors_bytes (p ∷ ps) rest fits =
    ground (arith, stream_patches-vectors_bytes ps rest, le32-word_bytes p.handler_address)

read_stream-all : (xs : List ℕ) → read_stream (length xs) xs ≡ some (xs, [])
read_stream-all xs =
    ap (read_stream (length xs)) (sym (append-nil xs)) ∙ read_stream-append xs [] (length xs) refl

stream_vectors-table_bytes :
    (h : ProgramHeader) (ps : List InterruptVectorPatch) (rest : List ℕ)
    → AllPacked ps
    → length ps < 2 ^ 32
    → announces has_interrupt_vectors h ≡ not (is_empty ps)
    → stream_vectors (table_bytes ps ++ rest) h ≡ (ps, some rest)
unfolding stream_vectors table_bytes le32_at byte_of
stream_vectors-table_bytes h [] rest fits few e = rw e refl
stream_vectors-table_bytes h (p ∷ ps) rest fits few e =
    let count = length (p ∷ ps) in
    let small : count % 2 ^ 32 ≡ count = omega (arith, few) in
    rw
      (
        e,
        read_stream-append (word_bytes (u32 count)) (vectors_bytes (p ∷ ps) ++ rest) 4 refl,
        small,
        le32-word_bytes count few,
        stream_patches-vectors_bytes (p ∷ ps) rest fits,
      )
      refl

stream_debug-debug_bytes :
    (h : ProgramHeader) (bs : List ℕ)
    → length bs < 2 ^ 32
    → announces has_debug_info h ≡ not (is_empty bs)
    → stream_debug (some (debug_bytes bs)) h ≡ bs
unfolding stream_debug debug_bytes le32_at byte_of
stream_debug-debug_bytes h [] few e = rw e refl
stream_debug-debug_bytes h (b ∷ bs) few e =
    let size = length (b ∷ bs) in
    let small : size % 2 ^ 32 ≡ size = omega (arith, few) in
    rw
      (
        e,
        read_stream-append (word_bytes (u32 size)) (b ∷ bs) 4 refl,
        small,
        le32-word_bytes size few,
        read_stream-all (b ∷ bs),
      )
      (ground arith)

-- A section's flag after it is set or taken out.
announce-digit :
    (i j w : ℕ) (b : Bool)
    → i < 16
    → j < 16
    → (bit_and (announce j b w) (2 ^ i) == 0) ≡ (if i == j then not b else (bit_and w (2 ^ i) == 0))
unfolding announce
announce-digit i j w true hi hj = ground (
  arith,
  bit_test (bit_or w (2 ^ j)) i,
  bit_test w i,
  bit-bit_or w (2 ^ j) i,
  bit-pow j i,
  bit-lt w i,
)
announce-digit i j w false hi hj = ground (
  arith,
  bit_test (bit_and w (2 ^ 16 - 1 - 2 ^ j)) i,
  bit_test w i,
  bit-bit_and w (2 ^ 16 - 1 - 2 ^ j) i,
  bit_complement 16 (2 ^ j) i (pow-lt j 16 hj),
  bit-pow j i,
  bit-lt w i,
)

announce-lt : (j w : ℕ) (b : Bool) → j < 16 → w < 2 ^ 16 → announce j b w < 2 ^ 16
unfolding announce
announce-lt j w true h fits = bit_or-lt w 16 j fits h
announce-lt j w false h fits = bit_and-lt w (2 ^ 16 - 1 - 2 ^ j) 16 fits

-- What the writer is given: packed fields, the numbers of a current program, sizes that are the
-- sections', and sections that a 32-bit number can count.
pub record IsComplete (h : ProgramHeader) (text rodata bytes : List ℕ)
    (vectors : List InterruptVectorPatch) (debug : List ℕ) : Type 0 where
  pub packed : IsPacked h
  pub magic : h.magic ≡ magic_number
  pub version : h.version ≡ current_version
  pub text_length : h.text_size ≡ length text
  pub rodata_length : h.rodata_size ≡ length rodata
  pub data_length : h.data_size ≡ length bytes
  pub vectors_packed : AllPacked vectors
  pub vectors_few : length vectors < 2 ^ 32
  pub debug_few : length debug < 2 ^ 32

program_of-some : (l : Loaded) (p : Program) → program_of l ≡ some p → l ≡ ok p
program_of-some (ok q) p e = cc
program_of-some (err e) p h = cc

drop_debug-some :
    (o : Option Program) (p : Program) → some p ≡ Option.map drop_debug o → p.debug_section ≡ []
drop_debug-some none p e = cc
drop_debug-some (some q) p e = ground (arith, e)

module _ (h : ProgramHeader) (text rodata bytes : List ℕ) (vectors : List InterruptVectorPatch)
    (debug : List ℕ) (c : IsComplete h text rodata bytes vectors debug) where
  abbrev made : Program
  made = make h text rodata bytes vectors debug

  made_vectors : announces has_interrupt_vectors made.header ≡ not (is_empty vectors)
  unfolding announces make
  made_vectors = ground (
    arith,
    announce-digit 1 1 (announce has_debug_info (not (is_empty debug)) h.flags)
        (not (is_empty vectors)),
  )

  made_debug : announces has_debug_info made.header ≡ not (is_empty debug)
  unfolding announces make
  made_debug = ground (
    arith,
    announce-digit 0 1 (announce has_debug_info (not (is_empty debug)) h.flags)
        (not (is_empty vectors)),
    announce-digit 0 0 h.flags (not (is_empty debug)),
  )

  made-IsPacked : IsPacked made.header
  unfolding make
  made-IsPacked = record {
    magic = c.packed.magic;
    version = c.packed.version;
    flags =
        announce-lt 1 _ (not (is_empty vectors)) (omega arith)
          (announce-lt 0 _ (not (is_empty debug)) (omega arith) c.packed.flags);
    entry = c.packed.entry;
    text = c.packed.text;
    rodata = c.packed.rodata;
    data_section = c.packed.data_section;
    bss = c.packed.bss;
    stack = c.packed.stack;
  }

  made_checks : check_header made.header ≡ none
  unfolding make check_header
  made_checks = ground (arith, c.magic, c.version)

  sections_made :
      stream_sections made.header
        (text ++ (rodata ++ (bytes ++ (table_bytes vectors ++ debug_bytes debug))))
      ≡ ok made
  unfolding stream_sections make
  sections_made =
      rw
        (
          stream_sections,
          read_stream-append text (rodata ++ (bytes ++ (table_bytes vectors ++ debug_bytes debug)))
              h.text_size c.text_length,
          read_stream-append rodata (bytes ++ (table_bytes vectors ++ debug_bytes debug))
              h.rodata_size c.rodata_length,
          read_stream-append bytes (table_bytes vectors ++ debug_bytes debug) h.data_size
              c.data_length,
          stream_vectors-table_bytes made.header vectors (debug_bytes debug) c.vectors_packed
              c.vectors_few made_vectors,
          stream_debug-debug_bytes made.header debug c.debug_few made_debug,
        )
        refl

  stream_made : load_from_stream (write_to_stream made) ≡ ok made
  unfolding load_from_stream write_to_stream make
  stream_made =
      rw
        (
          load_from_stream,
          read_stream-append (header_bytes made.header) _ 32 (unfold header_bytes in refl),
        )
        (ap (λ k. checked k (stream_sections k sections)) first
          ∙ rw (checked, made_checks) sections_made)
    where
      sections : List ℕ
      sections = text ++ (rodata ++ (bytes ++ (table_bytes vectors ++ debug_bytes debug)))

      first : header_of (header_bytes made.header) ≡ made.header
      first =
          ap header_of (sym (append-nil (header_bytes made.header)))
          ∙ header_of-header_bytes made.header [] made-IsPacked

  made_header : header_of (write_to_stream made) ≡ made.header
  unfolding write_to_stream
  made_header = header_of-header_bytes made.header _ made-IsPacked

  -- The other loader can only lose a debug section, and only where one is announced.
  made_same :
      same_debug (write_to_stream made) ≡ false
      → made.debug_section ≡ []
      → ◌≡◌ {A = Bool} true false
  unfolding same_debug make
  made_same cut none_there = ground (arith, cut, made_header, made_debug, none_there)

  bytes_made : load_from_bytes (write_to_stream made) ≡ ok made
  bytes_made =
      let agree : some made ≡ (
          if same_debug (write_to_stream made)
          then program_of (load_from_bytes (write_to_stream made))
          else Option.map drop_debug (program_of (load_from_bytes (write_to_stream made)))) =
        ap program_of (sym stream_made) ∙ load_from_stream-load_from_bytes (write_to_stream made) in
      elim (Bool-cases (same_debug (write_to_stream made))) [
        | inl same ↦ program_of-some _ made (sym (agree ∙ rw same refl))
        | inr cut ↦
            let lost = made_same cut (
              drop_debug-some (program_of (load_from_bytes (write_to_stream made))) made
                (agree ∙ rw cut refl)) in
            cc
      ]

-- A program that `make` puts together, written and loaded again, from a stream or from bytes: it is the
-- program that was made, with its debug section and its interrupt vectors. The header's fields fit
-- their widths, its numbers are those of a current program and its sizes are the sections' lengths;
-- each interrupt vector fits its five bytes, and 32 bits count the vectors and the debug section.
pub load-write_to_stream :
    (h : ProgramHeader) (text rodata bytes : List ℕ) (vectors : List InterruptVectorPatch)
    (debug : List ℕ)
    → IsComplete h text rodata bytes vectors debug
    → (load_from_stream (write_to_stream (make h text rodata bytes vectors debug))
        ≡ ok (make h text rodata bytes vectors debug))
      × (load_from_bytes (write_to_stream (make h text rodata bytes vectors debug))
          ≡ ok (make h text rodata bytes vectors debug))
load-write_to_stream h text rodata bytes vectors debug c = (
  stream_made h text rodata bytes vectors debug c,
  bytes_made h text rodata bytes vectors debug c,
)
