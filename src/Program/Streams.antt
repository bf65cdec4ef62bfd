-- ===== src/Program/Streams.antt =====
-- The loader from a stream and the loader from bytes: where they agree.
use ceres_vm.Prelude.{
  ℕ, zero, suc, ◌+◌, ◌*◌, ◌≤◌, ◌≡◌, refl, sym, ap, ◌∙◌, Bool, true, false, not, ◌&&◌, ◌||◌, Option,
  none, some, List, [], inl, inr, arith,
}
use ceres_vm.Prelude.Tests.{ltb, leb, if◌then◌else◌, Bool-cases, Option-cases}
use ceres_vm.Prelude.Lists.{length, take, drop, length-drop, drop-drop}
use mathlib.Core.Option
use ceres_vm.Program.{
  ProgramHeader, InterruptVectorPatch, Program, header_size, has_debug_info, has_interrupt_vectors,
  announces,
}
use ceres_vm.Program.Bytes.{byte_of-drop, byte_of-take, le32_at-part}
use ceres_vm.Program.Loading.{
  Loaded, ok, err, checked, byte_of, le32_at, half_at, word_at, header_of, check_header,
  span_patches, span_vectors, span_debug, read_stream, stream_patches, stream_vectors, stream_debug,
  load_from_bytes, load_from_stream, stream_sections, span_sections,
}

-- A read from what is left of the bytes at `n`.
pub read_stream-drop :
    (m n : ℕ) (bs : List ℕ)
    → n ≤ length bs
    → read_stream m (drop n bs)
      ≡ (if ltb (length bs) (n + m) then none else some (take m (drop n bs), drop (n + m) bs))
unfolding read_stream
read_stream-drop m n bs h = rw (drop-drop m n bs) (ground (arith, length-drop n bs))

-- The entries that both read, with the stream after them.
abbrev with_rest :
    List ℕ → Option (List InterruptVectorPatch) → Option (List InterruptVectorPatch × List ℕ)
with_rest rest none = none
with_rest rest (some ps) = some (ps, rest)

stream_patches-span :
    (left n : ℕ) (bs : List ℕ)
    → n ≤ length bs
    → stream_patches left (drop n bs) ≡ with_rest (drop (n + 5 * left) bs) (span_patches bs left n)
unfolding stream_patches span_patches
stream_patches-span zero n bs h = let e : n + 0 ≡ n = omega arith in rw e
stream_patches-span (suc left) n bs h = elim (Bool-cases (ltb (length bs) (n + 5))) [
  | inl short ↦ rw (stream_patches, span_patches, read_stream-drop 5 n bs h, short) refl
  | inr fits ↦
      let same : n + 5 + 5 * left ≡ n + 5 * suc left = omega arith in
      let e0 : n + 0 ≡ n = omega arith in
      let first : byte_of (take 5 (drop n bs)) 0 ≡ byte_of bs n =
        byte_of-take 5 (drop n bs) 0 (omega arith) ∙ byte_of-drop n bs 0 ∙ ap (byte_of bs) e0 in
      rw
        (
          stream_patches,
          span_patches,
          read_stream-drop 5 n bs h,
          fits,
          stream_patches-span left (n + 5) bs (ground (arith, fits)),
        )
        (ground (arith, ap (λ (t : ℕ). drop t bs) same, first, le32_at-part n 5 bs 1))
]

abbrev holds_patches : Option (List InterruptVectorPatch) → Bool
holds_patches none = false
holds_patches (some ps) = true

-- The rounds of the table go through exactly if the span holds all its entries.
span_patches-fits :
    (left n : ℕ) (bs : List ℕ)
    → n ≤ length bs
    → holds_patches (span_patches bs left n) ≡ leb (n + 5 * left) (length bs)
unfolding span_patches
span_patches-fits zero n bs h = ground arith
span_patches-fits (suc left) n bs h = ground (arith, span_patches-fits left (n + 5) bs)

module _ (bs : List ℕ) (h : ProgramHeader) where
  -- Whether the table of interrupt vectors, where one is announced, lies in the bytes as a whole.
  unfoldable pub whole_table : ℕ → Bool
  whole_table n =
      not (announces has_interrupt_vectors h)
      || (leb (n + 4) (length bs) && leb (n + 4 + 5 * le32_at bs n) (length bs))

  -- The stream after the table, and the offset.
  stream_vectors-span :
      (n : ℕ)
      → n ≤ length bs
      → stream_vectors (drop n bs) h ≡ (
        (span_vectors bs n h).0,
        if whole_table n then some (drop (span_vectors bs n h).1 bs) else none,
      )
  unfolding stream_vectors span_vectors whole_table
  stream_vectors-span n fits = elim (Bool-cases (announces has_interrupt_vectors h)) [
    | inr absent ↦ rw (stream_vectors, span_vectors, whole_table, absent) refl
    | inl there ↦ elim (Bool-cases (ltb (length bs) (n + 4))) [
      | inl short ↦
          let over : leb (n + 4) (length bs) ≡ false = ground (arith, short) in
          rw
            (
              stream_vectors,
              span_vectors,
              whole_table,
              there,
              read_stream-drop 4 n bs fits,
              short,
              over,
            )
            refl
      | inr more ↦
          let room : n + 4 ≤ length bs = ground (arith, more) in
          let within : leb (n + 4) (length bs) ≡ true = ground arith in
          let e0 : n + 0 ≡ n = omega arith in
          let f = span_patches-fits (le32_at bs n) (n + 4) bs room in
          let count : le32_at (take 4 (drop n bs)) 0 ≡ le32_at bs n =
            le32_at-part n 4 bs 0 (omega arith) ∙ ap (le32_at bs) e0 in
          elim (Option-cases (span_patches bs (le32_at bs n) (n + 4))) [
            | inl empty ↦
                let over : leb (n + 4 + 5 * le32_at bs n) (length bs) ≡ false = sym f ∙ rw empty in
                rw
                  (
                    stream_vectors,
                    span_vectors,
                    whole_table,
                    there,
                    read_stream-drop 4 n bs fits,
                    more,
                    within,
                    over,
                    count,
                    stream_patches-span (le32_at bs n) (n + 4) bs room,
                    empty,
                  )
                  refl
            | inr (qs, full) ↦
                let whole : leb (n + 4 + 5 * le32_at bs n) (length bs) ≡ true = sym f ∙ rw full in
                rw
                  (
                    stream_vectors,
                    span_vectors,
                    whole_table,
                    there,
                    read_stream-drop 4 n bs fits,
                    more,
                    within,
                    whole,
                    count,
                    stream_patches-span (le32_at bs n) (n + 4) bs room,
                    full,
                  )
                  refl
          ]
    ]
  ]

  span_vectors-le : (n : ℕ) → n ≤ length bs → (span_vectors bs n h).1 ≤ length bs
  unfolding span_vectors
  span_vectors-le n fits = ground (arith, span_patches-fits (le32_at bs n) (n + 4) bs)

  stream_debug-span :
      (n : ℕ) → n ≤ length bs → stream_debug (some (drop n bs)) h ≡ span_debug bs n h
  unfolding stream_debug span_debug
  stream_debug-span n fits =
      let e0 : n + 0 ≡ n = omega arith in
      let size : le32_at (take 4 (drop n bs)) 0 ≡ le32_at bs n =
        le32_at-part n 4 bs 0 (omega arith) ∙ ap (le32_at bs) e0 in
      rw (stream_debug, read_stream-drop 4 n bs fits)
        (ground (arith, size, read_stream-drop (le32_at bs n) (n + 4) bs))

-- The sections of a program but the last.
abbrev pub drop_debug : Program → Program
drop_debug p = record p { debug_section = [] }

abbrev pub program_of : Loaded → Option Program
program_of (ok p) = some p
program_of (err e) = none

-- Where the three sections end.
abbrev pub sections_end : ProgramHeader → ℕ
sections_end h = header_size + h.text_size + h.rodata_size + h.data_size

-- Whether the two loaders find the same debug section.
unfoldable pub same_debug : List ℕ → Bool
same_debug bytes =
    not (announces has_debug_info (header_of bytes))
    || whole_table bytes (header_of bytes) (sections_end (header_of bytes))

half_at-take : (bytes : List ℕ) (i : ℕ) → i + 2 ≤ 32 → half_at (take 32 bytes) i ≡ half_at bytes i
half_at-take bytes i h = omega (arith, byte_of-take 32 bytes i, byte_of-take 32 bytes (i + 1))

word_at-take : (bytes : List ℕ) (i : ℕ) → i + 4 ≤ 32 → word_at (take 32 bytes) i ≡ word_at bytes i
word_at-take bytes i h = omega (
  arith,
  byte_of-take 32 bytes i,
  byte_of-take 32 bytes (i + 1),
  byte_of-take 32 bytes (i + 2),
  byte_of-take 32 bytes (i + 3),
)

header_of-take : (bytes : List ℕ) → header_of (take 32 bytes) ≡ header_of bytes
unfolding header_of
header_of-take bytes = ground (
  arith,
  word_at-take bytes 0,
  half_at-take bytes 4,
  half_at-take bytes 6,
  word_at-take bytes 8,
  word_at-take bytes 12,
  word_at-take bytes 16,
  word_at-take bytes 20,
  word_at-take bytes 24,
  word_at-take bytes 28,
)

-- What follows the header, from a stream and from the bytes.
module _ (bytes : List ℕ) (h : ProgramHeader) (whole : 32 ≤ length bytes) where
  sections_agree : program_of (stream_sections h (drop 32 bytes)) ≡ (
      if not (announces has_debug_info h) || whole_table bytes h (sections_end h)
      then program_of (span_sections h bytes)
      else Option.map drop_debug (program_of (span_sections h bytes)))
  unfolding stream_sections span_sections stream_debug span_debug
  sections_agree = elim (Bool-cases (ltb (length bytes) (32 + h.text_size))) [
    | inl short ↦
        rw (stream_sections, read_stream-drop h.text_size 32 bytes whole, short)
          (ground (arith, short))
    | inr one ↦ elim (Bool-cases (ltb (length bytes) (32 + h.text_size + h.rodata_size))) [
      | inl short ↦
          rw
            (
              stream_sections,
              read_stream-drop h.text_size 32 bytes whole,
              one,
              read_stream-drop h.rodata_size (32 + h.text_size) bytes (ground (arith, one)),
              short,
            )
            (ground (arith, short))
      | inr two ↦ elim (Bool-cases (ltb (length bytes) (sections_end h))) [
        | inl short ↦
            rw
              (
                stream_sections,
                read_stream-drop h.text_size 32 bytes whole,
                one,
                read_stream-drop h.rodata_size (32 + h.text_size) bytes (ground (arith, one)),
                two,
                read_stream-drop h.data_size (32 + h.text_size + h.rodata_size) bytes
                    (ground (arith, two)),
                short,
              )
              (ground (arith, short))
        | inr three ↦
            let fits : sections_end h ≤ length bytes = ground (arith, three) in
            let rest = span_vectors-le bytes h (sections_end h) fits in
            rw
              (
                stream_sections,
                read_stream-drop h.text_size 32 bytes whole,
                one,
                read_stream-drop h.rodata_size (32 + h.text_size) bytes (ground (arith, one)),
                two,
                read_stream-drop h.data_size (32 + h.text_size + h.rodata_size) bytes
                    (ground (arith, two)),
                three,
                stream_vectors-span bytes h (sections_end h) fits,
                span_sections,
              )
              (elim (Bool-cases (whole_table bytes h (sections_end h))) [
                | inl there ↦ rw there (
                    ground
                      (arith, stream_debug-span bytes h (span_vectors bytes (sections_end h) h).1))
                | inr cut ↦ elim (Bool-cases (announces has_debug_info h)) [
                  | inl kept ↦ rw (cut, kept) refl
                  | inr bare ↦ rw (cut, span_debug, bare) refl
                ]
              ])
      ]
    ]
  ]

after_header :
    (bytes : List ℕ)
    → ltb (length bytes) 32 ≡ false
    → load_from_stream bytes
      ≡ checked (header_of bytes) (stream_sections (header_of bytes) (drop 32 bytes))
unfolding load_from_stream read_stream
after_header bytes more =
    rw (load_from_stream, read_stream, more)
      (ap (λ h. checked h (stream_sections h (drop 32 bytes))) (header_of-take bytes))

-- For any bytes: the loader over a stream and the one over a span both refuse them or give the same
-- program, except that where a debug section and a vector table are announced and the table is cut off,
-- the stream's program has no debug section, whatever the span's has.
pub load_from_stream-load_from_bytes :
    (bytes : List ℕ)
    → program_of (load_from_stream bytes) ≡ (
        if same_debug bytes
        then program_of (load_from_bytes bytes)
        else Option.map drop_debug (program_of (load_from_bytes bytes)))
unfolding load_from_stream load_from_bytes same_debug read_stream
load_from_stream-load_from_bytes bytes = elim (Bool-cases (ltb (length bytes) 32)) [
  | inl short ↦ rw (load_from_stream, read_stream, load_from_bytes, short) (ground arith)
  | inr more ↦ elim (Option-cases (check_header (header_of bytes))) [
    | inl good ↦
        rw (after_header bytes more, load_from_bytes, more, checked, good)
          (sections_agree bytes (header_of bytes) (ground (arith, more)))
    | inr (e, bad) ↦
        rw (after_header bytes more, load_from_bytes, more, checked, bad) (ground arith)
  ]
]
