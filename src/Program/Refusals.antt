-- ===== src/Program/Refusals.antt =====
-- Which bytes the loader from bytes refuses.
use ceres_vm.Prelude.{ℕ, ◌+◌, ◌≤◌, ◌≡◌, ◌↔◌, List, ◌++◌, arith, refl}
use ceres_vm.Prelude.Lists.{length, take, drop, drop-drop, take-add}
use ceres_vm.Program.{Program, header_size, magic_number, current_version}
use ceres_vm.Program.Loading.{
  ok, header_of, check_header, span_sections, span_vectors, span_debug, load_from_bytes,
}
use ceres_vm.Program.Streams.{sections_end}

-- Bytes that start with a header of a current program and hold the sections that it declares.
pub record IsLoadable (bytes : List ℕ) : Type 0 where
  pub magic : (header_of bytes).magic ≡ magic_number
  pub version : (header_of bytes).version ≡ current_version
  pub whole : sections_end (header_of bytes) ≤ length bytes

-- What the loader from bytes makes of such bytes.
unfoldable pub loaded_program : List ℕ → Program
loaded_program bytes =
    let h = header_of bytes in
    let table = span_vectors bytes (sections_end h) h in
    record {
      header = h;
      text = take h.text_size (drop header_size bytes);
      rodata = take h.rodata_size (drop (header_size + h.text_size) bytes);
      data_section = take h.data_size (drop (header_size + h.text_size + h.rodata_size) bytes);
      interrupt_vectors = table.0;
      debug_section = span_debug bytes table.1 h;
    }

loads : (bytes : List ℕ) → IsLoadable bytes → load_from_bytes bytes ≡ ok (loaded_program bytes)
unfolding load_from_bytes span_sections check_header loaded_program
loads bytes w = ground (arith, w.magic, w.version, w.whole)

refuses : (bytes : List ℕ) {p : Program} → load_from_bytes bytes ≡ ok p → IsLoadable bytes
unfolding load_from_bytes span_sections check_header
refuses bytes {p} e = ground (arith, e)

sections_joined :
    (a b c : ℕ) (xs : List ℕ)
    → take a (drop 32 xs) ++ (take b (drop (32 + a) xs) ++ take c (drop (32 + a + b) xs))
      ≡ take (a + b + c) (drop 32 xs)
sections_joined a b c xs =
    let e : a + b + c ≡ a + (b + c) = omega arith in
    rw
      (
        e,
        take-add a (b + c) (drop 32 xs),
        take-add b c (drop a (drop 32 xs)),
        drop-drop a 32 xs,
        drop-drop b (32 + a) xs,
      )
      refl

-- The loader from bytes refuses nothing but bytes that do not start with a current header or do not
-- hold the sections that it declares; from all others it gives a program with that header, whose text,
-- rodata and data, one behind the other, are the bytes after the header.
pub load_from_bytes_lem :
    (bytes : List ℕ)
    → IsLoadable bytes ↔ (
        (p : Program) × (load_from_bytes bytes ≡ ok p)
        × (p.header ≡ header_of bytes)
        × (p.text ++ (p.rodata ++ p.data_section)
            ≡ take
                (p.header.text_size + p.header.rodata_size + p.header.data_size)
                (drop header_size bytes)))
unfolding loaded_program
load_from_bytes_lem bytes = (
  λ w. (
    loaded_program bytes,
    loads bytes w,
    refl,
    let h = header_of bytes in sections_joined h.text_size h.rodata_size h.data_size bytes,
  ),
  λ r. refuses bytes r.1,
)
