-- ===== src/Vm/Image.antt =====
-- The image that the loader places, cell by cell.
use ceres_vm.Prelude.{
  ℕ, zero, suc, ◌+◌, ◌-◌, ◌≤◌, ◌<◌, ◌≡◌, refl, sym, ap, false, ◌&&◌, some, List, [], ◌∷◌, ◌++◌, inl,
  inr, arith,
}
use ceres_vm.Prelude.Tests.{ltb, leb, ◌==◌, if◌then◌else◌, Bool-cases}
use mathlib.Core.List.{append_assoc}
use ceres_vm.Prelude.Lists.{length, length-append}
use ceres_vm.Memory.{
  Memory, overwrite, write_bytes, read_bytes, span_from, set_bytes, unrestricted_start,
}
use ceres_vm.Memory.Blocks.{span_from_ext}
use ceres_vm.Program.{Program}
use ceres_vm.Program.Loading.{byte_of}
use ceres_vm.Vm.{place_section, place_image, image_end}

-- `bssSize` bytes of zero.
pub zeros : ℕ → List ℕ
zeros zero = []
zeros (suc n) = 0 ∷ zeros n

-- The sections one behind the other.
unfoldable pub image : Program → List ℕ
image p = p.text ++ (p.rodata ++ (p.data_section ++ zeros p.header.bss_size))

-- A program whose header gives the sizes of its sections, as the loaders leave it.
pub record HasSizes (p : Program) : Type 0 where
  pub text : p.header.text_size ≡ length p.text
  pub rodata : p.header.rodata_size ≡ length p.rodata
  pub data_section : p.header.data_size ≡ length p.data_section

byte_of-append :
    (xs ys : List ℕ) (i : ℕ)
    → byte_of (xs ++ ys) i
      ≡ (if ltb i (length xs) then byte_of xs i else byte_of ys (i - length xs))
unfolding byte_of
byte_of-append [] ys i = ground arith
byte_of-append (x ∷ xs) ys zero = ground arith
byte_of-append (x ∷ xs) ys (suc i) = ground (arith, byte_of-append xs ys i)

byte_of-zeros : (n i : ℕ) → byte_of (zeros n) i ≡ 0
unfolding byte_of zeros
byte_of-zeros zero i = refl
byte_of-zeros (suc n) zero = refl
byte_of-zeros (suc n) (suc i) = byte_of-zeros n i

overwrite-cell :
    (f : ℕ → ℕ) (base : ℕ) (bs : List ℕ) (a : ℕ)
    → overwrite f base bs a
      ≡ (if leb base a && ltb a (base + length bs) then byte_of bs (a - base) else f a)
unfolding overwrite byte_of
overwrite-cell f base [] a = ground arith
overwrite-cell f base (b ∷ bs) a = elim (Bool-cases (ltb base a)) [
  | inl past ↦
      let next : a - base ≡ suc (a - (base + 1)) = ground (arith, past) in
      rw next (ground (arith, past, overwrite-cell f (base + 1) bs a))
  | inr not_past ↦ elim (Bool-cases (base == a)) [
    | inl here ↦ let start : a - base ≡ 0 = ground (arith, here) in rw start (ground (arith, here))
    | inr other ↦ ground (arith, not_past, other, overwrite-cell f (base + 1) bs a)
  ]
]

place_section-overwrite :
    (size offset : ℕ) (bs : List ℕ) (m : Memory)
    → size ≡ length bs
    → offset + size ≤ m.size
    → place_section size offset bs m ≡ some (record m { bytes = overwrite m.bytes offset bs })
unfolding place_section write_bytes overwrite
place_section-overwrite size offset [] m e fits = rw e refl
place_section-overwrite size offset (b ∷ bs) m e fits = rw e (ground arith)

-- The image in memory: its sections from the start of the unrestricted segment on, zeros for the rest,
-- and every other cell as it was.
pub place_image-cells :
    (p : Program) (m : Memory)
    → HasSizes p
    → image_end p.header ≤ m.size
    → (m' : Memory) × (place_image p m ≡ some m')
      × (m'.size ≡ m.size)
      × ((a : ℕ)
          → m'.bytes a ≡ (
              if leb unrestricted_start a && ltb a (image_end p.header)
              then byte_of (image p) (a - unrestricted_start)
              else m.bytes a))
unfolding place_image set_bytes image
place_image-cells p m s fits =
    let h = p.header in
    let o1 = unrestricted_start + h.text_size in
    let o2 = o1 + h.rodata_size in
    let o3 = o2 + h.data_size in
    let m1 : Memory = record m { bytes = overwrite m.bytes unrestricted_start p.text } in
    let m2 : Memory = record m { bytes = overwrite m1.bytes o1 p.rodata } in
    let m3 : Memory = record m { bytes = overwrite m2.bytes o2 p.data_section } in
    (
      record m { bytes = λ a. if leb o3 a && ltb a (o3 + h.bss_size) then 0 else m3.bytes a },
      rw
          (
            place_section-overwrite h.text_size unrestricted_start p.text m s.text
                (omega (arith, fits)),
            place_section-overwrite h.rodata_size o1 p.rodata m1 s.rodata (omega (arith, fits)),
            place_section-overwrite h.data_size o2 p.data_section m2 s.data_section
                (omega (arith, fits)),
          )
          (ground (arith, fits)),
      refl,
      λ a. ground (
        arith,
        fits,
        s.text,
        s.rodata,
        s.data_section,
        overwrite-cell m.bytes unrestricted_start p.text a,
        overwrite-cell m1.bytes o1 p.rodata a,
        overwrite-cell m2.bytes o2 p.data_section a,
        byte_of-append p.text (p.rodata ++ (p.data_section ++ zeros h.bss_size))
            (a - unrestricted_start),
        byte_of-append p.rodata (p.data_section ++ zeros h.bss_size)
            (a - unrestricted_start - length p.text),
        byte_of-append p.data_section (zeros h.bss_size)
            (a - unrestricted_start - length p.text - length p.rodata),
        byte_of-zeros h.bss_size
            (a - unrestricted_start - length p.text - length p.rodata - length p.data_section),
      ),
    )

head_of : (before : List ℕ) (x : ℕ) (xs : List ℕ) → byte_of (before ++ x ∷ xs) (length before) ≡ x
unfolding byte_of
head_of [] x xs = refl
head_of (b ∷ before) x xs = head_of before x xs

span_from-byte_of :
    (before xs : List ℕ) → span_from (byte_of (before ++ xs)) (length before) (length xs) ≡ xs
unfolding span_from
span_from-byte_of before [] = refl
span_from-byte_of before (x ∷ xs) =
    let joined : before ++ (x ∷ xs) ≡ (before ++ x ∷ []) ++ xs =
      sym (append_assoc before (x ∷ []) xs) in
    let count : length (before ++ x ∷ []) ≡ length before + 1 =
      omega (arith, length-append before (x ∷ [])) in
    let head = head_of before x xs in
    ground (
      arith,
      head,
      ap (λ l. span_from (byte_of l) (length before + 1) (length xs)) joined,
      ap (λ (t : ℕ). span_from (byte_of ((before ++ x ∷ []) ++ xs)) t (length xs)) count,
      span_from-byte_of (before ++ x ∷ []) xs,
    )

length-zeros : (n : ℕ) → length (zeros n) ≡ n
unfolding zeros
length-zeros zero = refl
length-zeros (suc n) = ap suc (length-zeros n)

pub length-image :
    (p : Program) → HasSizes p → length (image p) ≡ image_end p.header - unrestricted_start
unfolding image
length-image p s = omega (
  arith,
  s.text,
  s.rodata,
  s.data_section,
  length-append p.text (p.rodata ++ (p.data_section ++ zeros p.header.bss_size)),
  length-append p.rodata (p.data_section ++ zeros p.header.bss_size),
  length-append p.data_section (zeros p.header.bss_size),
  length-zeros p.header.bss_size,
)

-- The image read back, from a memory that holds it cell by cell.
pub read_bytes-image :
    (p : Program) (m : Memory)
    → HasSizes p
    → image_end p.header ≤ m.size
    → ((k : ℕ)
        → k < length (image p)
        → m.bytes (unrestricted_start + k) ≡ byte_of (image p) (0 + k))
    → read_bytes false unrestricted_start (length (image p)) m ≡ some (image p)
unfolding read_bytes
read_bytes-image p m s fits cells =
    let size : length (image p) ≡ image_end p.header - unrestricted_start = length-image p s in
    ground (
      arith,
      fits,
      size,
      span_from_ext m.bytes (byte_of (image p)) unrestricted_start 0 (length (image p)) cells,
      span_from-byte_of [] (image p),
    )
