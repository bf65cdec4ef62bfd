-- ===== src/Mmu.antt =====
-- The memory management unit (Ceres/libs/vm/include/ceres/vm/mmu.h): a two-level page table walk with
-- a table of 16 remembered translations. Where the source keeps a pointer to an entry of that table
-- the model keeps its index and its value.
pub mod Words
pub mod Walk
pub mod Coherence
pub mod Translate
pub mod Switch
mod Tests
use ceres_vm.Prelude.{
  ℕ, zero, suc, ◌+◌, ◌*◌, ◌/◌, ◌%◌, ◌^◌, bit_and, bit_or, Bool, true, false, not, ◌&&◌, Option,
  none, some, List, [], ◌∷◌,
}
use ceres_vm.Prelude.Tests.{◌==◌, if◌then◌else◌}
use ceres_vm.Prelude.Lists.{set}
use ceres_vm.Prelude.Words.{add32, u32}
use ceres_vm.Memory.{Memory, read_raw, write_raw}

pub data MmuAccess : Type 0 where
  read : MmuAccess
  write : MmuAccess
  execute : MmuAccess

abbrev pub page_size : ℕ
page_size = 2 ^ 12

abbrev pub pte_frame_mask : ℕ
pte_frame_mask = 0xFFFFF000

abbrev pub pte_present : ℕ
pte_present = 2 ^ 0

abbrev pub pte_writable : ℕ
pte_writable = 2 ^ 1

abbrev pub pte_executable : ℕ
pte_executable = 2 ^ 2

abbrev pub pte_accessed : ℕ
pte_accessed = 2 ^ 3

abbrev pub pte_dirty : ℕ
pte_dirty = 2 ^ 4

pub record TlbEntry : Type 0 where
  pub valid : Bool
  pub vpn : ℕ
  pub frame_base : ℕ
  pub pte_address : ℕ
  pub writable : Bool
  pub executable : Bool
  pub dirty : Bool

abbrev pub tlb_size : ℕ
tlb_size = 16

pub record Mmu : Type 0 where
  pub ptbr : ℕ
  pub tlb : List TlbEntry
  pub tlb_next_victim : ℕ
  pub fault_address : ℕ

-- `memory.readUnchecked<u32>` and `memory.writeUnchecked<u32>`.
abbrev pub read_word : ℕ → Memory → ℕ
read_word address m = read_raw 0 4 address m

abbrev pub write_word : ℕ → ℕ → Memory → Memory
write_word address v m = write_raw 0 4 address v m

-- `(entry & flag) != 0`
abbrev pub flag_set : ℕ → ℕ → Bool
flag_set entry flag = not (bit_and entry flag == 0)

abbrev pub drop_entry : TlbEntry → TlbEntry
drop_entry e = record e { valid = false }

unfoldable pub drop_all : List TlbEntry → List TlbEntry
drop_all [] = []
drop_all (e ∷ es) = drop_entry e ∷ drop_all es

unfoldable pub drop_first : ℕ → List TlbEntry → List TlbEntry
drop_first vpn [] = []
drop_first vpn (e ∷ es) =
    if e.valid && e.vpn == vpn then drop_entry e ∷ es else e ∷ drop_first vpn es

unfoldable pub invalidate_all : Mmu → Mmu
invalidate_all u = record u { tlb = drop_all u.tlb; tlb_next_victim = 0 }

unfoldable pub set_ptbr : ℕ → Mmu → Mmu
unfolding invalidate_all
set_ptbr physical_address u = invalidate_all (record u { ptbr = physical_address })

unfoldable pub invalidate : ℕ → Mmu → Mmu
invalidate virtual_address u = record u { tlb = drop_first (virtual_address / page_size) u.tlb }

unfoldable pub reset : Mmu → Mmu
unfolding invalidate_all
reset u = record (invalidate_all (record u { ptbr = 0 })) { fault_address = 0 }

-- The loop of `translate` over `_tlb`, `i` the index of the list's head.
unfoldable pub find_entry : ℕ → ℕ → List TlbEntry → Option (ℕ × TlbEntry)
find_entry vpn i [] = none
find_entry vpn i (e ∷ es) =
    if e.valid && e.vpn == vpn then some (i, e) else find_entry vpn (i + 1) es

-- The two addresses of a walk.
abbrev pub directory_entry_address : ℕ → ℕ → ℕ
directory_entry_address ptbr va = add32 ptbr (va / 2 ^ 22 % 1024 * 4)

abbrev pub table_entry_address : ℕ → ℕ → ℕ
table_entry_address entry va = add32 (bit_and entry pte_frame_mask) (va / 2 ^ 12 % 1024 * 4)

-- What `walk` puts into its slot for a leaf.
abbrev pub entry_of : ℕ → ℕ → ℕ → TlbEntry
entry_of vpn pte_address pte = record {
  valid = true;
  vpn = vpn;
  frame_base = bit_and pte pte_frame_mask;
  pte_address = pte_address;
  writable = flag_set pte pte_writable;
  executable = flag_set pte pte_executable;
  dirty = flag_set pte pte_dirty;
}

abbrev pub install : TlbEntry → Mmu → Mmu
install e u = record u {
  tlb = set u.tlb u.tlb_next_victim e;
  tlb_next_victim = (u.tlb_next_victim + 1) % tlb_size;
}

-- `walk`: the slot it fills with its entry, the memory and the unit, or none.
unfoldable pub walk : ℕ → ℕ → Memory → Mmu → Option (ℕ × TlbEntry) × Memory × Mmu
walk va vpn m u =
    let dir_entry = read_word (directory_entry_address u.ptbr va) m in
    if not (flag_set dir_entry pte_present)
    then (none, m, u)
    else let pte_address = table_entry_address dir_entry va in
      let pte = read_word pte_address m in
      if not (flag_set pte pte_present)
      then (none, m, u)
      else let pte' = if flag_set pte pte_accessed then pte else bit_or pte pte_accessed in
        let m' = if flag_set pte pte_accessed then m else write_word pte_address pte' m in
        let slot = entry_of vpn pte_address pte' in
        (some (u.tlb_next_victim, slot), m', install slot u)

-- `translate` once the entry is there: permissions, the dirty bit, the address.
unfoldable pub use_entry : ℕ → MmuAccess → ℕ → TlbEntry → Memory → Mmu → Option ℕ × Memory × Mmu
use_entry va read i e m u = (some (bit_or e.frame_base (va % page_size)), m, u)
use_entry va write i e m u =
    if not e.writable
    then (none, m, record u { fault_address = va })
    else if not e.dirty
    then (
      some (bit_or e.frame_base (va % page_size)),
      write_word e.pte_address (bit_or (read_word e.pte_address m) pte_dirty) m,
      record u { tlb = set u.tlb i (record e { dirty = true }) },
    )
    else (some (bit_or e.frame_base (va % page_size)), m, u)
use_entry va execute i e m u =
    if not e.executable
    then (none, m, record u { fault_address = va })
    else (some (bit_or e.frame_base (va % page_size)), m, u)

-- `translate` on a miss, after the walk.
unfoldable pub after_walk :
    ℕ → MmuAccess → Option (ℕ × TlbEntry) × Memory × Mmu → Option ℕ × Memory × Mmu
unfolding use_entry
after_walk va access (none, m, u) = (none, m, record u { fault_address = va })
after_walk va access (some (i, e), m, u) = use_entry va access i e m u

unfoldable pub translate : ℕ → MmuAccess → Memory → Mmu → Option ℕ × Memory × Mmu
unfolding walk use_entry after_walk
translate va access m u = elim (find_entry (va / page_size) 0 u.tlb) [
  | some hit ↦ use_entry va access hit.0 hit.1 m u
  | none ↦ after_walk va access (walk va (va / page_size) m u)
]

unfoldable pub probe : ℕ → Memory → Mmu → Option ℕ
probe va m u = elim (find_entry (va / page_size) 0 u.tlb) [
  | some hit ↦ some (bit_or hit.1.frame_base (va % page_size))
  | none ↦
      let dir_entry = read_word (directory_entry_address u.ptbr va) m in
      let pte = read_word (table_entry_address dir_entry va) m in
      if not (flag_set dir_entry pte_present)
      then none
      else if not (flag_set pte pte_present)
      then none
      else some (bit_or (bit_and pte pte_frame_mask) (va % page_size))
]
