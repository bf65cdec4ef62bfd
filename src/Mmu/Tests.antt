-- ===== src/Mmu/Tests.antt =====
-- A directory at 0x1000, a table at 0x2000, and one page: 0x3000, writable, for the address 0.
use ceres_vm.Prelude.{◌≡◌, false, some, refl, [], ◌∷◌, arith}
use ceres_vm.Memory.{Memory, put, read_raw}
use ceres_vm.Mmu.{MmuAccess, Mmu, TlbEntry, set_ptbr, translate, probe, find_entry, drop_all}
use ceres_vm.Mmu.Words.{IsTable}
use ceres_vm.Mmu.Coherence.{IsCoherent}
use ceres_vm.Mmu.Walk.{table_translate}
use ceres_vm.Mmu.Switch.{set_ptbr-IsCoherent, translate-set_ptbr}
use ceres_vm.Mmu.Translate.{IsTranslated, translate-IsTranslated, probe_lem}

abbrev paged : Memory
paged = record {
  size = 16384;
  bytes = put (put (put (put (λ _. 0) 0x1000 1) 0x1001 0x20) 0x2000 3) 0x2001 0x30;
}

paged-IsTable : IsTable paged
paged-IsTable = record { bytes = λ i. ground arith; whole = refl }

abbrev empty_entry : TlbEntry
empty_entry = record {
  valid = false;
  vpn = 0;
  frame_base = 0;
  pte_address = 0;
  writable = false;
  executable = false;
  dirty = false;
}

abbrev unit : Mmu
unit = record {
  ptbr = 0;
  tlb =
      empty_entry ∷ empty_entry ∷ empty_entry ∷ empty_entry ∷ empty_entry ∷ empty_entry
      ∷ empty_entry ∷ empty_entry ∷ empty_entry ∷ empty_entry ∷ empty_entry ∷ empty_entry
      ∷ empty_entry ∷ empty_entry ∷ empty_entry ∷ empty_entry ∷ [];
  tlb_next_victim = 0;
  fault_address = 0;
}

abbrev ready : Mmu
ready = set_ptbr 0x1000 unit

translate-set_ptbr_example :
    ((translate 0x12 MmuAccess.write paged (set_ptbr 0x1000 unit)).0
      ≡ table_translate paged 0x1000 0x12 MmuAccess.write)
    × IsCoherent
        (translate 0x12 MmuAccess.write paged (set_ptbr 0x1000 unit)).1
        (translate 0x12 MmuAccess.write paged (set_ptbr 0x1000 unit)).2
    × ((translate 0x12 MmuAccess.write paged (set_ptbr 0x1000 unit)).2.ptbr ≡ 0x1000)
translate-set_ptbr_example =
    translate-set_ptbr 0x1000 0x12 MmuAccess.write paged unit paged-IsTable refl refl

ready-IsCoherent : IsCoherent paged ready
ready-IsCoherent = set_ptbr-IsCoherent 0x1000 paged unit paged-IsTable refl refl

translates : (translate 0x12 MmuAccess.write paged ready).0 ≡ some 0x3012
unfolding translate set_ptbr find_entry drop_all read_raw
translates = refl

translate-IsTranslated_example :
    IsTranslated 0x12 MmuAccess.write paged ready (translate 0x12 MmuAccess.write paged ready)
translate-IsTranslated_example =
    translate-IsTranslated 0x12 MmuAccess.write paged ready ready-IsCoherent

probe_lem_example : probe 0x12 paged ready ≡ table_translate paged ready.ptbr 0x12 MmuAccess.read
probe_lem_example = probe_lem 0x12 paged ready ready-IsCoherent
