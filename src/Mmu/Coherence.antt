-- ===== src/Mmu/Coherence.antt =====
-- The unit's remembered translations agree with the table, and a translation is the table's answer.
use ceres_vm.Prelude.{
  ℕ, zero, suc, ◌+◌, ◌/◌, ◌%◌, ◌<◌, bit_and, ◌≡◌, sym, ◌∙◌, inl, inr, true, ◌&&◌, some, List, [],
  ◌∷◌, arith,
}
use ceres_vm.Prelude.Tests.{◌==◌, Bool-cases}
use ceres_vm.Prelude.Lists.{length, set}
use ceres_vm.Memory.{Memory}
use ceres_vm.Mmu.{
  read_word, flag_set, page_size, pte_frame_mask, pte_present, pte_accessed, pte_dirty,
  pte_writable, pte_executable, TlbEntry, Mmu, tlb_size, find_entry,
}
use ceres_vm.Mmu.Words.{IsTable}
use ceres_vm.Mmu.Walk.{leaf, Extends, leaf-Extends}

-- A remembered translation is what the table says of its page, and its leaf is marked as used.
pub record Fits (m : Memory) (ptbr : ℕ) (e : TlbEntry) : Type 0 where
  pub placed : (va : ℕ) → va / page_size ≡ e.vpn → leaf m ptbr va ≡ some e.pte_address
  pub aligned : e.pte_address % 4 ≡ 0
  pub frame : e.frame_base ≡ bit_and (read_word e.pte_address m) pte_frame_mask
  pub writable : e.writable ≡ flag_set (read_word e.pte_address m) pte_writable
  pub executable : e.executable ≡ flag_set (read_word e.pte_address m) pte_executable
  pub present : flag_set (read_word e.pte_address m) pte_present ≡ true
  pub accessed : flag_set (read_word e.pte_address m) pte_accessed ≡ true
  pub dirty : e.dirty ≡ true → flag_set (read_word e.pte_address m) pte_dirty ≡ true

abbrev pub AllFit : Memory → ℕ → List TlbEntry → Type 0
AllFit m ptbr [] = Unit
AllFit m ptbr (e ∷ es) = (e.valid ≡ true → Fits m ptbr e) × AllFit m ptbr es

pub record IsCoherent (m : Memory) (u : Mmu) : Type 0 where
  pub table : IsTable m
  pub aligned : u.ptbr % 4 ≡ 0
  pub entries : AllFit m u.ptbr u.tlb
  pub slots : length u.tlb ≡ tlb_size
  pub victim : u.tlb_next_victim < tlb_size

module _ (m m' : Memory) (ptbr : ℕ) (h : ptbr % 4 ≡ 0) (x : Extends m m') where
  pub Fits-Extends : (e : TlbEntry) → Fits m ptbr e → Fits m' ptbr e
  Fits-Extends e f =
      let w = x.words e.pte_address f.aligned in
      record {
        placed = λ va p. leaf-Extends m m' ptbr va h x ∙ f.placed va p;
        aligned = f.aligned;
        frame = f.frame ∙ sym w.frame;
        writable = f.writable ∙ sym w.writable;
        executable = f.executable ∙ sym w.executable;
        present = w.present ∙ f.present;
        accessed = w.accessed f.accessed;
        dirty = λ d. w.dirty (f.dirty d);
      }

  pub AllFit-Extends : (es : List TlbEntry) → AllFit m ptbr es → AllFit m' ptbr es
  AllFit-Extends [] f = tt
  AllFit-Extends (e ∷ es) f = (λ v. Fits-Extends e (f.0 v), AllFit-Extends es f.1)

pub AllFit-set :
    (m : Memory) (ptbr i : ℕ) (e : TlbEntry) (es : List TlbEntry)
    → (e.valid ≡ true → Fits m ptbr e)
    → AllFit m ptbr es
    → AllFit m ptbr (set es i e)
AllFit-set m ptbr i e [] f h = tt
AllFit-set m ptbr zero e (x ∷ xs) f h = (f, h.1)
AllFit-set m ptbr (suc i) e (x ∷ xs) f h = (h.0, AllFit-set m ptbr i e xs f h.1)

-- What the search finds is valid, of the page, and fits.
pub find_entry_lem :
    (m : Memory) (ptbr vpn i : ℕ) (es : List TlbEntry) (hit : ℕ × TlbEntry)
    → AllFit m ptbr es
    → find_entry vpn i es ≡ some hit
    → (hit.1.vpn ≡ vpn) × (hit.1.valid ≡ true) × Fits m ptbr hit.1
unfolding find_entry
find_entry_lem m ptbr vpn i [] hit f h = cc
find_entry_lem m ptbr vpn i (e ∷ es) hit f h = elim (Bool-cases (e.valid && e.vpn == vpn)) [
  | inl found ↦
      let same : (i, e) ≡ hit = ground (arith, found) in
      let valid : e.valid ≡ true = ground arith in
      let page : e.vpn ≡ vpn = ground arith in rw (← same) (page, valid, f.0 valid)
  | inr other ↦ find_entry_lem m ptbr vpn (i + 1) es hit f.1 (ground (arith, other))
]
