-- ===== src/Mmu/Switch.antt =====
-- Switching to another table.
use ceres_vm.Prelude.{ℕ, suc, ◌%◌, ◌≡◌, refl, ap, ◌∙◌, List, [], ◌∷◌, arith}
use ceres_vm.Prelude.Lists.{length}
use ceres_vm.Memory.{Memory}
use ceres_vm.Mmu.{MmuAccess, TlbEntry, Mmu, tlb_size, drop_all, set_ptbr, invalidate_all, translate}
use ceres_vm.Mmu.Words.{IsTable}
use ceres_vm.Mmu.Walk.{table_translate}
use ceres_vm.Mmu.Translate.{translate-IsTranslated}
use ceres_vm.Mmu.Coherence.{AllFit, IsCoherent}

drop_all-AllFit : (m : Memory) (ptbr : ℕ) (es : List TlbEntry) → AllFit m ptbr (drop_all es)
unfolding drop_all
drop_all-AllFit m ptbr [] = tt
drop_all-AllFit m ptbr (e ∷ es) = (λ v. cc, drop_all-AllFit m ptbr es)

length-drop_all : (es : List TlbEntry) → length (drop_all es) ≡ length es
unfolding drop_all
length-drop_all [] = refl
length-drop_all (e ∷ es) = ap suc (length-drop_all es)

pub set_ptbr-IsCoherent :
    (ptbr : ℕ) (m : Memory) (u : Mmu)
    → IsTable m
    → ptbr % 4 ≡ 0
    → length u.tlb ≡ tlb_size
    → IsCoherent m (set_ptbr ptbr u)
unfolding set_ptbr invalidate_all
set_ptbr-IsCoherent ptbr m u t a n = record {
  table = t;
  aligned = a;
  entries = drop_all-AllFit m ptbr u.tlb;
  slots = length-drop_all u.tlb ∙ n;
  victim = omega arith;
}

ptbr-set_ptbr : (ptbr : ℕ) (u : Mmu) → (set_ptbr ptbr u).ptbr ≡ ptbr
unfolding set_ptbr invalidate_all
ptbr-set_ptbr ptbr u = refl

-- `setPtbr` with an aligned base, whatever the unit remembered of another table: the next translation,
-- of any address and for any access, is the one that the new table gives, and leaves the unit coherent
-- with that table.
pub translate-set_ptbr :
    (ptbr va : ℕ) (access : MmuAccess) (m : Memory) (u : Mmu)
    → IsTable m
    → ptbr % 4 ≡ 0
    → length u.tlb ≡ tlb_size
    → ((translate va access m (set_ptbr ptbr u)).0 ≡ table_translate m ptbr va access)
      × IsCoherent
          (translate va access m (set_ptbr ptbr u)).1
          (translate va access m (set_ptbr ptbr u)).2
      × ((translate va access m (set_ptbr ptbr u)).2.ptbr ≡ ptbr)
translate-set_ptbr ptbr va access m u t a n =
    let r =
      translate-IsTranslated va access m (set_ptbr ptbr u) (set_ptbr-IsCoherent ptbr m u t a n) in
    (
      r.answer ∙ ap (λ b. table_translate m b va access) (ptbr-set_ptbr ptbr u),
      r.coherent,
      r.same_table ∙ ptbr-set_ptbr ptbr u,
    )
