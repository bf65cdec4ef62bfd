-- ===== src/Mmu/Translate.antt =====
-- `translate` and `probe` give the table's answer, and keep the unit and the table in agreement.
use ceres_vm.Prelude.{
  ℕ, ◌/◌, ◌%◌, ◌^◌, bit_or, ◌≡◌, refl, sym, ◌∙◌, inl, inr, true, false, Option, none, some, arith,
}
use ceres_vm.Prelude.Tests.{if◌then◌else◌, Bool-cases, Option-cases}
use ceres_vm.Prelude.Lists.{set, length-set}
use ceres_vm.Memory.{Memory}
use ceres_vm.Mmu.{
  MmuAccess, read, write, execute, read_word, write_word, flag_set, page_size, pte_present,
  pte_accessed, pte_dirty, directory_entry_address, table_entry_address, TlbEntry, Mmu, find_entry,
  entry_of, install, walk, use_entry, after_walk, translate, probe,
}
use ceres_vm.Mmu.Walk.{
  leaf, allows, target, table_translate, table_entry_address-aligned, ExtendsWord, Extends,
  Extends-refl, leaf-Extends, set_flag-Extends, flag_stored, read_set_flag,
}
use ceres_vm.Mmu.Coherence.{
  Fits, IsCoherent, Fits-Extends, AllFit-Extends, AllFit-set, find_entry_lem,
}

-- What a translation of `va` from a coherent unit does.
pub record IsTranslated (va : ℕ) (access : MmuAccess) (m : Memory) (u : Mmu)
    (r : Option ℕ × Memory × Mmu) : Type 0 where
  pub answer : r.0 ≡ table_translate m u.ptbr va access
  pub extends_memory : Extends m r.1
  pub coherent : IsCoherent r.1 r.2
  pub same_table : r.2.ptbr ≡ u.ptbr
  pub fault : r.2.fault_address ≡ elim r.0 [ none ↦ va | some a ↦ u.fault_address ]

-- The table's answer, where it has a leaf.
table_translate-some :
    (m : Memory) (ptbr va a : ℕ) (access : MmuAccess)
    → leaf m ptbr va ≡ some a
    → table_translate m ptbr va access
      ≡ (if allows (read_word a m) access then some (target (read_word a m) va) else none)
unfolding table_translate
table_translate-some m ptbr va a access h = ground (arith, h)

table_translate-none :
    (m : Memory) (ptbr va : ℕ) (access : MmuAccess)
    → leaf m ptbr va ≡ none
    → table_translate m ptbr va access ≡ none
unfolding table_translate
table_translate-none m ptbr va access h = ground (arith, h)

module _ (va i : ℕ) (e : TlbEntry) (m : Memory) (u : Mmu) (c : IsCoherent m u) (f : Fits m u.ptbr e)
    (page : va / page_size ≡ e.vpn) where
  use_answer :
      (access : MmuAccess)
      → table_translate m u.ptbr va access ≡ (
          if allows (read_word e.pte_address m) access
          then some (bit_or e.frame_base (va % page_size))
          else none)
  use_answer access =
      table_translate-some m u.ptbr va e.pte_address access (f.placed va page) ∙ rw f.frame refl

  refused :
      (access : MmuAccess)
      → allows (read_word e.pte_address m) access ≡ false
      → IsTranslated va access m u (none, m, record u { fault_address = va })
  refused access forbidden = record {
    answer = sym (use_answer access ∙ rw forbidden refl);
    extends_memory = Extends-refl m c.table;
    coherent = record {
      table = c.table;
      aligned = c.aligned;
      entries = c.entries;
      slots = c.slots;
      victim = c.victim;
    };
    same_table = refl;
    fault = refl;
  }

  granted :
      (access : MmuAccess)
      → allows (read_word e.pte_address m) access ≡ true
      → IsTranslated va access m u (some (bit_or e.frame_base (va % page_size)), m, u)
  granted access yes_allowed = record {
    answer = sym (use_answer access ∙ rw yes_allowed refl);
    extends_memory = Extends-refl m c.table;
    coherent = c;
    same_table = refl;
    fault = refl;
  }

  first_write :
      e.writable ≡ true
      → IsTranslated va write m u (
        some (bit_or e.frame_base (va % page_size)),
        write_word e.pte_address (bit_or (read_word e.pte_address m) pte_dirty) m,
        record u { tlb = set u.tlb i (record e { dirty = true }) },
      )
  first_write w =
      let m' = write_word e.pte_address (bit_or (read_word e.pte_address m) pte_dirty) m in
      let x = set_flag-Extends e.pte_address 4 m c.table f.aligned (inr refl) in
      let kept = Fits-Extends m m' u.ptbr c.aligned x e f in
      let now_dirty = flag_stored e.pte_address 4 m c.table f.aligned (inr refl) f.present in
      record {
        answer = sym (use_answer write ∙ rw (sym f.writable ∙ w) refl);
        extends_memory = x;
        coherent = record {
          table = x.table;
          aligned = c.aligned;
          entries =
              AllFit-set m' u.ptbr i (record e { dirty = true }) u.tlb
                (λ v. record {
                  placed = kept.placed;
                  aligned = kept.aligned;
                  frame = kept.frame;
                  writable = kept.writable;
                  executable = kept.executable;
                  present = kept.present;
                  accessed = kept.accessed;
                  dirty = λ d. now_dirty;
                })
                (AllFit-Extends m m' u.ptbr c.aligned x u.tlb c.entries);
          slots = length-set u.tlb i (record e { dirty = true }) ∙ c.slots;
          victim = c.victim;
        };
        same_table = refl;
        fault = refl;
      }

  use_clean :
      e.writable ≡ true
      → e.dirty ≡ false
      → use_entry va write i e m u ≡ (
        some (bit_or e.frame_base (va % page_size)),
        write_word e.pte_address (bit_or (read_word e.pte_address m) pte_dirty) m,
        record u { tlb = set u.tlb i (record e { dirty = true }) },
      )
  unfolding use_entry
  use_clean w clean = ground (arith, w, clean)

  pub use_entry-IsTranslated :
      (access : MmuAccess) → IsTranslated va access m u (use_entry va access i e m u)
  unfolding use_entry
  use_entry-IsTranslated read = granted read refl
  use_entry-IsTranslated write = elim (Bool-cases e.writable) [
    | inr no_write ↦ rw (use_entry, no_write) (refused write (sym f.writable ∙ no_write))
    | inl w ↦ elim (Bool-cases e.dirty) [
      | inl d ↦ rw (use_entry, w, d) (granted write (sym f.writable ∙ w))
      | inr clean ↦ rw (use_clean w clean) (first_write w)
    ]
  ]
  use_entry-IsTranslated execute = elim (Bool-cases e.executable) [
    | inr no_run ↦ rw (use_entry, no_run) (refused execute (sym f.executable ∙ no_run))
    | inl run ↦ rw (use_entry, run) (granted execute (sym f.executable ∙ run))
  ]

ExtendsWord-trans : (x y z : ℕ) → ExtendsWord x y → ExtendsWord y z → ExtendsWord x z
ExtendsWord-trans x y z f g = record {
  frame = g.frame ∙ f.frame;
  present = g.present ∙ f.present;
  writable = g.writable ∙ f.writable;
  executable = g.executable ∙ f.executable;
  accessed = λ h. g.accessed (f.accessed h);
  dirty = λ h. g.dirty (f.dirty h);
  others = λ k h. g.others k h ∙ f.others k h;
}

Extends-trans : (m m' m'' : Memory) → Extends m m' → Extends m' m'' → Extends m m''
Extends-trans m m' m'' f g = record {
  table = g.table;
  words = λ q a. ExtendsWord-trans _ _ _ (f.words q a) (g.words q a);
}

allows-Extends :
    (x y : ℕ) (access : MmuAccess) → ExtendsWord x y → allows y access ≡ allows x access
allows-Extends x y read e = refl
allows-Extends x y write e = e.writable
allows-Extends x y execute e = e.executable

-- Where the leaf is, by its two words.
leaf_present :
    (m : Memory) (ptbr va : ℕ)
    → flag_set (read_word (directory_entry_address ptbr va) m) pte_present ≡ true
    → flag_set
        (read_word (table_entry_address (read_word (directory_entry_address ptbr va) m) va) m)
        pte_present
      ≡ true
    → leaf m ptbr va ≡ some (table_entry_address (read_word (directory_entry_address ptbr va) m) va)
unfolding leaf
leaf_present m ptbr va d p = rw (leaf, d, p) refl

same_page : (va va' : ℕ) → va' / page_size ≡ va / page_size → va' / 2 ^ 22 ≡ va / 2 ^ 22
same_page va va' h = omega arith

leaf-page :
    (m : Memory) (ptbr va va' : ℕ)
    → va' / page_size ≡ va / page_size
    → leaf m ptbr va' ≡ leaf m ptbr va
unfolding leaf
leaf-page m ptbr va va' h = rw (leaf, leaf, same_page va va' h, h) refl

module _ (va : ℕ) (access : MmuAccess) (m : Memory) (u : Mmu) (c : IsCoherent m u) where
  abbrev dir_word : ℕ
  dir_word = read_word (directory_entry_address u.ptbr va) m

  abbrev leaf_address : ℕ
  leaf_address = table_entry_address dir_word va

  walk_fails :
      leaf m u.ptbr va ≡ none
      → walk va (va / page_size) m u ≡ (none, m, u)
      → IsTranslated va access m u (after_walk va access (walk va (va / page_size) m u))
  unfolding after_walk
  walk_fails empty w = rw w (record {
    answer = sym (table_translate-none m u.ptbr va access empty);
    extends_memory = Extends-refl m c.table;
    coherent = record {
      table = c.table;
      aligned = c.aligned;
      entries = c.entries;
      slots = c.slots;
      victim = c.victim;
    };
    same_table = refl;
    fault = refl;
  })

  -- A walk that ends in a present and used leaf, whose entry is installed.
  module _ (m' : Memory) (pte : ℕ) (x : Extends m m') (there : leaf m u.ptbr va ≡ some leaf_address)
      (stored : read_word leaf_address m' ≡ pte) (present : flag_set pte pte_present ≡ true)
      (used : flag_set pte pte_accessed ≡ true) where
    abbrev slot : TlbEntry
    slot = entry_of (va / page_size) leaf_address pte

    slot-Fits : Fits m' u.ptbr slot
    slot-Fits = record {
      placed =
          λ va' h. leaf-Extends m m' u.ptbr va' c.aligned x ∙ leaf-page m u.ptbr va va' h ∙ there;
      aligned = table_entry_address-aligned dir_word va;
      frame = rw stored refl;
      writable = rw stored refl;
      executable = rw stored refl;
      present = rw stored present;
      accessed = rw stored used;
      dirty = λ h. rw stored h;
    }

    installed-IsCoherent : IsCoherent m' (install slot u)
    installed-IsCoherent = record {
      table = x.table;
      aligned = c.aligned;
      entries =
          AllFit-set m' u.ptbr u.tlb_next_victim slot u.tlb (λ v. slot-Fits)
            (AllFit-Extends m m' u.ptbr c.aligned x u.tlb c.entries);
      slots = length-set u.tlb u.tlb_next_victim slot ∙ c.slots;
      victim = omega arith;
    }

    same_answer : table_translate m' u.ptbr va access ≡ table_translate m u.ptbr va access
    same_answer =
        let w = x.words leaf_address (table_entry_address-aligned dir_word va) in
        table_translate-some m' u.ptbr va leaf_address access
          (leaf-Extends m m' u.ptbr va c.aligned x ∙ there)
        ∙ rw (allows-Extends _ _ access w, w.frame) refl
        ∙ sym (table_translate-some m u.ptbr va leaf_address access there)

    walk_succeeds :
        IsTranslated va access m u (use_entry va access u.tlb_next_victim slot m' (install slot u))
    walk_succeeds =
        let r =
          use_entry-IsTranslated va u.tlb_next_victim slot m' (install slot u) installed-IsCoherent
            slot-Fits refl access in
        record {
          answer = r.answer ∙ same_answer;
          extends_memory = Extends-trans m m' _ x r.extends_memory;
          coherent = r.coherent;
          same_table = r.same_table;
          fault = r.fault;
        }

  walk_absent : flag_set dir_word pte_present ≡ false → walk va (va / page_size) m u ≡ (none, m, u)
  unfolding walk
  walk_absent h = rw (walk, h) refl

  walk_no_leaf :
      flag_set dir_word pte_present ≡ true
      → flag_set (read_word leaf_address m) pte_present ≡ false
      → walk va (va / page_size) m u ≡ (none, m, u)
  unfolding walk
  walk_no_leaf d p = rw (walk, d, p) refl

  walk_used :
      flag_set dir_word pte_present ≡ true
      → flag_set (read_word leaf_address m) pte_present ≡ true
      → flag_set (read_word leaf_address m) pte_accessed ≡ true
      → after_walk va access (walk va (va / page_size) m u)
        ≡ use_entry va access u.tlb_next_victim
            (entry_of (va / page_size) leaf_address (read_word leaf_address m))
            m
            (install (entry_of (va / page_size) leaf_address (read_word leaf_address m)) u)
  unfolding walk after_walk
  walk_used d p a = rw (walk, d, p, a) refl

  abbrev marked_leaf : ℕ
  marked_leaf = bit_or (read_word leaf_address m) pte_accessed

  walk_unused :
      flag_set dir_word pte_present ≡ true
      → flag_set (read_word leaf_address m) pte_present ≡ true
      → flag_set (read_word leaf_address m) pte_accessed ≡ false
      → after_walk va access (walk va (va / page_size) m u)
        ≡ use_entry va access u.tlb_next_victim
            (entry_of (va / page_size) leaf_address marked_leaf)
            (write_word leaf_address marked_leaf m)
            (install (entry_of (va / page_size) leaf_address marked_leaf) u)
  unfolding walk after_walk
  walk_unused d p a = rw (walk, d, p, a) refl

  miss-IsTranslated :
      IsTranslated va access m u (after_walk va access (walk va (va / page_size) m u))
  miss-IsTranslated = elim (Bool-cases (flag_set dir_word pte_present)) [
    | inr d ↦ walk_fails (unfold leaf in rw d refl) (walk_absent d)
    | inl d ↦ elim (Bool-cases (flag_set (read_word leaf_address m) pte_present)) [
      | inr p ↦ walk_fails (unfold leaf in rw (d, p) refl) (walk_no_leaf d p)
      | inl p ↦
          let there = leaf_present m u.ptbr va d p in
          let inside = table_entry_address-aligned dir_word va in
          elim (Bool-cases (flag_set (read_word leaf_address m) pte_accessed)) [
            | inl a ↦
                rw (walk_used d p a) (
                  walk_succeeds m (read_word leaf_address m) (Extends-refl m c.table) there refl p
                    a)
            | inr a ↦
                let x = set_flag-Extends leaf_address 3 m c.table inside (inl refl) in
                let stored = read_set_flag leaf_address 3 m c.table inside (inl refl) p in
                let w = x.words leaf_address inside in
                let set_now = flag_stored leaf_address 3 m c.table inside (inl refl) p in
                rw (walk_unused d p a) (
                  walk_succeeds _ marked_leaf x there stored (rw stored at w.present ∙ p)
                    (rw stored at set_now))
          ]
    ]
  ]

  -- A translation from a coherent unit gives the table's own answer, whether it is remembered or
  -- walked to: the frame with the page offset, or none for an absent level or a permission that the
  -- leaf does not give. It records the address exactly when it faults, keeps the table's base, and leaves
  -- the unit coherent; in an aligned word of the memory it changes no bit but Accessed and Dirty, and
  -- clears neither.
  pub translate-IsTranslated : IsTranslated va access m u (translate va access m u)
  unfolding translate
  translate-IsTranslated = elim (Option-cases (find_entry (va / page_size) 0 u.tlb)) [
    | inl missing ↦ rw (translate, missing) miss-IsTranslated
    | inr (hit, found) ↦
        let f = find_entry_lem m u.ptbr (va / page_size) 0 u.tlb hit c.entries found in
        rw (translate, found) (use_entry-IsTranslated va hit.0 hit.1 m u c f.2 (sym f.0) access)
  ]

-- `probe` from a coherent unit, remembered or not, leads where the table says that a read of the address
-- would: which no permission hinders, so that none is the answer for an absent level alone.
pub probe_lem :
    (va : ℕ) (m : Memory) (u : Mmu)
    → IsCoherent m u
    → probe va m u ≡ table_translate m u.ptbr va read
unfolding probe table_translate leaf
probe_lem va m u c = elim (Option-cases (find_entry (va / page_size) 0 u.tlb)) [
  | inl missing ↦ rw (probe, missing) (ground arith)
  | inr (hit, found) ↦
      let f = find_entry_lem m u.ptbr (va / page_size) 0 u.tlb hit c.entries found in
      rw (probe, found) (sym (use_answer va hit.0 hit.1 m u c f.2 (sym f.0) read))
]
