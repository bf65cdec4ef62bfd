-- ===== src/Scheduler/Service.antt =====
-- `service`: the events that are due run once each, earliest first, and the loop ends.
use mathlib.Core.List.{Perm}
use mathlib.Core.List.Perm
use ceres_vm.Prelude.{
  ℕ, zero, suc, ◌+◌, ◌≤◌, ◌<◌, ◌≡◌, refl, sym, ap, ◌∙◌, Bool, true, false, inl, inr, Option, some,
  List, [], ◌∷◌, ◌++◌, arith,
}
use ceres_vm.Prelude.Tests.{ltb, leb, leb→le, if◌then◌else◌, Bool-cases}
use ceres_vm.Prelude.Lists.{length, get_elem?}
use ceres_vm.Scheduler.{
  Event, Scheduler, no_scheduled_event, earliest_cycle, recompute_next, last_of, all_but_last,
  replace_by_last, swap_remove, earliest_from, service,
}
use ceres_vm.Scheduler.Table.{IsBelow}
use ceres_vm.Scheduler.Cancel.{length-replace}

-- What the search of `service` finds: an event of the table with its index, and no event is earlier.
record IsEarliest (all : List Event) (most : ℕ) (es : List Event) (r : Event × ℕ) : Type 0 where
  pub found : get_elem? all r.1 ≡ some r.0
  pub least : r.0.cycle ≤ most
  pub below : IsBelow r.0.cycle es

earliest_from-if :
    (b : Bool) (x y : Event) (at i : ℕ) (es : List Event)
    → earliest_from (if b then x else y) (if b then i else at) (i + 1) es
      ≡ (if b then earliest_from x i (i + 1) es else earliest_from y at (i + 1) es)
earliest_from-if true x y at i es = refl
earliest_from-if false x y at i es = refl

earliest_from-cons :
    (best e : Event) (at i : ℕ) (es : List Event)
    → earliest_from best at i (e ∷ es) ≡ (
        if ltb e.cycle best.cycle
        then earliest_from e i (i + 1) es
        else earliest_from best at (i + 1) es)
unfolding earliest_from
earliest_from-cons best e at i es = earliest_from-if (ltb e.cycle best.cycle) e best at i es

earliest_from_lem :
    (all : List Event) (best : Event) (at i : ℕ) (es : List Event)
    → get_elem? all at ≡ some best
    → ((k : ℕ) → get_elem? es k ≡ get_elem? all (i + k))
    → IsEarliest all best.cycle es (earliest_from best at i es)
earliest_from_lem all best at i [] h s =
    unfold earliest_from in record { found = h; least = omega arith; below = tt }
earliest_from_lem all best at i (e ∷ es) h s =
    let n : i + 0 ≡ i = omega arith in
    let here : get_elem? all i ≡ some e = rw (← n) (sym (s 0)) in
    let shifted : (k : ℕ) → get_elem? es k ≡ get_elem? all (i + 1 + k) =
      λ k. let n : i + 1 + k ≡ i + suc k = omega arith in rw n (s (suc k)) in
    elim (Bool-cases (ltb e.cycle best.cycle)) [
      | inl c ↦
          let r = earliest_from_lem all e i (i + 1) es here shifted in
          rw (earliest_from-cons, c)
            (record {
              found = r.found;
              least = ground (arith, r.least);
              below = (r.least, r.below);
            })
      | inr c ↦
          let r = earliest_from_lem all best at (i + 1) es h shifted in
          rw (earliest_from-cons, c)
            (record {
              found = r.found;
              least = r.least;
              below = (ground (arith, r.least), r.below);
            })
    ]

last-perm : (x : Event) (xs : List Event) → Perm (x ∷ xs) (last_of x xs ∷ all_but_last x xs)
unfolding last_of all_but_last
last-perm x [] = Perm.refl (x ∷ [])
last-perm x (y ∷ ys) =
    Perm.trans (Perm.cons x (last-perm y ys)) (Perm.swap (last_of y ys) x (all_but_last y ys))

replace-perm : (es : List Event) → Perm es (replace_by_last es)
unfolding replace_by_last
replace-perm [] = Perm.refl []
replace-perm (x ∷ xs) = last-perm x xs

swap_remove-perm :
    (es : List Event) (i : ℕ) (e : Event) → get_elem? es i ≡ some e → Perm es (e ∷ swap_remove i es)
unfolding swap_remove
swap_remove-perm [] i e h = cc
swap_remove-perm (x ∷ xs) zero e h =
    let same : x ≡ e = cc in rw (← same) (Perm.cons x (replace-perm xs))
swap_remove-perm (x ∷ xs) (suc i) e h =
    Perm.trans (Perm.cons x (swap_remove-perm xs i e h)) (Perm.swap e x (swap_remove i xs))

last-IsBelow :
    (n : ℕ) (x : Event) (xs : List Event)
    → IsBelow n (x ∷ xs)
    → IsBelow n (last_of x xs ∷ all_but_last x xs)
unfolding last_of all_but_last
last-IsBelow n x [] h = h
last-IsBelow n x (y ∷ ys) h = let r = last-IsBelow n y ys h.1 in (r.0, (h.0, r.1))

replace-IsBelow : (n : ℕ) (es : List Event) → IsBelow n es → IsBelow n (replace_by_last es)
unfolding replace_by_last
replace-IsBelow n [] h = tt
replace-IsBelow n (x ∷ xs) h = last-IsBelow n x xs h

swap_remove-IsBelow : (n i : ℕ) (es : List Event) → IsBelow n es → IsBelow n (swap_remove i es)
unfolding swap_remove
swap_remove-IsBelow n i [] h = tt
swap_remove-IsBelow n zero (x ∷ xs) h = replace-IsBelow n xs h.1
swap_remove-IsBelow n (suc i) (x ∷ xs) h = (h.0, swap_remove-IsBelow n i xs h.1)

length-swap_remove :
    (es : List Event) (i : ℕ) (e : Event)
    → get_elem? es i ≡ some e
    → length es ≡ suc (length (swap_remove i es))
unfolding swap_remove
length-swap_remove [] i e h = cc
length-swap_remove (x ∷ xs) zero e h = omega (arith, length-replace xs)
length-swap_remove (x ∷ xs) (suc i) e h = ap suc (length-swap_remove xs i e h)

below-le :
    (n now m : ℕ) (es : List Event) → IsBelow n es → earliest_cycle m es ≤ now → now < m → n ≤ now
unfolding earliest_cycle
below-le n now m [] h p q = absurd (omega arith)
below-le n now m (e ∷ es) h p q = elim (Bool-cases (leb e.cycle now)) [
  | inl c ↦ ground (arith, h.0)
  | inr c ↦ below-le n now (if ltb e.cycle m then e.cycle else m) es h.1 p (ground arith)
]

IsBelow-member :
    (n : ℕ) (es : List Event) (i : ℕ) (e : Event)
    → get_elem? es i ≡ some e
    → IsBelow n es
    → n ≤ e.cycle
IsBelow-member n [] i e h b = cc
IsBelow-member n (x ∷ xs) zero e h b = ground (arith, b.0)
IsBelow-member n (x ∷ xs) (suc i) e h b = IsBelow-member n xs i e h b.1

-- The events in the order of their cycles.
abbrev pub IsSorted : List Event → Type 0
IsSorted [] = Unit
IsSorted (e ∷ es) = IsBelow e.cycle es × IsSorted es

-- No event is later than `now`.
abbrev pub IsDue : ℕ → List Event → Type 0
IsDue now [] = Unit
IsDue now (e ∷ es) = (e.cycle ≤ now) × IsDue now es

module _ {W : Type 0} (act : Event → W → W) where
  -- The devices after a list of events, one at a time.
  abbrev pub run_all : List Event → W → W
  run_all [] w = w
  run_all (e ∷ es) w = run_all es (act e w)

  -- A device that does its work and asks the scheduler for nothing.
  abbrev pub plain : Event → Scheduler × W → Scheduler × W
  plain e (s, w) = (s, act e w)

  -- What a pass at `now` over a table leaves.
  pub record IsServed (now : ℕ) (es : List Event) (w : W) (r : Option (Scheduler × W))
      : Type 0 where
    pub fired : List Event
    pub left : Scheduler
    pub returns : r ≡ some (left, run_all fired w)
    pub sorted : IsSorted fired
    pub due : IsDue now fired
    pub all : Perm es (fired ++ left.events)
    pub later : now < left.next
    pub cached : left.next ≡ earliest_cycle no_scheduled_event left.events
    pub bounds : (n : ℕ) → IsBelow n es → IsBelow n fired

  service_idle :
      (fuel now : ℕ) (s : Scheduler) (w : W)
      → leb s.next now ≡ false
      → service plain (suc fuel) now (s, w) ≡ some (s, w)
  unfolding service
  service_idle fuel now s w h = ground arith

  -- The event that a pass takes first, and the table without it.
  abbrev pub first_of : Event → List Event → Event
  first_of e es = (earliest_from e 0 1 es).0

  abbrev pub rest_of : Event → List Event → List Event
  rest_of e es = swap_remove (earliest_from e 0 1 es).1 (e ∷ es)

  -- `recompute_next` of a table.
  abbrev refreshed : List Event → Scheduler
  refreshed es = record { events = es; next = earliest_cycle no_scheduled_event es }

  service_step :
      (fuel now next : ℕ) (e : Event) (es : List Event) (w : W)
      → leb next now ≡ true
      → service plain (suc fuel) now (record { events = e ∷ es; next = next }, w)
        ≡ service plain fuel now (refreshed (rest_of e es), act (first_of e es) w)
  unfolding service recompute_next
  service_step fuel now next e es w h = ground arith

  found_first :
      (e : Event) (es : List Event) → IsEarliest (e ∷ es) e.cycle es (earliest_from e 0 1 es)
  found_first e es =
      earliest_from_lem (e ∷ es) e 0 1 es refl
        (λ k. let n : 1 + k ≡ suc k = omega arith in rw n refl)

  IsServed-more :
      (fuel now next : ℕ) (e : Event) (es : List Event) (w : W)
      → leb next now ≡ true
      → (first_of e es).cycle ≤ now
      → IsServed now
          (rest_of e es)
          (act (first_of e es) w)
          (service plain fuel now (refreshed (rest_of e es), act (first_of e es) w))
      → IsServed now
          (e ∷ es)
          w
          (service plain (suc fuel) now (record { events = e ∷ es; next = next }, w))
  IsServed-more fuel now next e es w h due more =
      let f = found_first e es in
      let i = (earliest_from e 0 1 es).1 in
      let parts = swap_remove-perm (e ∷ es) i (first_of e es) f.found in
      let least : IsBelow (first_of e es).cycle (e ∷ es) = (f.least, f.below) in
      record {
        fired = first_of e es ∷ more.fired;
        left = more.left;
        returns = service_step fuel now next e es w h ∙ more.returns;
        sorted = (
          more.bounds (first_of e es).cycle (swap_remove-IsBelow _ i (e ∷ es) least),
          more.sorted,
        );
        due = (due, more.due);
        all = Perm.trans parts (Perm.cons (first_of e es) more.all);
        later = more.later;
        cached = more.cached;
        bounds = λ n b. (
          IsBelow-member n (e ∷ es) i (first_of e es) f.found b,
          more.bounds n (swap_remove-IsBelow n i (e ∷ es) b),
        );
      }

  IsServed-none :
      (fuel now : ℕ) (s : Scheduler) (w : W)
      → s.next ≡ earliest_cycle no_scheduled_event s.events
      → leb s.next now ≡ false
      → IsServed now s.events w (service plain (suc fuel) now (s, w))
  IsServed-none fuel now s w c idle = record {
    fired = [];
    left = s;
    returns = service_idle fuel now s w idle;
    sorted = tt;
    due = tt;
    all = Perm.refl s.events;
    later = ground arith;
    cached = c;
    bounds = λ n b. tt;
  }

  IsServed-table :
      (fuel now next : ℕ) (es : List Event) (w : W)
      → next ≡ earliest_cycle no_scheduled_event es
      → now < no_scheduled_event
      → length es < fuel
      → IsServed now es w (service plain fuel now (record { events = es; next = next }, w))
  IsServed-table zero now next es w c p q = absurd (omega arith)
  IsServed-table (suc fuel) now next [] w c p q =
      IsServed-none fuel now (record { events = []; next = next }) w c
        (unfold earliest_cycle in ground (arith, c))
  IsServed-table (suc fuel) now next (e ∷ es) w c p q = elim (Bool-cases (leb next now)) [
    | inr idle ↦ IsServed-none fuel now (record { events = e ∷ es; next = next }) w c idle
    | inl ready ↦
        let f = found_first e es in
        let due : (first_of e es).cycle ≤ now =
          below-le (first_of e es).cycle now no_scheduled_event (e ∷ es) (f.least, f.below)
            (rw (← c) (leb→le next now ready)) p in
        let fewer =
          length-swap_remove (e ∷ es) (earliest_from e 0 1 es).1 (first_of e es) f.found in
        let more =
          IsServed-table fuel now (earliest_cycle no_scheduled_event (rest_of e es)) (rest_of e es)
            (act (first_of e es) w) refl p (omega arith) in
        IsServed-more fuel now next e es w ready due more
  ]

  -- A pass of `service` with fuel beyond the table's size, over devices that ask the scheduler for
  -- nothing: it ends; the events it runs are those that are due, once each and in the order of their
  -- cycles; together with the table it leaves they are the table it was given; and what it leaves is
  -- due later, with the cached cycle right.
  pub service-IsServed :
      (fuel now : ℕ) (s : Scheduler) (w : W)
      → s.next ≡ earliest_cycle no_scheduled_event s.events
      → now < no_scheduled_event
      → length s.events < fuel
      → IsServed now s.events w (service plain fuel now (s, w))
  service-IsServed fuel now s w c p q = IsServed-table fuel now s.next s.events w c p q
