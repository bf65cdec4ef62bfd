-- ===== src/Scheduler/Table.antt =====
-- The table's invariant and what `schedule` does to it.
use ceres_vm.Prelude.{
  ℕ, ◌≤◌, ◌<◌, ◌≡◌, refl, true, false, ◌&&◌, ◌⊎◌, inl, inr, List, [], ◌∷◌, ◌++◌, arith,
}
use ceres_vm.Prelude.Tests.{ltb, ◌==◌, if◌then◌else◌, Bool-cases}
use ceres_vm.Prelude.Lists.{length, length-append}
use ceres_vm.Scheduler.{
  Event, Scheduler, no_scheduled_event, max_events, matches, earliest_cycle, recompute_next,
  has_event, move_event, schedule, cycle_of,
}

-- At most one event for a key.
abbrev pub IsDistinct : List Event → Type 0
IsDistinct [] = Unit
IsDistinct (e ∷ es) = (has_event e.device e.tag es ≡ false) × IsDistinct es

-- Every cycle is a 64-bit number.
abbrev pub IsInRange : List Event → Type 0
IsInRange [] = Unit
IsInRange (e ∷ es) = (e.cycle ≤ no_scheduled_event) × IsInRange es

pub record IsValid (s : Scheduler) : Type 0 where
  pub cached : s.next ≡ earliest_cycle no_scheduled_event s.events
  pub fits : length s.events ≤ max_events
  pub distinct : IsDistinct s.events
  pub in_range : IsInRange s.events

-- `n` is a lower bound of the cycles.
abbrev pub IsBelow : ℕ → List Event → Type 0
IsBelow n [] = Unit
IsBelow n (e ∷ es) = (n ≤ e.cycle) × IsBelow n es

pub earliest_cycle-le : (n : ℕ) (es : List Event) → earliest_cycle n es ≤ n
unfolding earliest_cycle
earliest_cycle-le n [] = omega arith
earliest_cycle-le n (e ∷ es) = ground (arith, earliest_cycle-le n es, earliest_cycle-le e.cycle es)

IsBelow-le : (n k : ℕ) (es : List Event) → n ≤ k → IsBelow k es → IsBelow n es
IsBelow-le n k [] p h = tt
IsBelow-le n k (e ∷ es) p h = (omega arith, IsBelow-le n k es p h.1)

pub earliest_cycle-IsBelow : (n : ℕ) (es : List Event) → IsBelow (earliest_cycle n es) es
unfolding earliest_cycle
earliest_cycle-IsBelow n [] = tt
earliest_cycle-IsBelow n (e ∷ es) = (
  ground (arith, earliest_cycle-le n es, earliest_cycle-le e.cycle es),
  earliest_cycle-IsBelow (if ltb e.cycle n then e.cycle else n) es,
)

earliest_cycle-append :
    (n : ℕ) (es : List Event) (e : Event)
    → earliest_cycle n (es ++ e ∷ [])
      ≡ (if ltb e.cycle (earliest_cycle n es) then e.cycle else earliest_cycle n es)
unfolding earliest_cycle
earliest_cycle-append n [] e = refl
earliest_cycle-append n (x ∷ xs) e =
    earliest_cycle-append (if ltb x.cycle n then x.cycle else n) xs e

has_event-append :
    (d t : ℕ) (es : List Event) (e : Event)
    → has_event d t (es ++ e ∷ []) ≡ (if has_event d t es then true else matches d t e)
unfolding has_event
has_event-append d t [] e = ground arith
has_event-append d t (x ∷ xs) e = ground (arith, has_event-append d t xs e)

IsDistinct-append :
    (es : List Event) (e : Event)
    → IsDistinct es
    → has_event e.device e.tag es ≡ false
    → IsDistinct (es ++ e ∷ [])
unfolding has_event
IsDistinct-append [] e d h = (refl, tt)
IsDistinct-append (x ∷ xs) e d h = (
  ground (arith, has_event-append x.device x.tag xs e),
  IsDistinct-append xs e d.1 (ground arith),
)

IsInRange-append :
    (es : List Event) (e : Event)
    → IsInRange es
    → e.cycle ≤ no_scheduled_event
    → IsInRange (es ++ e ∷ [])
IsInRange-append [] e r h = (h, tt)
IsInRange-append (x ∷ xs) e r h = (r.0, IsInRange-append xs e r.1 h)

has_event-move :
    (d t c d' t' : ℕ) (es : List Event) → has_event d' t' (move_event d t c es) ≡ has_event d' t' es
unfolding has_event move_event
has_event-move d t c d' t' [] = refl
has_event-move d t c d' t' (x ∷ xs) = ground (arith, has_event-move d t c d' t' xs)

module _ (d t c : ℕ) (fits : c ≤ no_scheduled_event) where
  move_event-IsDistinct : (es : List Event) → IsDistinct es → IsDistinct (move_event d t c es)
  unfolding move_event
  move_event-IsDistinct [] h = tt
  move_event-IsDistinct (x ∷ xs) h = elim (Bool-cases (matches d t x)) [
    | inl e ↦ rw e h
    | inr e ↦ rw e (rw (has_event-move d t c x.device x.tag xs) h.0, move_event-IsDistinct xs h.1)
  ]

  move_event-IsInRange : (es : List Event) → IsInRange es → IsInRange (move_event d t c es)
  unfolding move_event
  move_event-IsInRange [] h = tt
  move_event-IsInRange (x ∷ xs) h = elim (Bool-cases (matches d t x)) [
    | inl e ↦ rw e (fits, h.1)
    | inr e ↦ rw e (h.0, move_event-IsInRange xs h.1)
  ]

  length-move_event : (es : List Event) → length (move_event d t c es) ≡ length es
  unfolding move_event
  length-move_event [] = refl
  length-move_event (x ∷ xs) = ground (arith, length-move_event xs)

  -- `schedule` keeps the table valid: the cached cycle, the bound on its size and one event for each
  -- key of a device.
  pub schedule-IsValid : (s : Scheduler) → IsValid s → IsValid (schedule d c t s)
  unfolding schedule recompute_next
  schedule-IsValid s v = elim (Bool-cases (has_event d t s.events)) [
    | inl present ↦ rw present (record {
      cached = refl;
      fits = rw length-move_event v.fits;
      distinct = move_event-IsDistinct s.events v.distinct;
      in_range = move_event-IsInRange s.events v.in_range;
    })
    | inr absent ↦ rw absent (elim (Bool-cases (length s.events == max_events)) [
      | inl full ↦ rw full v
      | inr room ↦ rw room (record {
        cached = ground (arith, v.cached, earliest_cycle-append no_scheduled_event s.events new);
        fits = ground (arith, length-append s.events (new ∷ []), v.fits);
        distinct = IsDistinct-append s.events new v.distinct absent;
        in_range = IsInRange-append s.events new v.in_range fits;
      })
    ])
  ]
    where
      new : Event
      new = record { device = d; cycle = c; tag = t }

cycle_of-move :
    (d t c d' t' : ℕ) (es : List Event)
    → has_event d t es ≡ true
    → cycle_of d' t' (move_event d t c es) ≡ (if d == d' && t == t' then c else cycle_of d' t' es)
unfolding cycle_of move_event has_event
cycle_of-move d t c d' t' [] h = cc
cycle_of-move d t c d' t' (x ∷ xs) h = ground (arith, cycle_of-move d t c d' t' xs)

cycle_of-append :
    (d t : ℕ) (es : List Event) (e : Event)
    → cycle_of d t (es ++ e ∷ []) ≡ (
        if has_event d t es
        then cycle_of d t es
        else if matches d t e
        then e.cycle
        else no_scheduled_event)
unfolding cycle_of has_event
cycle_of-append d t [] e = refl
cycle_of-append d t (x ∷ xs) e = ground (arith, cycle_of-append d t xs e)

pub cycle_of_absent :
    (d t : ℕ) (es : List Event) → has_event d t es ≡ false → cycle_of d t es ≡ no_scheduled_event
unfolding cycle_of has_event
cycle_of_absent d t [] h = refl
cycle_of_absent d t (x ∷ xs) h = ground (arith, cycle_of_absent d t xs)

-- `schedule` adds no key of another device and takes none.
pub has_event-schedule :
    (d c t d' t' : ℕ) (s : Scheduler)
    → (d == d') ≡ false
    → has_event d' t' (schedule d c t s).events ≡ has_event d' t' s.events
unfolding schedule recompute_next
has_event-schedule d c t d' t' s other = elim (Bool-cases (has_event d t s.events)) [
  | inl present ↦ rw present (has_event-move d t c d' t' s.events)
  | inr absent ↦ rw absent (elim (Bool-cases (length s.events == max_events)) [
    | inl full ↦ rw full refl
    | inr room ↦ rw room (
        ground (
          arith,
          other,
          has_event-append d' t' s.events (record { device = d; cycle = c; tag = t }),
        ))
  ])
]

-- After `schedule`, the event of the key is due at the new cycle and every other event when it was,
-- as long as the key was there or the table had room.
pub cycle_of-schedule :
    (d c t d' t' : ℕ) (s : Scheduler)
    → (has_event d t s.events ≡ true) ⊎ (length s.events < max_events)
    → cycle_of d' t' (schedule d c t s).events
      ≡ (if d == d' && t == t' then c else cycle_of d' t' s.events)
unfolding schedule recompute_next
cycle_of-schedule d c t d' t' s h = elim (Bool-cases (has_event d t s.events)) [
  | inl present ↦ rw present (cycle_of-move d t c d' t' s.events present)
  | inr absent ↦ rw absent (
      ground (
        arith,
        absent,
        cycle_of-append d' t' s.events (record { device = d; cycle = c; tag = t }),
        cycle_of_absent d' t' s.events,
      ))
]
