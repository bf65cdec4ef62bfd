-- ===== src/Scheduler/Cancel.antt =====
-- `cancel` and `cancelAll`: removal by the table's last event, as a client of the keys sees it.
use ceres_vm.Prelude.{
  ℕ, zero, suc, ◌≤◌, ◌≡◌, refl, ap, true, false, ◌&&◌, inl, inr, List, [], ◌∷◌, arith,
}
use ceres_vm.Prelude.Tests.{◌==◌, if◌then◌else◌, Bool-cases}
use ceres_vm.Prelude.Lists.{length}
use ceres_vm.Scheduler.{
  Event, Scheduler, no_scheduled_event, matches, recompute_next, has_event, cycle_of, last_of,
  all_but_last, replace_by_last, remove_event, remove_device, cancel, cancel_all,
}
use ceres_vm.Scheduler.Table.{IsDistinct, IsInRange, IsValid, cycle_of_absent}

-- A key is in no other event of a table that has it at its head.
other_key :
    (d t : ℕ) (x : Event) (es : List Event)
    → matches d t x ≡ true
    → has_event x.device x.tag es ≡ false
    → has_event d t es ≡ false
other_key d t x es m h =
    let dev : x.device ≡ d = ground arith in let tag : x.tag ≡ t = ground arith in cc

-- A key in the table after its last event has moved to the front.
module _ (d t : ℕ) where
  has_event-last :
      (x : Event) (xs : List Event)
      → has_event d t (x ∷ xs)
        ≡ (if matches d t (last_of x xs) then true else has_event d t (all_but_last x xs))
  unfolding has_event last_of all_but_last
  has_event-last x [] = ground arith
  has_event-last x (y ∷ ys) = ground (arith, has_event-last y ys)

  pub has_event-replace : (es : List Event) → has_event d t (replace_by_last es) ≡ has_event d t es
  unfolding has_event replace_by_last
  has_event-replace [] = refl
  has_event-replace (x ∷ xs) = ground (arith, has_event-last x xs)

  cycle_of-last :
      (x : Event) (xs : List Event)
      → IsDistinct (x ∷ xs)
      → cycle_of d t (x ∷ xs) ≡ (
          if matches d t (last_of x xs)
          then (last_of x xs).cycle
          else cycle_of d t (all_but_last x xs))
  unfolding cycle_of last_of all_but_last
  cycle_of-last x [] h = ground arith
  cycle_of-last x (y ∷ ys) h =
      ground (arith, cycle_of-last y ys h.1, other_key d t x (y ∷ ys), h.0, has_event-last y ys)

  pub cycle_of-replace :
      (es : List Event) → IsDistinct es → cycle_of d t (replace_by_last es) ≡ cycle_of d t es
  unfolding cycle_of replace_by_last
  cycle_of-replace [] h = refl
  cycle_of-replace (x ∷ xs) h = ground (arith, cycle_of-last x xs h)

all_but_last-IsDistinct :
    (x : Event) (xs : List Event) → IsDistinct (x ∷ xs) → IsDistinct (all_but_last x xs)
unfolding all_but_last
all_but_last-IsDistinct x [] h = tt
all_but_last-IsDistinct x (y ∷ ys) h =
    (ground (arith, h.0, has_event-last x.device x.tag y ys), all_but_last-IsDistinct y ys h.1)

last_of-apart :
    (x : Event) (xs : List Event)
    → IsDistinct (x ∷ xs)
    → has_event (last_of x xs).device (last_of x xs).tag (all_but_last x xs) ≡ false
unfolding last_of all_but_last has_event
last_of-apart x [] h = refl
last_of-apart x (y ∷ ys) h =
    ground (arith, h.0, last_of-apart y ys h.1, has_event-last x.device x.tag y ys)

pub replace_by_last-IsDistinct : (es : List Event) → IsDistinct es → IsDistinct (replace_by_last es)
unfolding replace_by_last
replace_by_last-IsDistinct [] h = tt
replace_by_last-IsDistinct (x ∷ xs) h = (last_of-apart x xs h, all_but_last-IsDistinct x xs h)

pub length-replace : (es : List Event) → length (replace_by_last es) ≡ length es
unfolding replace_by_last
length-replace [] = refl
length-replace (x ∷ xs) = ap suc (go x xs)
  where
    go : (y : Event) (ys : List Event) → length (all_but_last y ys) ≡ length ys
    go y [] = refl
    go y (z ∷ zs) = ap suc (go z zs)

module _ (d t : ℕ) where
  has_event-remove :
      (d' t' : ℕ) (es : List Event)
      → IsDistinct es
      → has_event d' t' (remove_event d t es)
        ≡ (if d == d' && t == t' then false else has_event d' t' es)
  unfolding has_event remove_event
  has_event-remove d' t' [] h = ground arith
  has_event-remove d' t' (x ∷ xs) h = ground (
    arith,
    has_event-remove d' t' xs h.1,
    has_event-replace d' t' xs,
    other_key d t x xs,
    h.0,
    other_key d' t' x xs,
  )

  cycle_of-remove :
      (d' t' : ℕ) (es : List Event)
      → IsDistinct es
      → cycle_of d' t' (remove_event d t es)
        ≡ (if d == d' && t == t' then no_scheduled_event else cycle_of d' t' es)
  unfolding cycle_of remove_event
  cycle_of-remove d' t' [] h = ground arith
  cycle_of-remove d' t' (x ∷ xs) h = ground (
    arith,
    cycle_of-remove d' t' xs h.1,
    cycle_of-replace d' t' xs h.1,
    other_key d' t' x xs,
    h.0,
    cycle_of_absent d' t' xs,
  )

  remove_event-IsDistinct : (es : List Event) → IsDistinct es → IsDistinct (remove_event d t es)
  unfolding remove_event
  remove_event-IsDistinct [] h = tt
  remove_event-IsDistinct (x ∷ xs) h = elim (Bool-cases (matches d t x)) [
    | inl e ↦ rw e (replace_by_last-IsDistinct xs h.1)
    | inr e ↦ rw e (
      rw (has_event-remove x.device x.tag xs h.1) (ground (arith, h.0)),
      remove_event-IsDistinct xs h.1,
    )
  ]

  length-remove_event : (es : List Event) → length (remove_event d t es) ≤ length es
  unfolding remove_event
  length-remove_event [] = omega arith
  length-remove_event (x ∷ xs) = ground (arith, length-remove_event xs, length-replace xs)

  -- A key's cycle after `cancel` of the same or of another key.
  cycle_of-cancel :
      (d' t' : ℕ) (s : Scheduler)
      → IsValid s
      → cycle_of d' t' (cancel d t s).events
        ≡ (if d == d' && t == t' then no_scheduled_event else cycle_of d' t' s.events)
  unfolding cancel recompute_next
  cycle_of-cancel d' t' s v = elim (Bool-cases (has_event d t s.events)) [
    | inl present ↦ rw present (cycle_of-remove d' t' s.events v.distinct)
    | inr absent ↦ rw absent (ground (arith, absent, cycle_of_absent d' t' s.events))
  ]

  -- Which keys are left after `cancel`.
  pub has_event-cancel :
      (d' t' : ℕ) (s : Scheduler)
      → IsValid s
      → has_event d' t' (cancel d t s).events
        ≡ (if d == d' && t == t' then false else has_event d' t' s.events)
  unfolding cancel recompute_next
  has_event-cancel d' t' s v = elim (Bool-cases (has_event d t s.events)) [
    | inl present ↦ rw present (has_event-remove d' t' s.events v.distinct)
    | inr absent ↦ rw absent (elim (Bool-cases (d == d' && t == t')) [
      | inl here ↦
          let dev : d ≡ d' = ground (arith, here) in
          let tag : t ≡ t' = ground (arith, here) in rw (here, ← dev, ← tag) absent
      | inr other ↦ rw other refl
    ])
  ]

all_but_last-IsInRange :
    (x : Event) (xs : List Event)
    → IsInRange (x ∷ xs)
    → ((last_of x xs).cycle ≤ no_scheduled_event) × IsInRange (all_but_last x xs)
unfolding last_of all_but_last
all_but_last-IsInRange x [] h = (h.0, tt)
all_but_last-IsInRange x (y ∷ ys) h = let r = all_but_last-IsInRange y ys h.1 in (r.0, (h.0, r.1))

pub replace_by_last-IsInRange : (es : List Event) → IsInRange es → IsInRange (replace_by_last es)
unfolding replace_by_last
replace_by_last-IsInRange [] h = tt
replace_by_last-IsInRange (x ∷ xs) h = all_but_last-IsInRange x xs h

remove_event-IsInRange :
    (d t : ℕ) (es : List Event) → IsInRange es → IsInRange (remove_event d t es)
unfolding remove_event
remove_event-IsInRange d t [] h = tt
remove_event-IsInRange d t (x ∷ xs) h = elim (Bool-cases (matches d t x)) [
  | inl e ↦ rw e (replace_by_last-IsInRange xs h.1)
  | inr e ↦ rw e (h.0, remove_event-IsInRange d t xs h.1)
]

-- What the tables before and after dropping a device's events have to do with one another.
record IsDropped (d : ℕ) (before after : List Event) : Type 0 where
  pub fits : length after ≤ length before
  pub distinct : IsDistinct after
  pub in_range : IsInRange after
  pub keys :
      (d' t' : ℕ) → has_event d' t' after ≡ (if d == d' then false else has_event d' t' before)
  pub cycles :
      (d' t' : ℕ)
      → cycle_of d' t' after ≡ (if d == d' then no_scheduled_event else cycle_of d' t' before)

IsDropped-head :
    (d : ℕ) (x : Event) (xs after : List Event)
    → (x.device == d) ≡ true
    → IsDistinct (x ∷ xs)
    → IsDropped d (replace_by_last xs) after
    → IsDropped d (x ∷ xs) after
IsDropped-head d x xs after e h rest = record {
  fits = omega (arith, rest.fits, length-replace xs);
  distinct = rest.distinct;
  in_range = rest.in_range;
  keys = λ d' t'. unfold has_event in ground (arith, rest.keys d' t', has_event-replace d' t' xs);
  cycles =
      λ d' t'. unfold cycle_of in ground (arith, rest.cycles d' t', cycle_of-replace d' t' xs h.1);
}

kept_head :
    (d : ℕ) (x : Event) (xs after : List Event)
    → (x.device == d) ≡ false
    → IsDistinct (x ∷ xs)
    → x.cycle ≤ no_scheduled_event
    → IsDropped d xs after
    → IsDropped d (x ∷ xs) (x ∷ after)
kept_head d x xs after e h c rest = record {
  fits = omega (arith, rest.fits);
  distinct = (ground (arith, rest.keys x.device x.tag, h.0), rest.distinct);
  in_range = (c, rest.in_range);
  keys = λ d' t'. unfold has_event in ground (arith, rest.keys d' t');
  cycles = λ d' t'. unfold cycle_of in ground (arith, rest.cycles d' t');
}

remove_device-cons :
    (d fuel : ℕ) (x : Event) (xs : List Event)
    → remove_device d (suc fuel) (x ∷ xs) ≡ (
        if x.device == d
        then remove_device d fuel (replace_by_last xs)
        else x ∷ remove_device d fuel xs)
unfolding remove_device
remove_device-cons d fuel x xs = ground arith

remove_device-IsDropped :
    (d fuel : ℕ) (es : List Event)
    → length es ≤ fuel
    → IsDistinct es
    → IsInRange es
    → IsDropped d es (remove_device d fuel es)
remove_device-IsDropped d zero [] p h r =
    unfold remove_device in
    record {
      fits = omega arith;
      distinct = tt;
      in_range = tt;
      keys = λ d' t'. unfold has_event in ground arith;
      cycles = λ d' t'. unfold cycle_of in ground arith;
    }
remove_device-IsDropped d zero (x ∷ xs) p h r = absurd (omega arith)
remove_device-IsDropped d (suc fuel) [] p h r =
    unfold remove_device in
    record {
      fits = omega arith;
      distinct = tt;
      in_range = tt;
      keys = λ d' t'. unfold has_event in ground arith;
      cycles = λ d' t'. unfold cycle_of in ground arith;
    }
remove_device-IsDropped d (suc fuel) (x ∷ xs) p h r = elim (Bool-cases (x.device == d)) [
  | inl e ↦
      let n = length-replace xs in
      let rest =
        remove_device-IsDropped d fuel (replace_by_last xs) (omega arith)
          (replace_by_last-IsDistinct xs h.1) (replace_by_last-IsInRange xs r.1) in
      rw (remove_device-cons, e)
        (IsDropped-head d x xs (remove_device d fuel (replace_by_last xs)) e h rest)
  | inr e ↦
      let rest = remove_device-IsDropped d fuel xs (omega arith) h.1 r.1 in
      rw (remove_device-cons, e) (kept_head d x xs (remove_device d fuel xs) e h r.0 rest)
]

-- `cancelAll`, for a device that is detached, in a valid table: no entry of the table is the device's any
-- more, the keys of other devices are those that were there and are due when they were, and the table
-- stays valid.
pub cancel_all_lem :
    (d : ℕ) (s : Scheduler)
    → IsValid s
    → IsValid (cancel_all d s)
      × ((d' t' : ℕ)
          → cycle_of d' t' (cancel_all d s).events
            ≡ (if d == d' then no_scheduled_event else cycle_of d' t' s.events))
      × ((d' t' : ℕ)
          → has_event d' t' (cancel_all d s).events
            ≡ (if d == d' then false else has_event d' t' s.events))
unfolding cancel_all recompute_next
cancel_all_lem d s v =
    let dropped =
      remove_device-IsDropped d (length s.events) s.events (omega arith) v.distinct v.in_range in
    let within = v.fits in
    (
      record {
        cached = refl;
        fits = omega (arith, dropped.fits);
        distinct = dropped.distinct;
        in_range = dropped.in_range;
      },
      dropped.cycles,
      dropped.keys,
    )

-- `cancel` keeps the table valid.
pub cancel-IsValid : (d t : ℕ) (s : Scheduler) → IsValid s → IsValid (cancel d t s)
unfolding cancel recompute_next
cancel-IsValid d t s v = elim (Bool-cases (has_event d t s.events)) [
  | inl present ↦ rw present (record {
    cached = refl;
    fits = omega (arith, v.fits, length-remove_event d t s.events);
    distinct = remove_event-IsDistinct d t s.events v.distinct;
    in_range = remove_event-IsInRange d t s.events v.in_range;
  })
  | inr absent ↦ rw absent v
]

-- `cancel` in a valid table: it takes the key's one event out and no other, every other key is due when it
-- was, though the table's last event takes the freed place, and the table stays valid; a key that has no
-- event changes nothing of this.
pub cancel_lem :
    (d t : ℕ) (s : Scheduler)
    → IsValid s
    → IsValid (cancel d t s)
      × ((d' t' : ℕ)
          → has_event d' t' (cancel d t s).events
            ≡ (if d == d' && t == t' then false else has_event d' t' s.events))
      × ((d' t' : ℕ)
          → cycle_of d' t' (cancel d t s).events
            ≡ (if d == d' && t == t' then no_scheduled_event else cycle_of d' t' s.events))
cancel_lem d t s v = (
  cancel-IsValid d t s v,
  λ d' t'. has_event-cancel d t d' t' s v,
  λ d' t'. cycle_of-cancel d t d' t' s v,
)
