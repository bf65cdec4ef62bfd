-- ===== src/Scheduler/Restored.antt =====
-- `restoreEvents`: the table that a saved list of events makes.
use ceres_vm.Prelude.{ℕ, zero, suc, ◌≡◌, refl, false, List, [], ◌∷◌, arith}
use ceres_vm.Prelude.Lists.{take, length-take}
use ceres_vm.Scheduler.{Event, max_events, has_event, recompute_next, restore_events}
use ceres_vm.Scheduler.Table.{IsDistinct, IsInRange, IsValid}

has_event-take :
    (d t n : ℕ) (es : List Event) → has_event d t es ≡ false → has_event d t (take n es) ≡ false
unfolding has_event
has_event-take d t zero es h = refl
has_event-take d t (suc n) [] h = refl
has_event-take d t (suc n) (e ∷ es) h = ground (arith, has_event-take d t n es)

IsDistinct-take : (n : ℕ) (es : List Event) → IsDistinct es → IsDistinct (take n es)
IsDistinct-take zero es h = tt
IsDistinct-take (suc n) [] h = tt
IsDistinct-take (suc n) (e ∷ es) h =
    (has_event-take e.device e.tag n es h.0, IsDistinct-take n es h.1)

IsInRange-take : (n : ℕ) (es : List Event) → IsInRange es → IsInRange (take n es)
IsInRange-take zero es h = tt
IsInRange-take (suc n) [] h = tt
IsInRange-take (suc n) (e ∷ es) h = (h.0, IsInRange-take n es h.1)

-- A list with one event for each key makes a valid table, cut to its room.
pub restore_events-IsValid :
    (es : List Event) → IsDistinct es → IsInRange es → IsValid (restore_events es)
unfolding restore_events recompute_next
restore_events-IsValid es h r = record {
  cached = refl;
  fits = omega (arith, length-take max_events es);
  distinct = IsDistinct-take max_events es h;
  in_range = IsInRange-take max_events es r;
}

-- No key comes to be.
pub has_event-restore_events :
    (d t : ℕ) (es : List Event)
    → has_event d t es ≡ false
    → has_event d t (restore_events es).events ≡ false
unfolding restore_events recompute_next
has_event-restore_events d t es h = has_event-take d t max_events es h
