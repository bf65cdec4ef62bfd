-- ===== src/Scheduler.antt =====
-- The event scheduler (Ceres/libs/vm/include/ceres/vm/scheduler.h and Ceres/libs/vm/src/scheduler.cpp).
-- The live prefix of the array `_events` is a list, `_next` is the cached earliest cycle, and a device
-- is known by a number in place of its address.
pub mod Table
pub mod Cancel
pub mod Service
pub mod Restored
mod Tests
use ceres_vm.Prelude.{
  ℕ, zero, suc, ◌+◌, ◌-◌, ◌^◌, Bool, true, false, ◌&&◌, Option, none, some, List, [], ◌∷◌, ◌++◌,
}
use ceres_vm.Prelude.Tests.{ltb, leb, ◌==◌, if◌then◌else◌}
use ceres_vm.Prelude.Lists.{length, take}

pub record Event : Type 0 where
  pub device : ℕ
  pub cycle : ℕ
  pub tag : ℕ

-- `NoScheduledEvent`
abbrev pub no_scheduled_event : ℕ
no_scheduled_event = 2 ^ 64 - 1

abbrev pub max_events : ℕ
max_events = 64

pub record Scheduler : Type 0 where
  pub events : List Event
  pub next : ℕ

-- `_events[i].device == &device && _events[i].tag == tag`
abbrev pub matches : ℕ → ℕ → Event → Bool
matches device tag e = e.device == device && e.tag == tag

-- The loop of `recomputeNext`.
unfoldable pub earliest_cycle : ℕ → List Event → ℕ
earliest_cycle next [] = next
earliest_cycle next (e ∷ es) = earliest_cycle (if ltb e.cycle next then e.cycle else next) es

unfoldable pub recompute_next : List Event → Scheduler
recompute_next es = record { events = es; next = earliest_cycle no_scheduled_event es }

unfoldable pub has_event : ℕ → ℕ → List Event → Bool
has_event device tag [] = false
has_event device tag (e ∷ es) = if matches device tag e then true else has_event device tag es

-- The first event of the key, moved to another cycle.
unfoldable pub move_event : ℕ → ℕ → ℕ → List Event → List Event
move_event device tag cycle [] = []
move_event device tag cycle (e ∷ es) =
    if matches device tag e
    then record e { cycle = cycle } ∷ es
    else e ∷ move_event device tag cycle es

unfoldable pub schedule : ℕ → ℕ → ℕ → Scheduler → Scheduler
schedule device cycle tag s =
    if has_event device tag s.events
    then recompute_next (move_event device tag cycle s.events)
    else if length s.events == max_events
    then s
    else record {
      events = s.events ++ record { device = device; cycle = cycle; tag = tag } ∷ [];
      next = if ltb cycle s.next then cycle else s.next;
    }

-- The last element of `x ∷ xs`, and all but that one.
pub last_of : Event → List Event → Event
last_of x [] = x
last_of x (y ∷ ys) = last_of y ys

pub all_but_last : Event → List Event → List Event
all_but_last x [] = []
all_but_last x (y ∷ ys) = x ∷ all_but_last y ys

-- `_events[0] = _events[--_count]` on the list `x ∷ xs`.
unfoldable pub replace_by_last : List Event → List Event
unfolding last_of all_but_last
replace_by_last [] = []
replace_by_last (y ∷ ys) = last_of y ys ∷ all_but_last y ys

-- `_events[i] = _events[--_count]`
unfoldable pub swap_remove : ℕ → List Event → List Event
unfolding replace_by_last
swap_remove i [] = []
swap_remove zero (x ∷ xs) = replace_by_last xs
swap_remove (suc i) (x ∷ xs) = x ∷ swap_remove i xs

-- The loop of `cancel`.
unfoldable pub remove_event : ℕ → ℕ → List Event → List Event
unfolding replace_by_last
remove_event device tag [] = []
remove_event device tag (e ∷ es) =
    if matches device tag e then replace_by_last es else e ∷ remove_event device tag es

unfoldable pub cancel : ℕ → ℕ → Scheduler → Scheduler
cancel device tag s =
    if has_event device tag s.events then recompute_next (remove_event device tag s.events) else s

-- The loop of `cancelAll` from an index on: `fuel` bounds the events that are still to be looked at,
-- and an event that is moved down is looked at in its turn.
unfoldable pub remove_device : ℕ → ℕ → List Event → List Event
unfolding replace_by_last
remove_device device zero es = es
remove_device device (suc fuel) [] = []
remove_device device (suc fuel) (e ∷ es) = elim (e.device == device) [
  | true ↦ remove_device device fuel (replace_by_last es)
  | false ↦ e ∷ remove_device device fuel es
]

unfoldable pub cancel_all : ℕ → Scheduler → Scheduler
cancel_all device s = recompute_next (remove_device device (length s.events) s.events)

unfoldable pub cycle_of : ℕ → ℕ → List Event → ℕ
cycle_of device tag [] = no_scheduled_event
cycle_of device tag (e ∷ es) = if matches device tag e then e.cycle else cycle_of device tag es

unfoldable pub restore_events : List Event → Scheduler
restore_events es = recompute_next (take max_events es)

-- The search of `service`: `best` is the earliest so far and `at` its index, `i` the index of the next.
unfoldable pub earliest_from : Event → ℕ → ℕ → List Event → Event × ℕ
earliest_from best at i [] = (best, at)
earliest_from best at i (e ∷ es) =
    earliest_from (if ltb e.cycle best.cycle then e else best)
      (if ltb e.cycle best.cycle then i else at) (i + 1) es

-- `service` over the state `W` of the devices, whose `onEvent` may use the scheduler again. `none`: the
-- fuel ran out, or an event is looked for in an empty table.
module _ {W : Type 0} (on_event : Event → Scheduler × W → Scheduler × W) where
  unfoldable pub service : ℕ → ℕ → Scheduler × W → Option (Scheduler × W)
  service zero now (s, w) = none
  service (suc fuel) now (s, w) = elim (leb s.next now) [
    | false ↦ some (s, w)
    | true ↦ elim s.events [
      | [] ↦ none
      | e ∷ es ↦
          let (first, at) = earliest_from e 0 1 es in
          service fuel now (on_event first (recompute_next (swap_remove at (e ∷ es)), w))
    ]
  ]
