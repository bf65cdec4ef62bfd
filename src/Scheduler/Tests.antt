-- ===== src/Scheduler/Tests.antt =====
-- A table of three events of two devices.
use ceres_vm.Prelude.{ℕ, ◌≡◌, false, ◌&&◌, some, refl, List, [], ◌∷◌, inr, arith}
use ceres_vm.Prelude.Tests.{◌==◌, if◌then◌else◌}
use ceres_vm.Scheduler.{
  Event, Scheduler, no_scheduled_event, schedule, cancel, cancel_all, cycle_of, service,
  earliest_cycle, has_event, recompute_next, earliest_from, swap_remove,
}
use ceres_vm.Scheduler.Table.{IsValid, schedule-IsValid, cycle_of-schedule}
use ceres_vm.Scheduler.Cancel.{cancel_lem, cancel_all_lem}
use ceres_vm.Scheduler.Service.{IsServed, plain, service-IsServed}

abbrev at : ℕ → ℕ → ℕ → Event
at d c t = record { device = d; cycle = c; tag = t }

abbrev three : Scheduler
three = record { events = at 1 30 0 ∷ at 2 10 0 ∷ at 1 20 1 ∷ []; next = 10 }

three-IsValid : IsValid three
unfolding earliest_cycle has_event
three-IsValid = record {
  cached = refl;
  fits = omega arith;
  distinct = (refl, (refl, (refl, tt)));
  in_range = (omega arith, (omega arith, (omega arith, tt)));
}

-- The devices' state is the log of the tags, the latest first.
abbrev log : Event → List ℕ → List ℕ
log e l = e.cycle ∷ l

serves :
    service (plain log) 9 25 (three, [])
    ≡ some (record { events = at 1 30 0 ∷ []; next = 30 }, 20 ∷ 10 ∷ [])
unfolding service recompute_next earliest_from swap_remove earliest_cycle
serves = refl

service-IsServed_example : IsServed log 25 three.events [] (service (plain log) 9 25 (three, []))
service-IsServed_example =
    service-IsServed log 9 25 three [] three-IsValid.cached (omega arith) (omega arith)

schedule-IsValid_example : IsValid (schedule 2 40 3 three)
schedule-IsValid_example = schedule-IsValid 2 3 40 (omega arith) three three-IsValid

cycle_of-schedule_example :
    cycle_of 1 0 (schedule 2 40 3 three).events
    ≡ (if 2 == 1 && 3 == 0 then 40 else cycle_of 1 0 three.events)
cycle_of-schedule_example = cycle_of-schedule 2 40 3 1 0 three (inr (omega arith))

cancel_all_lem_example :
    IsValid (cancel_all 1 three)
    × ((d' t' : ℕ)
        → cycle_of d' t' (cancel_all 1 three).events
          ≡ (if 1 == d' then no_scheduled_event else cycle_of d' t' three.events))
    × ((d' t' : ℕ)
        → has_event d' t' (cancel_all 1 three).events
          ≡ (if 1 == d' then false else has_event d' t' three.events))
cancel_all_lem_example = cancel_all_lem 1 three three-IsValid

cancel_lem_example :
    IsValid (cancel 1 0 three)
    × ((d' t' : ℕ)
        → has_event d' t' (cancel 1 0 three).events
          ≡ (if 1 == d' && 0 == t' then false else has_event d' t' three.events))
    × ((d' t' : ℕ)
        → cycle_of d' t' (cancel 1 0 three).events
          ≡ (if 1 == d' && 0 == t' then no_scheduled_event else cycle_of d' t' three.events))
cancel_lem_example = cancel_lem 1 0 three three-IsValid
