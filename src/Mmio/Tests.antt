-- ===== src/Mmio/Tests.antt =====
-- A bus with one device of two registers in two slots.
use ceres_vm.Prelude.{
  ℕ, ◌+◌, ◌*◌, ◌<◌, ◌≡◌, refl, true, false, some, none, not, ◌&&◌, List, [], ◌∷◌, arith,
}
use ceres_vm.Prelude.Tests.{◌==◌, if◌then◌else◌}
use ceres_vm.Scheduler.{Event, restore_events, schedule, cycle_of, has_event, no_scheduled_event}
use ceres_vm.Mmio.{
  MmioBus, IoDevices, attach_at, attach_range, attach_from, read, mmio_start, slot_size, find,
  found_below, max_devices, detach, slot_of, slot, reset_devices,
}
use ceres_vm.Mmio.Slots.{IsWired}
use ceres_vm.Mmio.Reached.{
  IsReached, made, attached_range, scheduled, restored, new_bus, reached-IsWired, read_lem,
  detach_lem,
}
use ceres_vm.Mmio.Resets.{IsOwn, reset_devices-once}

-- The state counts the resets of each device.
abbrev counting : IoDevices (ℕ → ℕ)
counting = record {
  registers = λ d. 0 ∷ 4 ∷ [];
  read = λ d offset s. (offset + 7, s);
  write = λ d offset v s. s;
  reset = λ d s x. if d == x then s x + 1 else s x;
}

abbrev two_slots : MmioBus
two_slots = attach_range counting (slot 5) (slot 6) 9 new_bus

abbrev busy : MmioBus
busy = record two_slots { scheduler = schedule 9 100 0 two_slots.scheduler }

two_slots-IsReached : IsReached counting two_slots
two_slots-IsReached = attached_range (slot 5) (slot 6) 9 made

linked_device : two_slots.connected 9 ≡ true
unfolding attach_range attach_from attach_at
linked_device = refl

busy-IsReached : IsReached counting busy
busy-IsReached = scheduled 9 100 0 linked_device (omega arith) two_slots-IsReached

-- The same bus once a saved table with another cycle is put back.
abbrev saved : List Event
saved = record { device = 9; cycle = 70; tag = 1 } ∷ []

known_device : (d t : ℕ) → busy.connected d ≡ false → has_event d t saved ≡ false
unfolding attach_range attach_from attach_at has_event
known_device d t h = ground (arith, h)

reloaded-IsReached : IsReached counting (record busy { scheduler = restore_events saved })
unfolding has_event
reloaded-IsReached = restored saved (refl, tt) (omega arith, tt) known_device busy-IsReached

reached-IsWired_example : IsWired counting (record busy { scheduler = restore_events saved })
reached-IsWired_example = reached-IsWired counting reloaded-IsReached

abbrev still : ℕ → ℕ
still x = 0

read_lem_example :
    read counting (mmio_start + 6 * slot_size + 4 * 1) busy still ≡ elim (busy.devices 6) [
      | none ↦ (0xFFFF_FFFF, still)
      | some d ↦
          if find (4 * 1) (counting.registers d) then counting.read d (4 * 1) still else (0, still)
    ]
read_lem_example = read_lem counting 6 1 still busy-IsReached (omega arith) (omega arith)

taken : busy.devices (slot_of (slot 5)) ≡ some 9
unfolding attach_range attach_from attach_at
taken = refl

detach_lem_example :
    ((i : ℕ)
      → (detach (slot 5) busy).devices i ≡ (if i == slot_of (slot 5) then none else busy.devices i))
    × ((i : ℕ)
        → (detach (slot 5) busy).declared i
          ≡ (if i == slot_of (slot 5) then 0 else busy.declared i))
    × ((k : ℕ) (s : ℕ → ℕ)
        → slot_of (slot 5) < max_devices
        → 4 * k < slot_size
        → read counting (mmio_start + slot_of (slot 5) * slot_size + 4 * k) (detach (slot 5) busy) s
          ≡ (0xFFFF_FFFF, s))
    × ((d' : ℕ)
        → (detach (slot 5) busy).connected d' ≡ (
            if (9 == d') && not (found_below max_devices 9 (detach (slot 5) busy))
            then false
            else busy.connected d'))
    × ((d' t : ℕ)
        → has_event d' t (detach (slot 5) busy).scheduler.events ≡ (
            if (9 == d') && not (found_below max_devices 9 (detach (slot 5) busy))
            then false
            else has_event d' t busy.scheduler.events))
    × ((d' t : ℕ)
        → cycle_of d' t (detach (slot 5) busy).scheduler.events ≡ (
            if (9 == d') && not (found_below max_devices 9 (detach (slot 5) busy))
            then no_scheduled_event
            else cycle_of d' t busy.scheduler.events))
detach_lem_example = detach_lem counting (slot 5) 9 busy-IsReached taken

abbrev count_of : ℕ → (ℕ → ℕ) → ℕ
count_of x s = s x

counting-IsOwn : IsOwn counting count_of (λ n. n + 1)
counting-IsOwn = record { own = λ d x s. refl }

reset_devices-once_example :
    count_of 9 (reset_devices counting busy still)
    ≡ (if found_below max_devices 9 busy then count_of 9 still + 1 else count_of 9 still)
reset_devices-once_example =
    reset_devices-once counting count_of (λ n. n + 1) counting-IsOwn 9 busy still
