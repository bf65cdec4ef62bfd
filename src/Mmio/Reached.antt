-- ===== src/Mmio/Reached.antt =====
-- The states of a bus, one call after another, and what an access does in each.
use ceres_vm.Prelude.{
  ℕ, zero, suc, ◌+◌, ◌-◌, ◌*◌, ◌/◌, ◌%◌, ◌≤◌, ◌<◌, ◌≡◌, refl, sym, ap, ◌∙◌, Bool, true, false, none,
  some, inl, inr, arith, not, ◌&&◌, List, [],
}
use ceres_vm.Prelude.Tests.{◌==◌, if◌then◌else◌, Bool-cases, Option-cases}
use ceres_vm.Prelude.Words.{sub32}
use ceres_vm.Scheduler
use ceres_vm.Scheduler.{
  Event, restore_events, schedule, cancel, cycle_of, cancel_all, has_event, no_scheduled_event,
  max_events, recompute_next,
}
use ceres_vm.Scheduler.Table.{IsDistinct, IsInRange, schedule-IsValid, has_event-schedule}
use ceres_vm.Scheduler.Restored.{restore_events-IsValid, has_event-restore_events}
use ceres_vm.Scheduler.Cancel.{cancel_all_lem, cancel-IsValid, has_event-cancel}
use ceres_vm.Mmio.{
  MmioBus, IoDevices, holds_device, found_below, attach, read, attach_range, disconnect, detach,
  slot_of, set_slot, max_devices, mmio_start, slot_size, find,
}
use ceres_vm.Mmio.Masks.{declares_at-find}
use ceres_vm.Mmio.Slots.{IsWired, emptied, attach_at-IsWired, attach_from-IsWired, detach-IsWired}

-- A bus as it is made.
abbrev pub new_bus : MmioBus
new_bus = record {
  devices = λ i. none;
  declared = λ i. 0;
  connected = λ d. false;
  scheduler = record { events = []; next = no_scheduled_event };
}

module _ {S : Type 0} (io : IoDevices S) where
  -- The calls that the bus, its devices and the debugger make, in any order; a device reaches the
  -- scheduler by its pointer alone, and a saved table that is put back has one event for each key, and
  -- none of a device without its pointers.
  pub data IsReached : MmioBus → Type 0 where
    made : IsReached new_bus
    attached : (base d : ℕ) {bus : MmioBus} → IsReached bus → IsReached (attach io base d bus)
    attached_range :
        (first last d : ℕ) {bus : MmioBus}
        → IsReached bus
        → IsReached (attach_range io first last d bus)
    detached : (base : ℕ) {bus : MmioBus} → IsReached bus → IsReached (detach base bus)
    scheduled :
        (d c t : ℕ) {bus : MmioBus}
        → bus.connected d ≡ true
        → c ≤ no_scheduled_event
        → IsReached bus
        → IsReached (record bus { scheduler = schedule d c t bus.scheduler })
    cancelled :
        (d t : ℕ) {bus : MmioBus}
        → bus.connected d ≡ true
        → IsReached bus
        → IsReached (record bus { scheduler = cancel d t bus.scheduler })
    restored :
        (es : List Event) {bus : MmioBus}
        → IsDistinct es
        → IsInRange es
        → ((d t : ℕ) → bus.connected d ≡ false → has_event d t es ≡ false)
        → IsReached bus
        → IsReached (record bus { scheduler = restore_events es })

  others : (d d' : ℕ) (f : ℕ → Bool) → f d ≡ true → f d' ≡ false → (d == d') ≡ false
  others d d' f on off = elim (Bool-cases (d == d')) [
    | inl e ↦
        let same : d ≡ d' = ground (arith, e) in
        let bad : true ≡ false = sym on ∙ ap f same ∙ off in cc
    | inr e ↦ e
  ]

  -- In every state of a bus, after any calls that attach, detach, schedule, cancel and restore, a restored
  -- table having one event for each key and none of a device without its pointers (`IsReached`): the word
  -- of a slot is its device's table and zero for an empty slot, every device with a slot has its pointers,
  -- the table of events is valid, and a device without its pointers has no event in the table.
  pub reached-IsWired : {bus : MmioBus} → IsReached bus → IsWired io bus
  unfolding attach attach_range Scheduler.earliest_cycle has_event
  reached-IsWired made = record {
    masks = λ i d h. cc;
    empty = λ i h. refl;
    linked = λ i d low h. cc;
    table = record { cached = refl; fits = omega arith; distinct = tt; in_range = tt };
    silent = λ d t h. refl;
  }
  reached-IsWired (attached base d r) = attach_at-IsWired io (slot_of base) d _ (reached-IsWired r)
  reached-IsWired (attached_range first last d r) =
      attach_from-IsWired io (slot_of last + 1 - slot_of first) (slot_of first) d _
        (reached-IsWired r)
  reached-IsWired (detached base r) = detach-IsWired io base _ (reached-IsWired r)
  reached-IsWired (scheduled d c t {bus} on fits r) =
      let w = reached-IsWired r in
      record {
        masks = w.masks;
        empty = w.empty;
        linked = w.linked;
        table = schedule-IsValid d t c fits bus.scheduler w.table;
        silent = λ d' t' h.
            has_event-schedule d c t d' t' bus.scheduler (others d d' bus.connected on h)
            ∙ w.silent d' t' h;
      }
  reached-IsWired (cancelled d t {bus} on r) =
      let w = reached-IsWired r in
      record {
        masks = w.masks;
        empty = w.empty;
        linked = w.linked;
        table = cancel-IsValid d t bus.scheduler w.table;
        silent = λ d' t' h.
            has_event-cancel d t d' t' bus.scheduler w.table
            ∙ rw (others d d' bus.connected on h) (w.silent d' t' h);
      }
  reached-IsWired (restored es {bus} distinct in_range known r) =
      let w = reached-IsWired r in
      record {
        masks = w.masks;
        empty = w.empty;
        linked = w.linked;
        table = restore_events-IsValid es distinct in_range;
        silent = λ d t h. has_event-restore_events d t es (known d t h);
      }

  -- A read of an aligned register address, in every state of a bus: an empty slot gives all ones and
  -- changes nothing, an offset that the device's table does not have gives 0 and changes nothing, and
  -- one that it has is the device's to answer.
  pub read_lem :
      {bus : MmioBus} (index k : ℕ) (s : S)
      → IsReached bus
      → index < max_devices
      → 4 * k < slot_size
      → read io (mmio_start + index * slot_size + 4 * k) bus s ≡ elim (bus.devices index) [
        | none ↦ (0xFFFF_FFFF, s)
        | some d ↦ if find (4 * k) (io.registers d) then io.read d (4 * k) s else (0, s)
      ]
  unfolding read
  read_lem {bus} index k s r low offset =
      let at : sub32 (mmio_start + index * slot_size + 4 * k) mmio_start / slot_size ≡ index =
        omega (arith, low, offset) in
      let within : sub32 (mmio_start + index * slot_size + 4 * k) mmio_start % slot_size ≡ 4 * k =
        omega (arith, low, offset) in
      elim (Option-cases (bus.devices index)) [
        | inl e ↦ rw (read, at, e) refl
        | inr (d, e) ↦
            let found = declares_at-find io d index k bus ((reached-IsWired r).masks index d e) in
            rw (read, at, e, at, within, found) refl
      ]

  -- Who has a slot does not depend on the pointers and the events.
  found_below-devices :
      (left d : ℕ) (bus : MmioBus) (connected : ℕ → Bool) (scheduler : Scheduler.Scheduler)
      → found_below left d (record bus { connected = connected; scheduler = scheduler })
        ≡ found_below left d bus
  unfolding found_below
  found_below-devices zero d bus connected scheduler = refl
  found_below-devices (suc left) d bus connected scheduler =
      ap (λ b. if holds_device d (bus.devices left) then true else b)
        (found_below-devices left d bus connected scheduler)

  detach-devices :
      (bus : MmioBus) (base d : ℕ)
      → bus.devices (slot_of base) ≡ some d
      → (detach base bus).devices ≡ set_slot (slot_of base) none bus.devices
  unfolding detach disconnect
  detach-devices bus base d h =
      elim (Bool-cases (found_below max_devices d (emptied io (slot_of base) bus))) [
        | inl kept ↦ rw (detach, h, disconnect, kept) refl
        | inr gone ↦ rw (detach, h, disconnect, gone) refl
      ]

  read-detach :
      {bus : MmioBus} (base d : ℕ)
      → IsReached bus
      → bus.devices (slot_of base) ≡ some d
      → (k : ℕ) (s : S) → slot_of base < max_devices
      → 4 * k < slot_size
      → read io (mmio_start + slot_of base * slot_size + 4 * k) (detach base bus) s
        ≡ (0xFFFF_FFFF, s)
  read-detach {bus} base d r h k s low offset =
      let empty : (detach base bus).devices (slot_of base) ≡ none =
        ap (λ f. f (slot_of base)) (detach-devices bus base d h) ∙ ground arith in
      read_lem (slot_of base) k s (detached base r) low offset ∙ rw empty refl

  detached_state :
      {bus : MmioBus} (base d : ℕ)
      → IsReached bus
      → bus.devices (slot_of base) ≡ some d
      → ((i : ℕ)
          → (detach base bus).devices i ≡ (if i == slot_of base then none else bus.devices i))
        × ((i : ℕ)
            → (detach base bus).declared i ≡ (if i == slot_of base then 0 else bus.declared i))
        × ((d' : ℕ)
            → (detach base bus).connected d' ≡ (
                if (d == d') && not (found_below max_devices d (detach base bus))
                then false
                else bus.connected d'))
        × ((d' t : ℕ)
            → has_event d' t (detach base bus).scheduler.events ≡ (
                if (d == d') && not (found_below max_devices d (detach base bus))
                then false
                else has_event d' t bus.scheduler.events))
        × ((d' t : ℕ)
            → cycle_of d' t (detach base bus).scheduler.events ≡ (
                if (d == d') && not (found_below max_devices d (detach base bus))
                then no_scheduled_event
                else cycle_of d' t bus.scheduler.events))
  unfolding detach disconnect
  detached_state {bus} base d r h =
      elim (Bool-cases (found_below max_devices d (emptied io (slot_of base) bus))) [
        | inl kept ↦
            rw (detach, h, disconnect, kept)
              (
                λ i. refl,
                λ i. refl,
                λ d'. ground (arith, kept),
                λ d' t. ground (arith, kept),
                λ d' t. ground (arith, kept),
              )
        | inr gone ↦
            rw (detach, h, disconnect, gone)
              (let alone =
                  found_below-devices max_devices d (emptied io (slot_of base) bus)
                    (set_slot d false bus.connected) (cancel_all d bus.scheduler)
                  ∙ gone in
                (
                  λ i. refl,
                  λ i. refl,
                  λ d'. ground (arith, alone),
                  λ d' t.
                      (cancel_all_lem d bus.scheduler (reached-IsWired r).table).2 d' t
                      ∙ ground (arith, alone),
                  λ d' t.
                      (cancel_all_lem d bus.scheduler (reached-IsWired r).table).1 d' t
                      ∙ ground (arith, alone),
                ))
      ]

  -- `detach` of a slot that has a device, in every state of a bus: the slot is empty, every other slot
  -- keeps its device and its declared registers, an aligned read of the slot, if it is one of the bus's,
  -- gives all ones and asks no device, and of all devices that one alone loses its pointers and every
  -- event in the table, and only when no slot of it is left; all other events stay, due when they were.
  pub detach_lem :
      {bus : MmioBus} (base d : ℕ)
      → IsReached bus
      → bus.devices (slot_of base) ≡ some d
      → ((i : ℕ)
          → (detach base bus).devices i ≡ (if i == slot_of base then none else bus.devices i))
        × ((i : ℕ)
            → (detach base bus).declared i ≡ (if i == slot_of base then 0 else bus.declared i))
        × ((k : ℕ) (s : S)
            → slot_of base < max_devices
            → 4 * k < slot_size
            → read io (mmio_start + slot_of base * slot_size + 4 * k) (detach base bus) s
              ≡ (0xFFFF_FFFF, s))
        × ((d' : ℕ)
            → (detach base bus).connected d' ≡ (
                if (d == d') && not (found_below max_devices d (detach base bus))
                then false
                else bus.connected d'))
        × ((d' t : ℕ)
            → has_event d' t (detach base bus).scheduler.events ≡ (
                if (d == d') && not (found_below max_devices d (detach base bus))
                then false
                else has_event d' t bus.scheduler.events))
        × ((d' t : ℕ)
            → cycle_of d' t (detach base bus).scheduler.events ≡ (
                if (d == d') && not (found_below max_devices d (detach base bus))
                then no_scheduled_event
                else cycle_of d' t bus.scheduler.events))
  detach_lem base d r h =
      let state = detached_state base d r h in
      (state.0, state.1, read-detach base d r h, state.2, state.3, state.4)
