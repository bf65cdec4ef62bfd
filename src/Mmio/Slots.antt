-- ===== src/Mmio/Slots.antt =====
-- What the bus keeps true, whatever is attached and detached.
use ceres_vm.Prelude.{ℕ, zero, suc, ◌+◌, ◌<◌, ◌≡◌, refl, true, false, none, some, inl, inr, arith}
use ceres_vm.Prelude.Tests.{◌==◌, ==_refl, Bool-cases, Option-cases}
use ceres_vm.Scheduler
use ceres_vm.Scheduler.{schedule, cycle_of, cancel_all, has_event, no_scheduled_event, max_events}
use ceres_vm.Scheduler.Table
use ceres_vm.Scheduler.Table.{cycle_of-schedule, schedule-IsValid}
use ceres_vm.Scheduler.Cancel.{cancel_all_lem}
use ceres_vm.Mmio.{
  MmioBus, IoDevices, declared_mask, found_below, attach_at, attach_from, disconnect, detach,
  slot_of, set_slot, max_devices,
}

module _ {S : Type 0} (io : IoDevices S) where
  pub record IsWired (bus : MmioBus) : Type 0 where
    pub masks : (i d : ℕ) → bus.devices i ≡ some d → bus.declared i ≡ declared_mask (io.registers d)
    pub empty : (i : ℕ) → bus.devices i ≡ none → bus.declared i ≡ 0
    pub linked : (i d : ℕ) → i < max_devices → bus.devices i ≡ some d → bus.connected d ≡ true
    pub table : Scheduler.Table.IsValid bus.scheduler
    pub silent : (d t : ℕ) → bus.connected d ≡ false → has_event d t bus.scheduler.events ≡ false

  pub attach_at-IsWired :
      (index d : ℕ) (bus : MmioBus)
      → IsWired bus
      → IsWired (attach_at index d (declared_mask (io.registers d)) bus)
  unfolding attach_at
  attach_at-IsWired index d bus w = record {
    masks = λ i d' h. grind (arith, w.masks i d');
    empty = λ i h. ground (arith, w.empty i);
    linked = λ i d' low h. grind (arith, w.linked i d');
    table = w.table;
    silent = λ d' t h. ground (arith, w.silent d' t);
  }

  pub attach_from-IsWired :
      (left index d : ℕ) (bus : MmioBus)
      → IsWired bus
      → IsWired (attach_from left index d (declared_mask (io.registers d)) bus)
  unfolding attach_from
  attach_from-IsWired zero index d bus w = w
  attach_from-IsWired (suc left) index d bus w =
      attach_from-IsWired left (index + 1) d
        (attach_at index d (declared_mask (io.registers d)) bus) (attach_at-IsWired index d bus w)

  found_below-some :
      (left i d : ℕ) (bus : MmioBus)
      → i < left
      → bus.devices i ≡ some d
      → found_below left d bus ≡ true
  unfolding found_below
  found_below-some zero i d bus low h = absurd (omega arith)
  found_below-some (suc left) i d bus low h = elim (Bool-cases (i == left)) [
    | inl e ↦ let same : i ≡ left = ground arith in rw (← same, h, ==_refl d) refl
    | inr e ↦ ground (arith, e, found_below-some left i d bus (ground (arith, e)) h)
  ]

  -- The bus once the slot `index` is emptied.
  abbrev pub emptied : ℕ → MmioBus → MmioBus
  emptied index bus = record bus {
    devices = set_slot index none bus.devices;
    declared = set_slot index 0 bus.declared;
  }

  emptied-IsWired : (index : ℕ) (bus : MmioBus) → IsWired bus → IsWired (emptied index bus)
  emptied-IsWired index bus w = record {
    masks = λ i d' h. grind (arith, w.masks i d');
    empty = λ i h. ground (arith, w.empty i);
    linked = λ i d' low h. grind (arith, w.linked i d');
    table = w.table;
    silent = w.silent;
  }

  disconnect-IsWired : (d : ℕ) (bus : MmioBus) → IsWired bus → IsWired (disconnect d bus)
  unfolding disconnect
  disconnect-IsWired d bus w = elim (Bool-cases (found_below max_devices d bus)) [
    | inl kept ↦ rw (disconnect, kept) w
    | inr gone ↦
        let cancelled = cancel_all_lem d bus.scheduler w.table in
        rw (disconnect, gone)
          (record {
            masks = w.masks;
            empty = w.empty;
            linked = λ i d' low h.
                ground (arith, w.linked i d' low h, found_below-some max_devices i d' bus low h);
            table = cancelled.0;
            silent = λ d' t h. ground (arith, cancelled.2 d' t, w.silent d' t);
          })
  ]

  pub detach-IsWired : (base : ℕ) (bus : MmioBus) → IsWired bus → IsWired (detach base bus)
  unfolding detach
  detach-IsWired base bus w = elim (Option-cases (bus.devices (slot_of base))) [
    | inl e ↦ rw (detach, e) w
    | inr (d, e) ↦ rw (detach, e) (disconnect-IsWired d _ (emptied-IsWired (slot_of base) bus w))
  ]
