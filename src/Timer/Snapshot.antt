-- ===== src/Timer/Snapshot.antt =====
-- The timer of a snapshot, put back.
use ceres_vm.Prelude.{
  ℕ, ◌+◌, ◌/◌, ◌^◌, ◌<◌, ◌≡◌, refl, sym, ap, ◌∙◌, inl, inr, ◌⊎◌, arith, Bool, false,
}
use ceres_vm.Prelude.Tests.{ltb, leb, ◌==◌, if◌then◌else◌, Bool-cases}
use ceres_vm.Prelude.Words.{u32, u64}
use mathlib.Core.Path.{subst}
use ceres_vm.Scheduler.{Scheduler, schedule, cancel}
use ceres_vm.Timer.{
  Timer, countdown_event, alarm_event, cycle_at_nanos, nanos, rtc, remaining, sync_countdown,
  sync_alarm, capture_state, restore_state, read,
}

-- What a read gives, by what it depends on.
abbrev value_of : ℕ → ℕ → ℕ → ℕ → Bool → ℕ → ℕ → ℕ → ℕ → ℕ → ℕ
value_of offset now cycles_high left periodic nanos nanos_high rtc alarm hz =
    if offset == 0x00
    then u32 now
    else if offset == 0x04
    then cycles_high
    else if offset == 0x08
    then (if ltb 0xFFFF_FFFF left then 0xFFFF_FFFF else u32 left)
    else if offset == 0x0C
    then (if periodic then 1 else 0)
    else if offset == 0x10
    then u32 nanos
    else if offset == 0x14
    then nanos_high
    else if offset == 0x18
    then u32 (nanos / 1_000_000)
    else if offset == 0x1C
    then u32 rtc
    else if offset == 0x20
    then u32 alarm
    else if offset == 0x24
    then u32 (alarm / 2 ^ 32)
    else if offset == 0x28
    then u32 hz
    else 0

read-value :
    (offset : ℕ) (t : Timer)
    → (read offset t).0
      ≡ value_of offset t.now t.cycles_high
          (remaining t)
          t.periodic
          (nanos t)
          t.nanos_high
          (rtc t)
          t.alarm_nanos
          t.clock_hz
unfolding read
read-value offset t = ground arith

-- The timer that `restoreState` leaves, but for the scheduler.
abbrev put_back : Timer → Timer → Scheduler → Timer
put_back t t' scheduler = record t' {
  deadline = if ltb 0 (remaining t) then u64 (t'.now + remaining t) else 0;
  periodic = t.periodic;
  period = t.period;
  nanos_high = t.nanos_high;
  cycles_high = t.cycles_high;
  alarm_nanos = t.alarm_nanos;
  alarm_low = t.alarm_low;
  scheduler = scheduler;
}

sync_countdown-scheduler :
    (t : Timer) → (s : Scheduler) × (sync_countdown t ≡ record t { scheduler = s })
unfolding sync_countdown
sync_countdown-scheduler t = elim (Bool-cases (t.deadline == 0)) [
  | inl e ↦ (cancel t.id countdown_event t.scheduler, rw (sync_countdown, e) refl)
  | inr e ↦ (schedule t.id t.deadline countdown_event t.scheduler, rw (sync_countdown, e) refl)
]

sync_alarm-scheduler :
    (t : Timer)
    → (t.alarm_nanos ≡ 0) ⊎ (nanos t < t.alarm_nanos)
    → (s : Scheduler) × (sync_alarm t ≡ record t { scheduler = s })
unfolding sync_alarm
sync_alarm-scheduler t h = elim (Bool-cases (t.alarm_nanos == 0)) [
  | inl e ↦ (cancel t.id alarm_event t.scheduler, rw (sync_alarm, e) refl)
  | inr e ↦
      let later : leb t.alarm_nanos (nanos t) ≡ false = ground (arith, h, e) in
      (
        schedule t.id (cycle_at_nanos t.alarm_nanos t.clock_hz) alarm_event t.scheduler,
        rw (sync_alarm, e, later) refl,
      )
]

module _ (t t' : Timer) (same_now : t'.now ≡ t.now) (same_hz : t'.clock_hz ≡ t.clock_hz)
    (same_rtc : t'.rtc_start ≡ t.rtc_start) (fits : t.now + 1 < 2 ^ 64)
    (deadline : t.deadline < 2 ^ 64)
    (pending : (t.alarm_nanos ≡ 0) ⊎ (nanos t < t.alarm_nanos)) where
  same_nanos : nanos t' ≡ nanos t
  unfolding nanos
  same_nanos = rw (nanos, same_now, same_hz) refl

  restored : (s : Scheduler) × (restore_state (capture_state t) t' ≡ put_back t t' s)
  unfolding restore_state capture_state nanos
  restored =
      let counting =
        sync_countdown-scheduler (record t' {
          deadline = if ltb 0 (remaining t) then u64 (t'.now + remaining t) else 0;
        }) in
      let alarmed = sync_alarm-scheduler (put_back t t' counting.0) (elim pending [
        | inl e ↦ inl e
        | inr later ↦ inr (subst (λ x. x < t.alarm_nanos) (sym same_nanos) later)
      ]) in
      (
        alarmed.0,
        ap
              (λ c. sync_alarm (record c {
                periodic = t.periodic;
                period = t.period;
                nanos_high = t.nanos_high;
                cycles_high = t.cycles_high;
                alarm_nanos = t.alarm_nanos;
                alarm_low = t.alarm_low;
              }))
              counting.1
            ∙ alarmed.1,
      )

  left : (s : Scheduler) → remaining (put_back t t' s) ≡ remaining t
  unfolding remaining
  left s = ground (arith, same_now, fits, deadline)

  rtc_kept : (s : Scheduler) → rtc (put_back t t' s) ≡ rtc t
  unfolding rtc
  rtc_kept s = rw (rtc, same_now, same_hz, same_rtc) refl

  -- `captureState`, and then `restoreState` of it into a timer whose clock stands where it stood, with
  -- the same rate and the same start of the real-time clock, the count and the deadline words of 64 bits
  -- and the alarm off or still to come: every register reads as it did, at every offset.
  pub restore_state-capture_state :
      (offset : ℕ) → (read offset (restore_state (capture_state t) t')).0 ≡ (read offset t).0
  unfolding nanos
  restore_state-capture_state offset =
      let s = restored.0 in
      ap (λ r. (read offset r).0) restored.1
      ∙ read-value offset (put_back t t' s)
      ∙ rw (left s, rtc_kept s, same_nanos, same_now, same_hz) refl
      ∙ sym (read-value offset t)
