-- ===== src/Timer.antt =====
-- The timer (Ceres/libs/devices/src/system/timer.cpp, with its header), attached to a bus: it reads the
-- scheduler's clock and books its countdown and its alarm there. The state has, next to the timer's
-- members, what the bus connects it to: the clock and its rate, the scheduler and the interrupt
-- controller.
pub mod Clock
pub mod Snapshot
mod Tests
use ceres_vm.Prelude.{ℕ, ◌+◌, ◌-◌, ◌*◌, ◌/◌, ◌%◌, ◌^◌, bit_or, Bool, true, false, not, ◌&&◌, ◌||◌}
use ceres_vm.Prelude.Tests.{ltb, leb, ◌==◌, if◌then◌else◌}
use ceres_vm.Prelude.Words.{u32, u64}
use ceres_vm.Scheduler.{Scheduler, schedule, cancel, cancel_all, no_scheduled_event}
use ceres_vm.Interrupt.{InterruptController, raise}

abbrev pub nanos_per_second : ℕ
nanos_per_second = 1_000_000_000

-- `TimerDevice::Interrupt` and `AlarmInterrupt`.
abbrev pub countdown_interrupt : ℕ
countdown_interrupt = 16

abbrev pub alarm_interrupt : ℕ
alarm_interrupt = 17

abbrev pub countdown_event : ℕ
countdown_event = 0

abbrev pub alarm_event : ℕ
alarm_event = 1

-- `rtc_start` is the 64-bit pattern of its `i64`; `id` is the timer as a device of the scheduler.
pub record Timer : Type 0 where
  pub deadline : ℕ
  pub periodic : Bool
  pub period : ℕ
  pub rtc_start : ℕ
  pub nanos_high : ℕ
  pub cycles_high : ℕ
  pub alarm_nanos : ℕ
  pub alarm_low : ℕ
  pub id : ℕ
  pub now : ℕ
  pub clock_hz : ℕ
  pub scheduler : Scheduler
  pub interrupts : InterruptController

-- `nanos` and `cycleAtNanos`, of a clock and its rate.
unfoldable pub nanos_at : ℕ → ℕ → ℕ
nanos_at count hz =
    u64 (u64 (count / hz * nanos_per_second) + u64 (count % hz * nanos_per_second) / hz)

unfoldable pub cycle_at_nanos : ℕ → ℕ → ℕ
cycle_at_nanos instant hz =
    let seconds = instant / nanos_per_second in
    let part = u64 (instant % nanos_per_second * hz + (nanos_per_second - 1)) / nanos_per_second in
    if ltb ((no_scheduled_event - 1 - part) / hz) seconds
    then no_scheduled_event - 1
    else u64 (seconds * hz + part)

unfoldable pub nanos : Timer → ℕ
nanos t = nanos_at t.now t.clock_hz

unfoldable pub rtc : Timer → ℕ
rtc t = u64 (t.rtc_start + t.now / t.clock_hz)

-- `raiseInterrupt`
abbrev pub raise_interrupt : ℕ → Timer → Timer
raise_interrupt number t = record t { interrupts = raise number t.interrupts }

unfoldable pub sync_countdown : Timer → Timer
sync_countdown t =
    if not (t.deadline == 0)
    then record t { scheduler = schedule t.id t.deadline countdown_event t.scheduler }
    else record t { scheduler = cancel t.id countdown_event t.scheduler }

unfoldable pub arm : ℕ → Bool → Timer → Timer
arm cycles periodic t = sync_countdown (record t {
  periodic = periodic;
  period = cycles;
  deadline = if ltb 0 cycles then u64 (t.now + cycles) else 0;
})

unfoldable pub sync_alarm : Timer → Timer
sync_alarm t =
    if t.alarm_nanos == 0
    then record t { scheduler = cancel t.id alarm_event t.scheduler }
    else if leb t.alarm_nanos (nanos t)
    then raise_interrupt alarm_interrupt
        (record t { alarm_nanos = 0; scheduler = cancel t.id alarm_event t.scheduler })
    else record t {
      scheduler = schedule t.id (cycle_at_nanos t.alarm_nanos t.clock_hz) alarm_event t.scheduler;
    }

unfoldable pub reset : Timer → Timer
reset t = record t {
  deadline = 0;
  periodic = false;
  period = 0;
  nanos_high = 0;
  cycles_high = 0;
  alarm_nanos = 0;
  alarm_low = 0;
  scheduler = cancel_all t.id t.scheduler;
}

unfoldable pub on_event : ℕ → ℕ → Timer → Timer
on_event tag cycle t =
    if tag == alarm_event
    then sync_alarm t
    else if not (tag == countdown_event) || (t.deadline == 0)
    then t
    else let raised = raise_interrupt countdown_interrupt t in
      sync_countdown (record raised {
        deadline = if t.periodic && not (t.period == 0) then u64 (cycle + t.period) else 0;
      })

-- `State`
pub record State : Type 0 where
  pub cycles : ℕ
  pub remaining : ℕ
  pub periodic : Bool
  pub period : ℕ
  pub nanos_high : ℕ
  pub cycles_high : ℕ
  pub alarm_nanos : ℕ
  pub alarm_low : ℕ

-- What is left of the countdown: one cycle when it is due.
unfoldable pub remaining : Timer → ℕ
remaining t = if t.deadline == 0 then 0 else if ltb t.now t.deadline then t.deadline - t.now else 1

unfoldable pub capture_state : Timer → State
capture_state t = record {
  cycles = t.now;
  remaining = remaining t;
  periodic = t.periodic;
  period = t.period;
  nanos_high = t.nanos_high;
  cycles_high = t.cycles_high;
  alarm_nanos = t.alarm_nanos;
  alarm_low = t.alarm_low;
}

unfoldable pub restore_state : State → Timer → Timer
restore_state s t =
    let counting =
      sync_countdown
        (record t { deadline = if ltb 0 s.remaining then u64 (t.now + s.remaining) else 0 }) in
    sync_alarm (record counting {
      periodic = s.periodic;
      period = s.period;
      nanos_high = s.nanos_high;
      cycles_high = s.cycles_high;
      alarm_nanos = s.alarm_nanos;
      alarm_low = s.alarm_low;
    })

unfoldable pub read : ℕ → Timer → ℕ × Timer
read offset t =
    if offset == 0x00
    then (u32 t.now, record t { cycles_high = u32 (t.now / 2 ^ 32) })
    else if offset == 0x04
    then (t.cycles_high, t)
    else if offset == 0x08
    then (if ltb 0xFFFF_FFFF (remaining t) then 0xFFFF_FFFF else u32 (remaining t), t)
    else if offset == 0x0C
    then (if t.periodic then 1 else 0, t)
    else if offset == 0x10
    then (u32 (nanos t), record t { nanos_high = u32 (nanos t / 2 ^ 32) })
    else if offset == 0x14
    then (t.nanos_high, t)
    else if offset == 0x18
    then (u32 (nanos t / 1_000_000), t)
    else if offset == 0x1C
    then (u32 (rtc t), t)
    else if offset == 0x20
    then (u32 t.alarm_nanos, t)
    else if offset == 0x24
    then (u32 (t.alarm_nanos / 2 ^ 32), t)
    else if offset == 0x28
    then (u32 t.clock_hz, t)
    else (0, t)

unfoldable pub write : ℕ → ℕ → Timer → Timer
write offset value t =
    if offset == 0x08
    then sync_countdown (record t {
      period = value;
      deadline = if not (value == 0) then u64 (t.now + value) else 0;
    })
    else if offset == 0x0C
    then record t { periodic = value % 2 == 1 }
    else if offset == 0x20
    then record t { alarm_low = value }
    else if offset == 0x24
    then sync_alarm (record t { alarm_nanos = bit_or (value * 2 ^ 32) t.alarm_low; alarm_low = 0 })
    else t
