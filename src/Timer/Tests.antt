-- ===== src/Timer/Tests.antt =====
-- A timer at cycle 1000 of a clock of 1 MHz, its countdown due at 1500 and its alarm at 2 ms.
use ceres_vm.Prelude.{◌<◌, ◌≤◌, ◌≡◌, ◌↔◌, refl, false, true, inr, [], arith}
use ceres_vm.Scheduler.{no_scheduled_event}
use ceres_vm.Timer.{
  Timer, nanos, nanos_at, cycle_at_nanos, read, capture_state, restore_state, remaining,
}
use ceres_vm.Timer.Clock.{cycle_at_nanos-nanos_at}
use ceres_vm.Timer.Snapshot.{restore_state-capture_state}

abbrev running : Timer
running = record {
  deadline = 1500;
  periodic = true;
  period = 1000;
  rtc_start = 1_700_000_000;
  nanos_high = 0;
  cycles_high = 0;
  alarm_nanos = 2_000_000;
  alarm_low = 0;
  id = 1;
  now = 1000;
  clock_hz = 1_000_000;
  scheduler = record { events = []; next = no_scheduled_event };
  interrupts = record { pending = 0; raises = 0 };
}

abbrev fresh : Timer
fresh = record running { deadline = 0; periodic = false; period = 0; alarm_nanos = 0 }

milliseconds : nanos running ≡ 1_000_000
unfolding nanos nanos_at
milliseconds = refl

counting : (read 0x08 running).0 ≡ 500
unfolding read remaining
counting = refl

cycle_at_nanos-nanos_at_example :
    (2_000_000 ≤ nanos_at 1000 1_000_000) ↔ (cycle_at_nanos 2_000_000 1_000_000 ≤ 1000)
cycle_at_nanos-nanos_at_example =
    cycle_at_nanos-nanos_at 2_000_000 1000 1_000_000 (omega arith) (omega arith) (omega arith)
      (omega arith)

to_come : nanos running < 2_000_000
unfolding nanos nanos_at
to_come = omega arith

restore_state-capture_state_example :
    (read 0x08 (restore_state (capture_state running) fresh)).0 ≡ (read 0x08 running).0
restore_state-capture_state_example =
    restore_state-capture_state running fresh refl refl refl (omega arith) (omega arith)
      (inr to_come) 0x08
