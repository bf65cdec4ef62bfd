-- ===== src/Timer/Clock.antt =====
-- The nanosecond clock and the cycle at which an instant comes.
use ceres_vm.Prelude.{
  ℕ, ◌+◌, ◌-◌, ◌*◌, ◌/◌, ◌%◌, ◌^◌, ◌≤◌, ◌<◌, ◌≡◌, ◌↔◌, refl, ap, inl, inr, ◌⊎◌, arith,
}
use ceres_vm.Prelude.Tests.{ltb, if◌then◌else◌, Bool-cases, ltb→lt}
use native.Mathlib.Nat.{
  div-add-mod', mod-lt, le-div_iff_mul-le, div-lt_iff_lt-mul, mul-le-mul_right, suc-mul,
}
use ceres_vm.Scheduler.{no_scheduled_event}
use ceres_vm.Timer.{nanos_at, cycle_at_nanos, nanos_per_second}

-- A fraction of a second on the two clocks.
fraction :
    (t r hz : ℕ)
    → 0 < hz
    → (t ≤ r * nanos_per_second / hz) ↔ ((t * hz + (nanos_per_second - 1)) / nanos_per_second ≤ r)
fraction t r hz pos =
    let both = le-div_iff_mul-le {k = hz} {x = t} {y = r * nanos_per_second} pos in
    (λ h. omega (arith, both.0 h), λ h. both.1 (omega (arith, h)))

-- A clock of `q` seconds and `r` cycles is past `s` seconds and `p` cycles, digit by digit.
digits :
    (s p q r hz : ℕ) → p ≤ hz → r < hz → (s * hz + p ≤ q * hz + r) ↔ ((s < q) ⊎ ((s ≡ q) × (p ≤ r)))
digits s p q r hz hp hr = (
  λ h. elim (order s q) [
    | inl below ↦ inl below
    | inr (inl same) ↦
        let e : s * hz ≡ q * hz = ap (λ (x : ℕ). x * hz) same in inr (same, omega (arith, e, h))
    | inr (inr above) ↦
        let more = mul-le-mul_right hz above in absurd (omega (arith, more, suc-mul q hz, h, hr))
  ],
  λ h. elim h [
    | inl below ↦ let more = mul-le-mul_right hz below in omega (arith, more, suc-mul s hz, hp)
    | inr (same, least) ↦
        let e : s * hz ≡ q * hz = ap (λ (x : ℕ). x * hz) same in omega (arith, e, least)
  ],
)
  where
    order : (a b : ℕ) → (a < b) ⊎ ((a ≡ b) ⊎ (b < a))
    order a b = ground arith

module _ (instant count hz : ℕ) (pos : 0 < hz) (slow : hz ≤ 10_000_000_000)
    (soon : count / hz < 18_446_744_073) where
  abbrev seconds : ℕ
  seconds = instant / nanos_per_second

  abbrev part : ℕ
  part = (instant % nanos_per_second * hz + (nanos_per_second - 1)) / nanos_per_second

  rest-lt : count % hz < hz
  rest-lt = mod-lt count pos

  fraction-lt : count % hz * nanos_per_second / hz < nanos_per_second
  fraction-lt =
      (div-lt_iff_lt-mul {k = hz} {x = count % hz * nanos_per_second} {y = nanos_per_second} pos).1
        (omega (arith, rest-lt))

  nanos_at-eq :
      nanos_at count hz ≡ count / hz * nanos_per_second + count % hz * nanos_per_second / hz
  unfolding nanos_at
  nanos_at-eq =
      let whole : count % hz * nanos_per_second % 2 ^ 64 ≡ count % hz * nanos_per_second =
        omega (arith, rest-lt, slow) in
      rw (nanos_at, whole) (omega (arith, soon, fraction-lt))

  within : instant % nanos_per_second * hz ≤ (nanos_per_second - 1) * hz
  within = mul-le-mul_right hz (omega arith)

  part_le : part ≤ hz
  part_le = omega (arith, within)

  nanos_reached : (instant ≤ nanos_at count hz) ↔ (seconds * hz + part ≤ count)
  nanos_reached =
      let cycles = digits seconds part (count / hz) (count % hz) hz part_le rest-lt in
      let split = fraction (instant % nanos_per_second) (count % hz) hz pos in
      let total = div-add-mod' count hz in
      let nanoseconds =
        digits seconds (instant % nanos_per_second) (count / hz)
          (count % hz * nanos_per_second / hz) nanos_per_second (omega arith) fraction-lt in
      let same : instant ≡ seconds * nanos_per_second + instant % nanos_per_second = omega arith in
      (
        λ h.
            let past : seconds * nanos_per_second + instant % nanos_per_second
                ≤ count / hz * nanos_per_second + count % hz * nanos_per_second / hz =
              omega (arith, h, nanos_at-eq) in
            omega (
              arith,
              total,
              cycles.1 (elim (nanoseconds.0 past) [
                | inl below ↦ inl below
                | inr (e, least) ↦ inr (e, split.0 least)
              ]),
            ),
        λ h.
            let past : seconds * hz + part ≤ count / hz * hz + count % hz =
              omega (arith, total, h) in
            let reached = nanoseconds.1 (elim (cycles.0 past) [
              | inl below ↦ inl below
              | inr (e, least) ↦ inr (e, split.1 least)
            ]) in
            omega (arith, reached, nanos_at-eq),
      )

  cycle_at_nanos-eq : cycle_at_nanos instant hz ≡ (
      if ltb ((no_scheduled_event - 1 - part) / hz) seconds
      then no_scheduled_event - 1
      else (seconds * hz + part) % 2 ^ 64)
  unfolding cycle_at_nanos
  cycle_at_nanos-eq =
      let whole : (instant % nanos_per_second * hz + (nanos_per_second - 1)) % 2 ^ 64
          ≡ instant % nanos_per_second * hz + (nanos_per_second - 1) =
        omega (arith, within, slow) in
      rw (cycle_at_nanos, whole) refl

  -- `cycleAtNanos` gives the first cycle at or after an instant, on a clock of 1 Hz to 10 GHz: a cycle
  -- count that is short of the last one an event can have, and of 584 years, has reached that cycle
  -- exactly if its nanoseconds have reached the instant; an instant that no such count reaches has a
  -- cycle that none reaches.
  pub cycle_at_nanos-nanos_at :
      count < no_scheduled_event - 1
      → (instant ≤ nanos_at count hz) ↔ (cycle_at_nanos instant hz ≤ count)
  cycle_at_nanos-nanos_at low =
      elim (Bool-cases (ltb ((no_scheduled_event - 1 - part) / hz) seconds)) [
        | inl never ↦
            let bound =
              (div-lt_iff_lt-mul {k = hz} {x = no_scheduled_event - 1 - part} {y = seconds} pos).0
                (ltb→lt _ _ never) in
            rw (cycle_at_nanos-eq, never)
              (
                λ h. absurd (omega (arith, nanos_reached.0 h, bound, low)),
                λ h. absurd (omega (arith, h, low)),
              )
        | inr ever ↦
            let bound =
              (le-div_iff_mul-le {k = hz} {x = seconds} {y = no_scheduled_event - 1 - part} pos).0
                (ground (arith, ever)) in
            let whole : (seconds * hz + part) % 2 ^ 64 ≡ seconds * hz + part =
              omega (arith, bound, part_le, slow) in
            rw (cycle_at_nanos-eq, ever, whole) nanos_reached
      ]
