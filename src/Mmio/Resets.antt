-- ===== src/Mmio/Resets.antt =====
-- `resetDevices`.
use ceres_vm.Prelude.{ℕ, zero, suc, inl, inr, ◌≡◌, refl, ap, ◌∙◌, arith}
use ceres_vm.Prelude.Tests.{◌==◌, if◌then◌else◌, Bool-cases, Option-cases, ==_refl}
use ceres_vm.Mmio.{
  MmioBus, IoDevices, found_below, reset_slot, reset_below, reset_devices, max_devices,
}

-- What is seen of each device in a state, and what a reset makes of it.
pub record IsOwn {S V : Type 0} (io : IoDevices S) (view : ℕ → S → V) (fresh : V → V) : Type 0 where
  pub own :
      (d x : ℕ) (s : S) → view x (io.reset d s) ≡ (if d == x then fresh (view x s) else view x s)

module _ {S V : Type 0} (io : IoDevices S) (view : ℕ → S → V) (fresh : V → V)
    (one : IsOwn io view fresh) where
  view-reset_below :
      (count x : ℕ) (bus : MmioBus) (s : S)
      → view x (reset_below io count bus s)
        ≡ (if found_below count x bus then fresh (view x s) else view x s)
  unfolding reset_below found_below reset_slot
  view-reset_below zero x bus s = refl
  view-reset_below (suc count) x bus s = elim (Option-cases (bus.devices count)) [
    | inl empty ↦ rw (reset_slot, empty) (view-reset_below count x bus s)
    | inr (d, taken) ↦ elim (Bool-cases (d == x)) [
      | inl same ↦
          let e : d ≡ x = ground (arith, same) in
          elim (Bool-cases (found_below count x bus)) [
            | inl before ↦
                rw (reset_slot, taken, e, before, ==_refl x)
                  (view-reset_below count x bus s ∙ rw before refl)
            | inr first ↦
                rw (reset_slot, taken, e, first, ==_refl x)
                  (one.own x x (reset_below io count bus s)
                    ∙ rw (==_refl x) (ap fresh (view-reset_below count x bus s ∙ rw first refl)))
          ]
      | inr other ↦ elim (Bool-cases (found_below count d bus)) [
        | inl before ↦ rw (reset_slot, taken, before, other) (view-reset_below count x bus s)
        | inr first ↦
            rw (reset_slot, taken, first, other)
              (one.own d x (reset_below io count bus s) ∙ rw other (view-reset_below count x bus s))
      ]
    ]
  ]

  -- A reset of the devices, each of which keeps its own state: every device that has a slot is reset
  -- once, however many slots it has, and no other device is.
  pub reset_devices-once :
      (x : ℕ) (bus : MmioBus) (s : S)
      → view x (reset_devices io bus s)
        ≡ (if found_below max_devices x bus then fresh (view x s) else view x s)
  unfolding reset_devices
  reset_devices-once x bus s = view-reset_below max_devices x bus s
