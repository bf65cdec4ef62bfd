-- ===== src/Mmio.antt =====
-- The bus of the devices (Ceres/libs/vm/include/ceres/vm/mmio_bus.h), the tables of registers
-- (register_map.h) and the pointers of a device to the machine (io_device.h). A device is known by a
-- number in place of its address, and its table by the offsets that it declares.
pub mod Masks
pub mod Slots
pub mod Reached
pub mod Resets
mod Tests
use ceres_vm.Prelude.{
  ℕ, zero, suc, ◌+◌, ◌-◌, ◌*◌, ◌/◌, ◌%◌, ◌^◌, bit_and, bit_or, Bool, true, false, not, ◌&&◌, Option,
  none, some, List, [], ◌∷◌,
}
use ceres_vm.Prelude.Tests.{ltb, leb, ◌==◌, if◌then◌else◌}
use ceres_vm.Prelude.Words.{sub32, add32, u32}
use ceres_vm.Scheduler.{Scheduler, cancel_all}

abbrev pub mmio_start : ℕ
mmio_start = 0xFF00_0000

abbrev pub slot_size : ℕ
slot_size = 0x1_0000

abbrev pub max_devices : ℕ
max_devices = 256

-- `MmioBus::slot`
abbrev pub slot : ℕ → ℕ
slot index = add32 mmio_start (u32 (index * slot_size))

-- `(base.value() - BaseValue) / SlotSize`
abbrev pub slot_of : ℕ → ℕ
slot_of base = sub32 base mmio_start / slot_size

abbrev pub contains : ℕ → Bool
contains address = leb mmio_start address

-- `RegisterMap::find`, as whether it finds one.
abbrev pub find : ℕ → List ℕ → Bool
find offset [] = false
find offset (o ∷ os) = if o == offset then true else find offset os

-- The loop of `declaredMask`.
unfoldable pub mask_from : ℕ → List ℕ → ℕ
mask_from mask [] = mask
mask_from mask (o ∷ os) =
    mask_from (if ltb o 0x100 && (o % 4 == 0) then bit_or mask (2 ^ (o / 4)) else mask) os

abbrev pub declared_mask : List ℕ → ℕ
declared_mask registers = mask_from 0 registers

-- `_devices` and `_declared` by slot, and by device whether it has its pointers to the machine.
pub record MmioBus : Type 0 where
  pub devices : ℕ → Option ℕ
  pub declared : ℕ → ℕ
  pub connected : ℕ → Bool
  pub scheduler : Scheduler

abbrev pub holds_device : ℕ → Option ℕ → Bool
holds_device device none = false
holds_device device (some d) = d == device

-- `std::find` over the slots below `left`, as whether it finds the device.
unfoldable pub found_below : ℕ → ℕ → MmioBus → Bool
found_below zero device bus = false
found_below (suc left) device bus =
    if holds_device device (bus.devices left) then true else found_below left device bus

-- What a device does: its reads and writes of a register, over a state of the machine's.
pub record IoDevices (S : Type 0) : Type 0 where
  pub registers : ℕ → List ℕ
  pub read : ℕ → ℕ → S → ℕ × S
  pub write : ℕ → ℕ → ℕ → S → S
  pub reset : ℕ → S → S

abbrev pub set_slot {ℓ} : {A : Type ℓ} → ℕ → A → (ℕ → A) → ℕ → A
set_slot index a f i = if i == index then a else f i

-- The body of `attach`, and of a round of `attachRange`.
unfoldable pub attach_at : ℕ → ℕ → ℕ → MmioBus → MmioBus
attach_at index device mask bus = record bus {
  devices = set_slot index (some device) bus.devices;
  declared = set_slot index mask bus.declared;
  connected = set_slot device true bus.connected;
}

-- The loop of `attachRange`, `left` slots from `index` on.
unfoldable pub attach_from : ℕ → ℕ → ℕ → ℕ → MmioBus → MmioBus
attach_from zero index device mask bus = bus
attach_from (suc left) index device mask bus =
    attach_from left (index + 1) device mask (attach_at index device mask bus)

module _ {S : Type 0} (io : IoDevices S) where
  unfoldable pub attach : ℕ → ℕ → MmioBus → MmioBus
  attach base device bus = attach_at (slot_of base) device (declared_mask (io.registers device)) bus

  -- `attachRange`: no round when the last slot lies before the first.
  unfoldable pub attach_range : ℕ → ℕ → ℕ → MmioBus → MmioBus
  attach_range first_base last_base device bus =
      attach_from (slot_of last_base + 1 - slot_of first_base) (slot_of first_base) device
        (declared_mask (io.registers device)) bus

  -- The private `declares`, for a slot with the device `device`.
  unfoldable pub declares_at : ℕ → ℕ → ℕ → MmioBus → Bool
  declares_at device index offset bus =
      if ltb offset 0x100
      then not (bit_and (bus.declared index / 2 ^ (offset / 4)) 1 == 0)
      else find offset (io.registers device)

  unfoldable pub read : ℕ → MmioBus → S → ℕ × S
  read address bus s =
      let relative = sub32 address mmio_start in
      let index = relative / slot_size in
      elim (bus.devices index) [
        | none ↦ (0xFFFF_FFFF, s)
        | some device ↦
            if declares_at device index (relative % slot_size) bus
            then io.read device (relative % slot_size) s
            else (0, s)
      ]

  unfoldable pub write : ℕ → ℕ → MmioBus → S → S
  write address value bus s =
      let relative = sub32 address mmio_start in
      let index = relative / slot_size in
      elim (bus.devices index) [
        | none ↦ s
        | some device ↦
            if declares_at device index (relative % slot_size) bus
            then io.write device (relative % slot_size) value s
            else s
      ]

  unfoldable pub declares : ℕ → MmioBus → Bool
  declares address bus =
      let relative = sub32 address mmio_start in
      let index = relative / slot_size in
      elim (bus.devices index) [
        | none ↦ true
        | some device ↦ declares_at device index (relative % slot_size) bus
      ]

  -- A round of `resetDevices`, for the slot `index`.
  unfoldable pub reset_slot : ℕ → MmioBus → S → S
  reset_slot index bus s = elim (bus.devices index) [
    | none ↦ s
    | some device ↦ if found_below index device bus then s else io.reset device s
  ]

  -- The rounds for the slots below `count`, in their order.
  unfoldable pub reset_below : ℕ → MmioBus → S → S
  reset_below zero bus s = s
  reset_below (suc count) bus s = reset_slot count bus (reset_below count bus s)

  unfoldable pub reset_devices : MmioBus → S → S
  reset_devices bus s = reset_below max_devices bus s

-- What is left of `detach` when the slot had the device `device`: its pointers and events go with its
-- last slot.
unfoldable pub disconnect : ℕ → MmioBus → MmioBus
disconnect device bus = if found_below max_devices device bus then bus else record bus {
  connected = set_slot device false bus.connected;
  scheduler = cancel_all device bus.scheduler;
}

unfoldable pub detach : ℕ → MmioBus → MmioBus
detach base bus =
    let index = slot_of base in
    elim (bus.devices index) [
      | none ↦ bus
      | some device ↦ disconnect device (record bus {
        devices = set_slot index none bus.devices;
        declared = set_slot index 0 bus.declared;
      })
    ]

abbrev pub occupied : Option ℕ → Bool
occupied none = false
occupied (some d) = true

unfoldable pub is_attached : ℕ → MmioBus → Bool
is_attached base bus = occupied (bus.devices (slot_of base))

unfoldable pub device_at : ℕ → MmioBus → Option ℕ
device_at index bus = if ltb index max_devices then bus.devices index else none
