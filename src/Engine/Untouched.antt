-- ===== src/Engine/Untouched.antt =====
-- What of the machine the entry of an interrupt and IRET leave alone.
use ceres_vm.Prelude.{◌≡◌, ◌∙◌, false}
use ceres_vm.Engine.State.{Machine}

-- What neither an entry nor a return touches: everything but the integer registers, the counter and the
-- flags, the memory, the clock, and the marks that entries and returns keep themselves.
pub record IsUntouched {W : Type 0} (m m' : Machine W) : Type 0 where
  pub fregs : m'.fregs ≡ m.fregs
  pub vram : m'.vram ≡ m.vram
  pub interrupts : m'.interrupts ≡ m.interrupts
  pub scheduler : m'.scheduler ≡ m.scheduler
  pub mmu : m'.mmu ≡ m.mmu
  pub devices : m'.devices ≡ m.devices
  pub executed_instructions : m'.executed_instructions ≡ m.executed_instructions
  pub stack_limit : m'.stack_limit ≡ m.stack_limit
  pub stack_floor : m'.stack_floor ≡ m.stack_floor
  pub interrupt_shadow : m'.interrupt_shadow ≡ m.interrupt_shadow
  pub raises_consumed : m'.raises_consumed ≡ m.raises_consumed
  pub stopped_for_good : m'.stopped_for_good ≡ m.stopped_for_good
  pub fault_address : m'.fault_address ≡ m.fault_address
  pub fault_access : m'.fault_access ≡ m.fault_access
  pub fault_reason : m'.fault_reason ≡ m.fault_reason
  pub strict_mmio : m'.strict_mmio ≡ m.strict_mmio
  pub division_faults : m'.division_faults ≡ m.division_faults
  pub ieee_divide : m'.ieee_divide ≡ m.ieee_divide
  pub text_start : m'.text_start ≡ m.text_start
  pub text_end : m'.text_end ≡ m.text_end

pub IsUntouched-trans :
    {W : Type 0} (m m' m'' : Machine W) → IsUntouched m m' → IsUntouched m' m'' → IsUntouched m m''
IsUntouched-trans m m' m'' p q = record {
  fregs = q.fregs ∙ p.fregs;
  vram = q.vram ∙ p.vram;
  interrupts = q.interrupts ∙ p.interrupts;
  scheduler = q.scheduler ∙ p.scheduler;
  mmu = q.mmu ∙ p.mmu;
  devices = q.devices ∙ p.devices;
  executed_instructions = q.executed_instructions ∙ p.executed_instructions;
  stack_limit = q.stack_limit ∙ p.stack_limit;
  stack_floor = q.stack_floor ∙ p.stack_floor;
  interrupt_shadow = q.interrupt_shadow ∙ p.interrupt_shadow;
  raises_consumed = q.raises_consumed ∙ p.raises_consumed;
  stopped_for_good = q.stopped_for_good ∙ p.stopped_for_good;
  fault_address = q.fault_address ∙ p.fault_address;
  fault_access = q.fault_access ∙ p.fault_access;
  fault_reason = q.fault_reason ∙ p.fault_reason;
  strict_mmio = q.strict_mmio ∙ p.strict_mmio;
  division_faults = q.division_faults ∙ p.division_faults;
  ieee_divide = q.ieee_divide ∙ p.ieee_divide;
  text_start = q.text_start ∙ p.text_start;
  text_end = q.text_end ∙ p.text_end;
}

-- The step that follows begins with no fault.
pub IsUntouched-calm :
    {W : Type 0} (m m' : Machine W)
    → IsUntouched m m'
    → IsUntouched m (record m' { faulted = false })
IsUntouched-calm m m' p = record {
  fregs = p.fregs;
  vram = p.vram;
  interrupts = p.interrupts;
  scheduler = p.scheduler;
  mmu = p.mmu;
  devices = p.devices;
  executed_instructions = p.executed_instructions;
  stack_limit = p.stack_limit;
  stack_floor = p.stack_floor;
  interrupt_shadow = p.interrupt_shadow;
  raises_consumed = p.raises_consumed;
  stopped_for_good = p.stopped_for_good;
  fault_address = p.fault_address;
  fault_access = p.fault_access;
  fault_reason = p.fault_reason;
  strict_mmio = p.strict_mmio;
  division_faults = p.division_faults;
  ieee_divide = p.ieee_divide;
  text_start = p.text_start;
  text_end = p.text_end;
}
