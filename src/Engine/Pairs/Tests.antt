-- ===== src/Engine/Pairs/Tests.antt =====
-- A machine with r2 = 0x800, r5:r4 = 2 ^ 32 + 5 and r7:r6 = 2 ^ 64 - 1.
use ceres_vm.Prelude.{
  ℕ, ◌+◌, ◌-◌, ◌%◌, ◌^◌, ◌≡◌, refl, Bool, true, false, not, Option, some, none, [], ◌↔◌, arith,
}
use ceres_vm.Prelude.Tests.{ltb, leb}
use ceres_vm.Prelude.Words.{u8}
use ceres_vm.Scheduler.{no_scheduled_event}
use ceres_vm.Isa.{opcode, rd, rs, rt, get, sign_extend}
use ceres_vm.Isa.Wide
use ceres_vm.Isa.Wide.{is_wide, describe, valid_subfield, find_row, valid_field}
use ceres_vm.Isa.Pairs.{FitsBank, check-FitsBank}
use ceres_vm.Memory.{Memory, put}
use ceres_vm.Engine.State.{
  Machine, Devices, get_reg, charge, advance_pc, flag_on, paging_flag, get_flag,
}
use ceres_vm.Engine.SystemStack.{IsMachineMemory}
use ceres_vm.Engine.Transfers.{displaced, load_address, store_address}
use ceres_vm.Engine.Pairs.{get_pair, set_pair, ldrd, strd, add64, sub64_two, run_pair}
use ceres_vm.Engine.Pairs.Sums.{HasPair, signed_sum_fits64, signed_difference_fits64}
use ceres_vm.Engine.Pairs.Words.{IsWritable64, stored64, both_words}
use ceres_vm.Engine.Pairs.RoundTrip.{ldrd-strd}
use ceres_vm.Engine.Pairs.Runs.{HasWords, add64_sub64_run}

abbrev memory : Memory
memory = record { size = 8192; bytes = λ c. 0 }

abbrev machine : Machine (Unit {0})
machine = record {
  regs = put (put (put (put (put (λ r. 0) 2 0x800) 4 5) 5 1) 6 0xFFFF_FFFF) 7 0xFFFF_FFFF;
  fregs = λ r. 0;
  pc = 0x800;
  flags = 0;
  memory = memory;
  vram = record { size = 16384; bytes = λ c. 0; written = λ p. 0 };
  interrupts = record { pending = 0; raises = 0 };
  scheduler = record { events = []; next = no_scheduled_event };
  mmu = record { ptbr = 0; tlb = []; tlb_next_victim = 0; fault_address = 0 };
  devices = tt;
  faulted = false;
  executed_instructions = 0;
  cycles = 0;
  stack_limit = 0x400;
  stack_floor = 0x400;
  interrupt_depth = 0;
  saved_stack_pointer = 0;
  interrupt_shadow = false;
  raises_consumed = 0;
  stopped_for_good = false;
  fault_address = 0;
  fault_access = 0;
  fault_reason = 0;
  strict_mmio = false;
  division_faults = false;
  ieee_divide = false;
  text_start = 0;
  text_end = 0;
}

abbrev nothing : Devices (Unit {0})
nothing = record {
  declares = λ p m. false;
  mmio_read = λ p m. (0, m);
  mmio_write = λ p v m. m;
  admit_store = λ p m. (true, m);
  on_event = λ e m. m;
}

abbrev no_entry : ℕ → Machine (Unit {0}) → Option (Bool × Machine (Unit {0}))
no_entry number m = none

machine-HasWords : HasWords machine
machine-HasWords r = ground arith

memory-IsMachineMemory : IsMachineMemory memory
memory-IsMachineMemory = record {
  least = omega arith;
  most = omega arith;
  bytes = λ i. ground arith;
}

runs :
    (Wide.check 0xD724_6000 ≡ Wide.ok)
    × (Wide.check 0xD824_6000 ≡ Wide.ok)
    × (Wide.check 0xEA24_0008 ≡ Wide.ok)
    × (Wide.check 0xE962_0008 ≡ Wide.ok)
unfolding Wide.check is_wide describe valid_subfield find_row valid_field get
runs = (refl, refl, refl, refl)

-- x7 would be fp and sp, and an odd register starts no pair.
refused :
    (Wide.check 0xD7E4_6000 ≡ Wide.register_pair)
    × (Wide.check 0xD734_6000 ≡ Wide.register_pair)
    × (Wide.check 0xE524_00C0 ≡ Wide.bad_subfield)
unfolding Wide.check is_wide describe valid_subfield find_row valid_field get
refused = (refl, refl, refl)

codes : (opcode 0xD724_6000 ≡ 0xD7) × (opcode 0xD824_6000 ≡ 0xD8)
unfolding get
codes = (refl, refl)

wide_code : is_wide (opcode 0xD724_6000) ≡ true
unfolding is_wide get
wide_code = refl

check-FitsBank_example : (Wide.check 0xD724_6000 ≡ Wide.ok) ↔ (
    (valid_subfield 0xD724_6000 ≡ true)
    × FitsBank (describe 0xD724_6000).rd_bank (rd 0xD724_6000)
    × FitsBank (describe 0xD724_6000).rs_bank (rs 0xD724_6000)
    × FitsBank (describe 0xD724_6000).rt_bank (rt 0xD724_6000))
check-FitsBank_example = check-FitsBank 0xD724_6000 wide_code

abbrev x : ℕ
x = get_pair (rs 0xD724_6000) machine

abbrev y : ℕ
y = get_pair (rt 0xD724_6000) machine

add64_sub64_run_example :
    ((m' : Machine (Unit {0})) × (run_pair nothing no_entry add64 0xD724_6000 machine
        ≡ some (tt, m'))
      × HasPair
          (rd 0xD724_6000)
          ((x + y) % 2 ^ 64)
          (leb (2 ^ 64) (x + y))
          (not (signed_sum_fits64 x y))
          machine
          m'
      × (get_reg 14 m' ≡ get_reg 14 machine)
      × (get_reg 15 m' ≡ get_reg 15 machine))
    × ((m' : Machine (Unit {0})) × (run_pair nothing no_entry sub64_two 0xD824_6000 machine
          ≡ some (tt, m'))
        × HasPair
            (rd 0xD824_6000)
            ((get_pair (rs 0xD824_6000) machine + 2 ^ 64 - get_pair (rt 0xD824_6000) machine)
              % 2 ^ 64)
            (ltb (get_pair (rs 0xD824_6000) machine) (get_pair (rt 0xD824_6000) machine))
            (not (
              signed_difference_fits64
                (get_pair (rs 0xD824_6000) machine)
                (get_pair (rt 0xD824_6000) machine)))
            machine
            m'
        × (get_reg 14 m' ≡ get_reg 14 machine)
        × (get_reg 15 m' ≡ get_reg 15 machine))
add64_sub64_run_example =
    add64_sub64_run nothing no_entry 0xD724_6000 0xD824_6000 machine codes.0 codes.1 runs.0 runs.1
      machine-HasWords

address : store_address displaced 0xEA24_0008 machine ≡ 0x808
unfolding store_address get sign_extend
address = refl

target-IsWritable64 : IsWritable64 (store_address displaced 0xEA24_0008 machine) machine
target-IsWritable64 =
    rw address
      (record { aligned = refl; low = omega arith; high = omega arith; outside_text = refl })

abbrev after : Machine (Unit {0})
after = record machine {
  memory =
      both_words (store_address displaced 0xEA24_0008 machine) (get_pair (rs 0xEA24_0008) machine)
        memory;
}

same_address :
    load_address displaced 0xE962_0008 after ≡ store_address displaced 0xEA24_0008 machine
unfolding store_address load_address get sign_extend
same_address = refl

unpaged : flag_on paging_flag machine ≡ false
unfolding get_flag
unpaged = refl

ldrd-strd_example :
    (strd nothing no_entry displaced 0xEA24_0008 machine
      ≡ some (
        tt,
        advance_pc (
            stored64
              (store_address displaced 0xEA24_0008 machine)
              (get_pair (rs 0xEA24_0008) machine)
              machine),
      ))
    × (ldrd nothing no_entry displaced 0xE962_0008 after
        ≡ some (
          tt,
          advance_pc
              (set_pair (rd 0xE962_0008) (get_pair (rs 0xEA24_0008) machine) (charge 2 after)),
        ))
ldrd-strd_example =
    ldrd-strd nothing no_entry displaced displaced 0xEA24_0008 0xE962_0008 machine after runs.2
      runs.3 memory-IsMachineMemory unpaged refl target-IsWritable64
      (machine-HasWords (rs 0xEA24_0008)) (machine-HasWords (u8 (rs 0xEA24_0008 + 1))) refl unpaged
      refl same_address
