-- ===== src/Lib.antt =====
-- The Ceres virtual machine: a 32-bit register machine with paging, interrupts, an event scheduler and
-- devices in its address space (Ceres/libs/vm, and the instruction words of Ceres/libs/core).
--
-- The parts and how they interact. The machine loads a program's file into memory and resets the
-- engine. The engine fetches a word, executes it, and reaches memory through one chain: the MMU
-- translates, and the physical address goes to the RAM, the video memory or a device. What fails raises
-- an interrupt, whose entry pushes a frame on the system stack. Before each instruction the engine runs
-- the device events that came due (scheduler) and takes the lowest pending request (interrupt
-- controller).
--
--   Memory       Ceres/libs/vm/include/ceres/vm/memory.h: readRaw, writeRaw, readBacked, writeBacked and
--                the byte spans. The array is a total function and a size; exceptions are `none`.
--   Vram         vram.h: the window, the bytes, the marks of written pages.
--   Mmu          mmu.h: the page table walk and its cache. Mmu/Walk reads the table with no cache, which
--                is the specification; Mmu/Coherence says when a cache agrees with it.
--   Interrupt    interrupt_controller.h: the pending mask. Its atomics and sleeping threads are left out.
--   Scheduler    scheduler.h and scheduler.cpp: the table of events as the list of its live part.
--   Isa          fields.h and instructions.h of Ceres/libs/core/include/ceres/core/isa.
--   Engine       execution_engine.h and execution_engine.cpp. State holds the members, Access the
--                translation, routing and stack, Interrupts the entry, IRET, HALT and step, Alu the
--                `execute` helpers, Execute the handlers that compute and jump, Transfers the handlers
--                that reach memory. SystemStack, Delivery and Step hold lemmas on them.
--                Pairs holds the 64-bit instructions on register pairs.
--   Isa.Wide     wide.h of Ceres/libs/core/include/ceres/core/isa: the banks of their fields and which of
--                their words the machine runs.
--   Program      program.h and Ceres/libs/core/src/format/program.cpp: a program's file, written and
--                loaded from a span, a stream or a file. The packed header is read as a little-endian host
--                reads it; a file that does not open is `none`.
--   Mmio         mmio_bus.h, with register_map.h and io_device.h: the slots of the devices.
--   Timer        Ceres/libs/devices/src/system/timer.cpp: the timer, attached to a bus.
--   Vm           ceresvm.h, Ceres/libs/vm/src/ceresvm.cpp and bios.h: a program and its arguments put
--                into memory, the default handlers, the requests to reset and to load. Frame, Placed and
--                Block say what its writes leave alone and what they put.
--   Prelude      tests, lists, binary digits and machine words that the parts share.
--
-- Numbers are naturals; a 32-bit or 64-bit quantity is reduced where the source wraps. Signed numbers
-- are their patterns. Access widths are 1, 2 and 4 bytes.
--
-- Recursion. An access that faults raises an interrupt, and the entry of an interrupt pushes, so the
-- source's `triggerInterrupt` calls itself through `push` and `write`. Access takes the entry as an
-- argument; `trigger` ties the knot with fuel, which is the depth of the host's call stack, and gives
-- `none` when it runs out. From a program that is in no handler one level is enough. The pass of the
-- scheduler takes fuel beyond the number of its events, which is enough when devices schedule nothing.
--
-- Devices. They are an interface, `Devices` of Engine/State: their registers, the gate of the video
-- memory and their events, each a function of the whole machine, since a device may change it. What a
-- C++ shift past the word's width gives is an argument of the shifts.
--
-- `Mmio` is the bus that stands behind those registers, over devices that are parameters in turn
-- (`IoDevices`). In `Vm` an exception that leaves a `noexcept` function ends the process and is `none`.
--
-- Not modelled: floating point, the block instructions, the observers and the profile; the locks and
-- atomics between threads and the endless loop of `run`; the contents of the debug section; the devices
-- other than the timer, the assembler, the debugger and the driver.
pub mod Prelude
pub mod Memory
pub mod Program
pub mod Interrupt
pub mod Scheduler
pub mod Mmu
pub mod Vram
pub mod Isa
pub mod Engine
pub mod Mmio
pub mod Timer
pub mod Vm
