-- ===== src/Engine.antt =====
-- The execution engine (Ceres/libs/vm/include/ceres/vm/execution_engine.h and
-- Ceres/libs/vm/src/execution_engine.cpp): the state, and below it the accesses, the interrupts, the
-- arithmetic and the instructions.
pub mod State
pub mod Access
pub mod Interrupts
pub mod SystemStack
pub mod Untouched
pub mod Delivery
pub mod Alu
pub mod Execute
pub mod Transfers
pub mod Pairs
pub mod Step
mod Tests
