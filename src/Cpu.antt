-- ===== src/Cpu.antt =====
-- src/riscv/libs/CPU.cc: the single-cycle CPU that executes instructions and hands their packets
-- to the pipeline model.
pub mod Execute
pub mod Commit
pub mod Cases
pub mod Invariant
pub mod View
pub mod Arith
pub mod Shapes
pub mod Access
pub mod Refines
pub mod Deviations
pub mod Sending
pub mod Protocol
pub mod Halt
pub mod Machine
pub mod Program
pub mod Core
pub mod Computes
pub mod Requests
