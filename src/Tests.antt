-- ===== src/Tests.antt =====
-- Concrete inputs, runs of the model on them, and the theorems applied to them.
mod Data
mod Mem
mod Packets
mod Switch
mod Framework
mod Timing
mod Soc
mod Asm
mod Numbers
mod Boot
mod System
mod Runs
mod Sourced
mod Lines
