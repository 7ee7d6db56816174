-- ===== src/Top.antt =====
-- The simulator as a whole: src/riscv/libs/SOC.cc and include/SystemConfig.hh.
pub mod Config
pub mod Boot
pub mod Cases
pub mod Print
pub mod Ready
pub mod Reach
pub mod System
pub mod Carried
pub mod Delivered
pub mod Alive
pub mod Sequential
pub mod Computes
pub mod Progress
pub mod Loaded
pub mod Sourced
