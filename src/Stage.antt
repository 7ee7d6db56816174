-- ===== src/Stage.antt =====
-- The timing model: src/riscv/libs/IFStage.cc, src/riscv/libs/EXEStage.cc,
-- src/riscv/include/WBStage.hh and src/riscv/libs/TopPipeRegisterManager.cc.
pub mod Hazard
pub mod Steps
pub mod Independent
pub mod Order
pub mod Cases
pub mod Stall
