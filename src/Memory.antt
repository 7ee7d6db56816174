-- ===== src/Memory.antt =====
-- src/riscv/libs/BaseMemory.cc and src/riscv/libs/DataMemory.cc: a byte array behind bounds
-- assertions, and the read and write handlers of the data memory. The array is the list of its
-- bytes, so its length is `size`. A failed ASSERT_MSG is the fault `assertion`. The host that runs
-- the simulator reads and writes words in little-endian order.
pub mod Bytes
pub mod Handlers
pub mod Rw
pub mod Safety
pub mod Packets
