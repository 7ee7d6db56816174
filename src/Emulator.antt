-- ===== src/Emulator.antt =====
-- src/riscv/libs/Emulator.cc: the assembler that fills the instruction memory and the data memory.
pub mod Text
pub mod Opcode
pub mod Numbers
pub mod Registers
pub mod Immediates
pub mod Find
pub mod Printed
pub mod Source
pub mod Code
pub mod Pseudo
pub mod Labels
pub mod Tokens
pub mod Operands
pub mod Lines
pub mod Elements
pub mod Encoded
pub mod Expanded
pub mod Filled
pub mod Placed
pub mod Parsed
pub mod Normalized
pub mod Overrun
pub mod Words
pub mod Written
pub mod Forms
pub mod Appended
pub mod Assembled
pub mod Lined
pub mod Listing
pub mod Plain
pub mod Field
pub mod Meant
pub mod Permitted
pub mod Loads
pub mod Address
pub mod Resolved
pub mod Target
