-- ===== src/Lib.antt =====
-- The RISC-V simulator of src/riscv: an assembler, a functional RV32I model that a CPU runs on, an
-- ACALSim simulator around them, and three pipeline stages that model the timing.
--
-- Parts, and the files that model them (paths of the repository):
--   src/riscv/include/DataStruct.hh                  Instr
--   src/riscv/libs/BaseMemory.cc, DataMemory.cc      Memory/Bytes, Memory/Handlers
--   src/riscv/libs/MemPacket.cc, event/MemReqEvent.cc
--                                                    Memory/Packets
--   src/riscv/include/InstPacket.hh                  Packet
--   src/riscv/libs/InstPacket.cc                     Stage/Steps (visit)
--   src/riscv/libs/CPU.cc                            Cpu/Execute (the switch of processInstr with
--                                                    memRead and memWrite), Cpu/Commit (the rest),
--                                                    Cpu/Requests (the packets of memRead, memWrite)
--   src/riscv/libs/IFStage.cc                        Stage/Hazard, Stage/Steps
--   src/riscv/libs/EXEStage.cc, include/WBStage.hh,
--   libs/TopPipeRegisterManager.cc                   Stage/Steps
--   src/riscv/libs/Emulator.cc                       Emulator: Text (streq), Opcode, Registers,
--                                                    Numbers (parse_imm, signextend), Source
--                                                    (append_source), Code and Pseudo
--                                                    (parse_pseudoinstructions), Tokens (strtok),
--                                                    Operands (parse_instr), Lines (parse), Labels
--                                                    (normalize_labels)
--   src/riscv/include/SystemConfig.hh                Emulator/Lines (Config), Top/Config (defaults)
--   src/riscv/libs/SOC.cc, include/SOC.hh            Top/Boot, Top/Print (cleanup)
--   src/riscv/include/SOCTop.hh                      Top/System
-- The other files hold the proofs: Memory/Rw and Memory/Safety on the handlers; Isa, a description
-- of RV32I that shares no operation with CPU.cc, and Cpu/View to Cpu/Machine, which hold the CPU to
-- it; Cpu/Program, that description on a whole program, Cpu/Core, the program's sequential
-- execution without the simulator, and Cpu/Computes, which compares the two; Cpu/Sending,
-- Cpu/Protocol and Cpu/Halt on the order and the end of the CPU's events; Stage/Independent to
-- Stage/Stall on hazards, order and stalls; Emulator/Encoded, Expanded, Filled, Placed, Parsed and
-- Normalized on what the assembler keeps, Emulator/Words, Written, Forms, Appended, Assembled,
-- Lined, Listing and Plain on ordinary instructions from their text on, Emulator/Field, Meant and
-- Permitted on what they mean, Emulator/Loads and Emulator/Address on what the CPU makes of li and
-- la, Emulator/Resolved, Emulator/Find and Emulator/Target on labels, Emulator/Elements on data
-- elements, Emulator/Immediates and Emulator/Printed on numbers, Emulator/Overrun on the last slot;
-- Top/Ready, Top/Reach and Top/Loaded on the modules from their initialisation on, Top/Carried,
-- Top/Delivered and Top/Alive on the packets and events of the whole simulator, Top/Sequential,
-- Top/Computes and Top/Progress on what it computes, and Top/Sourced on what the source text has to
-- do with that. Prelude/Ensures has the rules by which they follow the code, one for each way to
-- build it. Cpu/Cases and Top/Cases have one case for each way through the methods that send
-- packets. Tests runs the definitions and applies the theorems on concrete inputs.
--
-- How the parts interact: SOC::init creates the modules, has the assembler fill the instruction
-- memory and the data memory, and schedules the first event. An ExecOneInstrEvent calls
-- execOneInstr, which fetches and executes one instruction at once and hands its packet to the port
-- "sIF-m"; the next event is scheduled when the packet is accepted, and a refused packet waits for
-- masterPortRetry. IFStage takes packets from the other end of that port and passes them on by
-- prIF2EXE, EXEStage by prEXE2WB, and WBStage recycles them. The kernel's choice of the next event,
-- step or retry is left open: a trace is any sequence of them.
--
-- Correspondence: a uint32_t is a number below 2 ^ 32 with its wrap-around written out, a pointer
-- to a packet is a number and the packets live in a store, `imem`, `rf` and the memory are lists.
-- The source file is the list of the buffers that fgets returns. `Result` has the fault `undefined`
-- for undefined behaviour of C++ (an index outside an array, a shift by 32 or more, an int above
-- its largest value), `assertion` for a failed ASSERT_MSG and `exit n` for exit(n). A word or a
-- halfword in memory is read and written whether or not it is aligned, as the usual hosts do. What
-- a constructor leaves uninitialised is given by a function of its place. Logging is left out;
-- events scheduled, packets recycled and CLASS_ERROR messages are recorded in the state.
--
-- ACALSim is not part of the repository: its ports and pipe registers are the records MasterPort,
-- SimPort and PipeRegister, whose laws say that a queue neither loses nor invents nor reorders
-- packets. The recycle container is the packet number given to each event; in a trace that packet
-- is not on its way. `accept` is a parameter that calls the packet's visit. The ERROR stream, by
-- which the assembler reports a syntax error, is a parameter that may stop the program or return.
-- strtok, strtol, atoi and sprintf are those of the C library. No definition needs fuel.
--
-- Not modelled: the log and what only hands names to the framework (registerConfigs,
-- registerCLIArguments, main.cc); DEStage.hh and MEMStage.hh, which are empty and not registered;
-- the code generator, the scripts and the Chisel implementation, which are not part of the C++
-- program.
pub mod Prelude
pub mod Instr
pub mod Memory
pub mod Packet
pub mod Port
pub mod Pipe
pub mod Isa
pub mod Cpu
pub mod Stage
pub mod Emulator
pub mod Top
mod Tests
