-- ===== src/Top/Boot.antt =====
-- SOC.cc: the modules that `SOC::registerModules` creates, and `SOC::simInit`, which assembles the
-- program into them and schedules the first event.
use aias_lab.Prelude.{ℕ, ◌+◌, Option, none, some, List, [], ◌∷◌, if◌then◌else◌}
use aias_lab.Prelude.Result.{undefined, Result, ok, err, ◌>>=◌, ◌>>◌}
use aias_lab.Instr.{Operand}
use aias_lab.Memory.Bytes.{alloc}
use aias_lab.Packet.{Store}
use aias_lab.Port.{MasterPort}
use aias_lab.Cpu.Commit.{Cpu, new_cpu, Soc, retry_send_inst_packet}
use aias_lab.Emulator.Text.{codes, streq, Reporter}
use aias_lab.Emulator.Source.{Source}
use aias_lab.Emulator.Labels.{LabelLoc, normalize_labels}
use aias_lab.Emulator.Lines.{Config, Asm, parse}

-- The fields of `Emulator`.
pub record Emulator : Type 0 where
  pub labels : List LabelLoc
  pub memoff : ℕ
  pub src : Source

-- Its constructor; `buffer` is what malloc returns for the source text.
abbrev pub new_emulator : List ℕ → Emulator
new_emulator buffer = record { labels = []; memoff = 0; src = record { src = buffer; offset = 0 } }

-- The data memory, the assembler and the CPU.
pub record Modules : Type 0 where
  pub dmem : List ℕ
  pub isa_emulator : Emulator
  pub cpu : Cpu

-- `registerModules`; `o` gives what `new instr[n]` leaves uninitialised in each operand.
unfoldable pub register_modules : Config → (ℕ → ℕ → Operand) → List ℕ → Modules
register_modules cfg o buffer = record {
  dmem = alloc cfg.memory_size;
  isa_emulator = new_emulator buffer;
  cpu = new_cpu cfg.data_offset o;
}

-- What `parse` reads and writes, through the pointers that it is given.
abbrev pub asm_of : Modules → Asm
asm_of m = record {
  code = record { imem = m.cpu.imem; src = m.isa_emulator.src };
  mem = m.dmem;
  memoff = m.isa_emulator.memoff;
  labels = m.isa_emulator.labels;
}

-- `missing` is the ERROR message for a file that cannot be opened.
module _ (report : Reporter) (missing : Result (Unit {0})) where
  -- `Emulator::parse` on the path: reading on from a null FILE is undefined.
  unfoldable pub parse_path : Config → Option (List (List ℕ)) → Asm → Result Asm
  parse_path cfg none s = missing >> err undefined
  parse_path cfg (some file) s = parse report cfg 1 file s

  module _ (ports : MasterPort) where
    -- `simInit` at a tick, with the port "sIF-m" and the store of packets of the framework. Nothing
    -- reads the assembler's own state afterwards.
    unfoldable pub sim_init :
        Config → ℕ → Option (List (List ℕ)) → Modules → Store → ports.Port → Result (Soc ports)
    sim_init cfg tick file m packets port = do
      a ← parse_path cfg file (asm_of m)
      y ← normalize_labels report cfg.max_src_len a.labels 0 a.code.imem a.code.src
      ok (record {
        cpu = record m.cpu { imem = y.1 };
        mem = a.mem;
        packets = packets;
        port = port;
        events = record { id = 1; when = tick + 1 } ∷ [];
        errors = 0;
      })

    -- `SOC::init`.
    unfoldable pub init :
        Config
        → (ℕ → ℕ → Operand)
        → List ℕ
        → ℕ
        → Option (List (List ℕ))
        → Store
        → ports.Port
        → Result (Soc ports)
    init cfg o buffer tick file packets port =
        sim_init cfg tick file (register_modules cfg o buffer) packets port

-- `SOC::masterPortRetry`.
unfoldable pub master_port_retry : (ports : MasterPort) → ℕ → List ℕ → Soc ports → Soc ports
master_port_retry ports tick port_name s =
    if streq port_name (codes "sIF-m") then retry_send_inst_packet ports tick s else s
