-- ===== src/Tests/Soc.antt =====
-- The CPU with its port: two instructions, `addi x5, x0, 42` and HCF.
use aias_lab.Prelude.{◌≡◌, refl, arith, false, none, [], ◌∷◌}
use aias_lab.Prelude.Result.{ok}
use aias_lab.Instr.{add, addi, hcf, Instr}
use aias_lab.Packet.{Store}
use aias_lab.Cpu.Commit.{Soc, exec_one_instr, fetch_instr, retry_send_inst_packet}
use aias_lab.Cpu.Invariant.{IsInstr}
use aias_lab.Cpu.View.{IsLegal}
use aias_lab.Cpu.Shapes.{IsStart}
use aias_lab.Cpu.Protocol.{Run, start, exec, retry}
use aias_lab.Cpu.Machine.{exec_of, IsRetired, exec_one_instr-IsRetired}
use aias_lab.Tests.Data.{instr, regs, bytes}
use aias_lab.Tests.Framework.{queue_port}

abbrev addi_x5 : Instr
addi_x5 = instr addi 5 0 0 42

abbrev pub packets : Store
packets p = record { inst = instr add 0 0 0 0; str = []; pc = 0; is_taken_branch = false }

-- The port is empty and the first event scheduled.
abbrev pub soc : Soc queue_port
soc = record {
  cpu = record {
    imem = addi_x5 ∷ instr hcf 0 0 0 0 ∷ [];
    rf = regs;
    pc = 0;
    inst_cnt = 0;
    pending_inst_packet = none;
  };
  mem = bytes;
  packets = packets;
  port = [];
  events = record { id = 0; when = 1 } ∷ [];
  errors = 0;
}

-- The event is removed as the simulator processes it.
abbrev started : Soc queue_port
started = record soc { events = [] }

fetched : fetch_instr soc.cpu soc.cpu.pc ≡ ok addi_x5
unfolding fetch_instr
fetched = refl

soc-IsStart : IsStart 16 (exec_of queue_port soc)
soc-IsStart = record {
  exec = record {
    registers = refl;
    words = omega arith;
    memory = record { sized = refl; bytes = omega arith };
    pc_word = omega arith;
    pc_next_word = omega arith;
  };
  x0_zero = refl;
  follows = refl;
}

addi_x5-IsInstr : IsInstr addi_x5
addi_x5-IsInstr = record { imm2 = omega arith; imm3 = omega arith }

addi_x5-IsLegal : IsLegal addi addi_x5 (exec_of queue_port soc)
addi_x5-IsLegal = (
  record { is_reg = record { nonneg = refl; below = omega arith }; ne_x0 = omega arith },
  record { nonneg = refl; below = omega arith },
)

exec_one_instr-IsRetired_example :
    (t : Soc queue_port) × (exec_one_instr queue_port 1 3 started ≡ ok t)
    × IsRetired queue_port 3 addi_x5 started t
exec_one_instr-IsRetired_example =
    exec_one_instr-IsRetired queue_port 1 3 addi_x5 started (omega arith) fetched soc-IsStart
      addi_x5-IsInstr addi_x5-IsLegal

-- One event, and a retry that another event of the simulator causes.
two_steps :
    Run queue_port soc
      (3 ∷ [])
      []
      (retry_send_inst_packet queue_port 2 exec_one_instr-IsRetired_example.0)
two_steps = retry (exec start 1 3 _ [] refl exec_one_instr-IsRetired_example.1) 2
