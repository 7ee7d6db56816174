-- ===== src/Top/System.antt =====
-- src/riscv/include/SOCTop.hh: the four simulators, with the port that the SOC and the IF stage
-- share and the two pipe registers, and what the simulation kernel may do next.
use aias_lab.Prelude.{ℕ, ◌≡◌, ◌==◌, Bool, not, false, All, Option, none, List, [], ◌∷◌, ◌++◌}
use aias_lab.Prelude.Result.{ok}
use aias_lab.Prelude.Word.{add32}
use aias_lab.Port.{SimPort}
use aias_lab.Pipe.{PipeRegister}
use aias_lab.Cpu.Commit.{ExecOneInstrEvent, Soc, exec_one_instr, fetch_instr}
use aias_lab.Cpu.Sending.{waiting}
use aias_lab.Instr.{Instr}
use aias_lab.Stage.Steps.{Pipeline}
use aias_lab.Stage.Order.{Action, act}
use aias_lab.Top.Boot.{master_port_retry}

-- An instruction that was executed: its packet, the pc at which it was fetched, and whether the CPU
-- went on elsewhere than behind it.
pub record Issue : Type 0 where
  pub ptr : ℕ
  pub inst : Instr
  pub pc : ℕ
  pub taken : Bool

abbrev pub pointers : List Issue → List ℕ
pointers [] = []
pointers (x ∷ xs) = x.ptr ∷ pointers xs

module _ (ports : SimPort) (regs : PipeRegister) where
  -- The SOC with its end of the port, and the stages: the port and the packets are the SOC's.
  pub record System : Type 0 where
    pub soc : Soc ports.master
    pub exe_inst_packet : Option ℕ
    pub wb_inst_packet : Option ℕ
    pub if_exe : regs.Reg
    pub exe_wb : regs.Reg
    pub exe_stage_wb : Option ℕ
    pub recycled : List ℕ
    pub forced : ℕ
    pub errors : ℕ

  -- `registerSimulators` and `registerPipeRegisters`: the simulators that `SOCTop` creates, with
  -- their members null, around an initialised SOC and two registers.
  unfoldable pub connect : Soc ports.master → regs.Reg → regs.Reg → System
  connect soc if_exe exe_wb = record {
    soc = soc;
    exe_inst_packet = none;
    wb_inst_packet = none;
    if_exe = if_exe;
    exe_wb = exe_wb;
    exe_stage_wb = none;
    recycled = [];
    forced = 0;
    errors = 0;
  }

  -- What the stages see, and the system after they have changed it.
  abbrev pub pipeline_of : System → Pipeline ports regs
  pipeline_of s = record {
    packets = s.soc.packets;
    port = s.soc.port;
    exe_inst_packet = s.exe_inst_packet;
    wb_inst_packet = s.wb_inst_packet;
    if_exe = s.if_exe;
    exe_wb = s.exe_wb;
    exe_stage_wb = s.exe_stage_wb;
    recycled = s.recycled;
    forced = s.forced;
    errors = s.errors;
  }

  abbrev pub put_pipeline : Pipeline ports regs → System → System
  put_pipeline q s = record {
    soc = record s.soc { packets = q.packets; port = q.port };
    exe_inst_packet = q.exe_inst_packet;
    wb_inst_packet = q.wb_inst_packet;
    if_exe = q.if_exe;
    exe_wb = q.exe_wb;
    exe_stage_wb = q.exe_stage_wb;
    recycled = q.recycled;
    forced = q.forced;
    errors = q.errors;
  }

  -- The packets that are on their way from the CPU to write-back, oldest first.
  abbrev pub moving : System → List ℕ
  moving s =
      regs.held s.exe_wb
      ++ (regs.held s.if_exe ++ (ports.contents s.soc.port ++ waiting ports.master s.soc))

  -- Every interleaving of the SOC's events, the port's retries, the steps of the stages and the
  -- synchronisation, with the instructions executed, oldest first. The recycle container hands out
  -- a packet that is not on its way.
  pub data Trace (s : System) : List Issue → System → Type 0 where
    fresh : Trace s [] s
    event :
        {issued : List Issue} {t : System} {soc' : Soc ports.master}
        → Trace s issued t
        → (tick p : ℕ) (i : Instr) (e : ExecOneInstrEvent) (rest : List ExecOneInstrEvent)
        → t.soc.events ≡ e ∷ rest
        → fetch_instr t.soc.cpu t.soc.cpu.pc ≡ ok i
        → All (λ (q : ℕ). (q == p) ≡ false) (moving t)
        → exec_one_instr ports.master tick p (record t.soc { events = rest }) ≡ ok soc'
        → Trace s
            (issued
              ++ record {
                ptr = p;
                inst = i;
                pc = t.soc.cpu.pc;
                taken = not (soc'.cpu.pc == add32 t.soc.cpu.pc 4);
              }
                ∷ [])
            (record t { soc = soc' })
    port_retry :
        {issued : List Issue} {t : System}
        → Trace s issued t
        → (tick : ℕ) (port_name : List ℕ)
        → Trace s issued (record t { soc = master_port_retry ports.master tick port_name t.soc })
    stage :
        {issued : List Issue} {t : System}
        → Trace s issued t
        → (a : Action) → Trace s issued (put_pipeline (act ports regs a (pipeline_of t)) t)
