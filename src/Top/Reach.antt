-- ===== src/Top/Reach.antt =====
-- The states that the simulator reaches from `SOC::init`.
use aias_lab.Prelude.{
  ℕ, ◌/◌, ◌≡◌, sym, ap, ◌∙◌, arith, Option, List, [], length, All, All-get_elem?,
}
use mathlib.Core.Path.{subst}
use aias_lab.Prelude.Result.{Result, ok, bind-eq-ok, ok-injective}
use aias_lab.Prelude.Word.{IsWord}
use aias_lab.Instr.{Operand, Instr}
use aias_lab.Memory.Safety.{IsMemory}
use aias_lab.Packet.{Store, renew, set_pc}
use aias_lab.Port.{MasterPort}
use aias_lab.Cpu.Execute.{execute}
use aias_lab.Cpu.Invariant.{IsExec, IsInstr, execute-IsExec}
use aias_lab.Cpu.Cases.{retry-cases}
use aias_lab.Cpu.Commit.{
  increment_inst_count, schedule, ExecOneInstrEvent, Soc, fetch_instr, commit_instr, process_instr,
  exec_one_instr, retry_send_inst_packet,
}
use aias_lab.Cpu.Machine.{exec_of, commit_instr-IsKept}
use aias_lab.Cpu.Protocol.{Run, start, exec, retry, take, IsOrdered, Run-IsOrdered}
use aias_lab.Emulator.Text.{Reporter}
use aias_lab.Emulator.Lines.{Config}
use aias_lab.Top.Boot.{init}
use aias_lab.Top.Ready.{IsLayout, init-IsReady}

-- 32 word registers, a word pc, the data memory in its size, and the program with word immediates
-- in the instruction memory's slots.
pub record IsMachine (ports : MasterPort) (size slots : ℕ) (s : Soc ports) : Type 0 where
  pub exec : IsExec size (exec_of ports s)
  pub sized : length s.cpu.imem ≡ slots
  pub program : All IsInstr s.cpu.imem

fetch_instr-IsInstr :
    (ports : MasterPort) (s : Soc ports) (i : Instr)
    → All IsInstr s.cpu.imem
    → fetch_instr s.cpu s.cpu.pc ≡ ok i
    → IsInstr i
unfolding fetch_instr
fetch_instr-IsInstr ports s i a h = All-get_elem? IsInstr s.cpu.imem (s.cpu.pc / 4) a (ground arith)

module _ (ports : MasterPort) {size slots : ℕ} where
  open ports use {push}

  process_instr-IsMachine :
      (tick : ℕ) (i : Instr) (p : ℕ) (s : Soc ports) {t : Soc ports}
      → IsMachine ports size slots s
      → IsInstr i
      → process_instr ports tick i p s ≡ ok t
      → IsMachine ports size slots t
  unfolding process_instr
  process_instr-IsMachine tick i p s k w h =
      let (count, _, h0) = bind-eq-ok (increment_inst_count s.cpu.inst_cnt) _ h in
      let (x, executed, h1) = bind-eq-ok (execute i.op i (exec_of ports s)) _ h0 in
      let c = record s { cpu = record s.cpu { rf = x.rf; inst_cnt = count }; mem = x.mem } in
      let u = commit_instr ports tick i p c in
      let kept = commit_instr-IsKept ports tick i p c in
      let v = execute-IsExec i.op i (exec_of ports s) k.exec w executed in
      subst (IsMachine ports size slots) (ok-injective h1) (record {
        exec = record {
          registers = subst (λ (l : List ℕ). length l ≡ 32) (sym kept.rf) v.registers;
          words = subst (All IsWord) (sym kept.rf) v.words;
          memory = subst (IsMemory size) (sym kept.mem) v.memory;
          pc_word = v.pc_next_word;
          pc_next_word = omega arith;
        };
        sized = ap length kept.imem ∙ k.sized;
        program = subst (All IsInstr) (sym kept.imem) k.program;
      })

  exec_one_instr-IsMachine :
      (tick p : ℕ) (s : Soc ports) {t : Soc ports}
      → IsMachine ports size slots s
      → exec_one_instr ports tick p s ≡ ok t
      → IsMachine ports size slots t
  unfolding exec_one_instr
  exec_one_instr-IsMachine tick p s k h =
      let (i, fetched, h1) = bind-eq-ok (fetch_instr s.cpu s.cpu.pc) _ h in
      process_instr-IsMachine tick i p
        (record s { packets = set_pc (renew s.packets p i) p s.cpu.pc })
        (record { exec = k.exec; sized = k.sized; program = k.program })
        (fetch_instr-IsInstr ports s i k.program fetched) h1

  retry-IsMachine :
      (tick : ℕ) (s : Soc ports)
      → IsMachine ports size slots s
      → IsMachine ports size slots (retry_send_inst_packet ports tick s)
  unfolding schedule
  retry-IsMachine tick s k =
      retry-cases ports (IsMachine ports size slots) tick s k (λ _ _. kept) (λ _ _ _. kept)
        (λ _ _ _. kept)
    where
      kept :
          {port' : ports.Port} {events' : List ExecOneInstrEvent} {pending : Option ℕ} {n : ℕ}
          → IsMachine ports size slots (record s {
            cpu = record s.cpu { pending_inst_packet = pending };
            port = port';
            events = events';
            errors = n;
          })
      kept = record { exec = k.exec; sized = k.sized; program = k.program }

  -- Whatever the order of events, retries and takes, the machine stays well formed: 32 word
  -- registers, a word pc, a data memory of bytes in its size, and the instruction memory in its
  -- number of slots with word immediates.
  pub Run-IsMachine :
      (s : Soc ports) {issued taken : List ℕ} {t : Soc ports}
      → IsMachine ports size slots s
      → Run ports s issued taken t
      → IsMachine ports size slots t
  Run-IsMachine s k start = k
  Run-IsMachine s k (exec r tick p e rest eq h) =
      let m = Run-IsMachine s k r in
      exec_one_instr-IsMachine tick p _
        (record { exec = m.exec; sized = m.sized; program = m.program }) h
  Run-IsMachine s k (retry r tick) = retry-IsMachine tick _ (Run-IsMachine s k r)
  Run-IsMachine s k (take r x port' eq) =
      let m = Run-IsMachine s k r in record { exec = m.exec; sized = m.sized; program = m.program }

-- What holds in every state of a simulation.
pub record IsSound (ports : MasterPort) (cfg : Config) (issued taken : List ℕ) (s : Soc ports)
    : Type 0 where
  pub machine : IsMachine ports cfg.memory_size (cfg.data_offset / 4) s
  pub ordered : IsOrdered ports issued taken s

-- From the initialisation of a program that the assembler accepts, with both segments in the
-- memory and an empty port, every sequence of events, retries and takes keeps the machine well
-- formed, at most one instruction on its way, and the packets in the order of execution.
pub init-IsSound :
    (report : Reporter) (missing : Result (Unit {0})) (cfg : Config) (ports : MasterPort)
    (o : ℕ → ℕ → Operand) (buffer : List ℕ) (tick : ℕ) (file : Option (List (List ℕ)))
    (packets : Store) (port : ports.Port) {s t : Soc ports} {issued taken : List ℕ}
    → IsLayout cfg
    → ((k j : ℕ) → IsWord (o k j).imm)
    → ports.contents port ≡ []
    → init report missing ports cfg o buffer tick file packets port ≡ ok s
    → Run ports s issued taken t
    → IsSound ports cfg issued taken t
init-IsSound report missing cfg ports o buffer tick file packets port {s} fits w empty booted r =
    let ready =
      (init-IsReady report missing cfg fits ports o buffer tick file packets port w empty).at s
        booted in
    record {
      machine =
          Run-IsMachine ports s
            (record { exec = ready.start.exec; sized = ready.sized; program = ready.program }) r;
      ordered = Run-IsOrdered ports s (omega (arith, ready.one_token)) ready.nothing_sent r;
    }
