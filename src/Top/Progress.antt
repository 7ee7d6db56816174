-- ===== src/Top/Progress.antt =====
-- What the kernel can do next in a state of the simulator.
use aias_lab.Prelude.{
  ℕ, suc, ◌^◌, ◌<◌, ◌≡◌, refl, inl, inr, arith, false, Option, some, List, [], ◌∷◌, length, All,
  if◌then◌else◌, Option-cases,
}
use aias_lab.Prelude.Result.{Result, ok}
use aias_lab.Prelude.Word.{IsWord}
use aias_lab.Instr.{Operand}
use aias_lab.Isa.{Arch}
use aias_lab.Packet.{Store}
use aias_lab.Port.{SimPort, MasterPort}
use aias_lab.Pipe.{PipeRegister}
use aias_lab.Cpu.Cases.{retry_some-cases}
use aias_lab.Cpu.Commit.{
  schedule, ExecOneInstrEvent, Soc, is_hcf, exec_one_instr, retry_send_inst_packet,
}
use aias_lab.Cpu.Machine.{soc_view}
use aias_lab.Cpu.Program.{IsaRun, isa_run, AllAllowed}
use aias_lab.Cpu.Sending.{no_events, one_event}
use aias_lab.Emulator.Text.{Reporter}
use aias_lab.Emulator.Lines.{Config}
use aias_lab.Top.Boot.{init}
use aias_lab.Top.Ready.{IsLayout, IsReady, init-IsReady}
use aias_lab.Top.System.{System, connect, Issue, Trace}
use aias_lab.Top.Alive.{IsAlive, IsRunning, Trace-IsAlive}
use aias_lab.Top.Computes.{boot_arch, IsReady-boot_arch, IsReady-IsCore, event-isa_run}

-- One event is scheduled, and it leaves the CPU in `w`; or a packet waits, no event is scheduled, and
-- a retry schedules one exactly if the port accepts.
pub data Goes (ports : MasterPort) (now p : ℕ) (w : Arch) (s : Soc ports) : Type 0 where
  executes :
      {e : ExecOneInstrEvent} {u : Soc ports}
      → s.events ≡ e ∷ []
      → exec_one_instr ports now p (record s { events = [] }) ≡ ok u
      → soc_view ports u ≡ w
      → Goes ports now p w s
  waits :
      {q : ℕ}
      → s.cpu.pending_inst_packet ≡ some q
      → s.events ≡ []
      → length (retry_send_inst_packet ports now s).events
        ≡ (if (ports.push s.port q).0 then 1 else 0)
      → Goes ports now p w s

module _ (ports : MasterPort) where
  retry-schedules :
      (now q : ℕ) (s : Soc ports)
      → s.cpu.pending_inst_packet ≡ some q
      → s.events ≡ []
      → is_hcf (s.packets q).inst.op ≡ false
      → length (retry_send_inst_packet ports now s).events
        ≡ (if (ports.push s.port q).0 then 1 else 0)
  unfolding schedule
  retry-schedules now q s n nil more =
      retry_some-cases ports
        (λ (t : Soc ports). length t.events ≡ (if (ports.push s.port q).0 then 1 else 0)) now q s n
        (λ no'. rw (no', nil) refl) (λ _ halt. absurd (cc (more, halt)))
        (λ yes' _. rw (yes', nil) refl)

  IsReady-IsAlive : (cfg : Config) (s : Soc ports) → IsReady ports cfg s → IsAlive ports s
  IsReady-IsAlive cfg s k = record { token = k.one_token; resumes = λ q w. absurd (cc (k.idle, w)) }

  goes_lem :
      (now p : ℕ) (w : Arch) (s : Soc ports)
      → IsAlive ports s
      → ((rest : List ExecOneInstrEvent)
          → (u : Soc ports) × (exec_one_instr ports now p (record s { events = rest }) ≡ ok u)
            × (soc_view ports u ≡ w))
      → Goes ports now p w s
  goes_lem now p w s a runs = elim (Option-cases s.cpu.pending_inst_packet) [
    | inl idle ↦
        let (e, one) = one_event ports s idle a.token in
        let (u, done', agrees) = runs [] in executes one done' agrees
    | inr (q, n) ↦
        let nil = no_events ports s q n (omega (arith, a.token)) in
        waits n nil (retry-schedules now q s n nil (a.resumes q n))
  ]

-- From an initialised program, with both segments in the memory and an empty port, as long as HCF
-- is not executed and fewer than 2 ^ 31 - 1 instructions are, whatever the kernel has done: if the manual's machine can execute one
-- instruction more than were executed, all allowed, then either one event is scheduled, which does
-- not fail and leaves the registers, the memory and the pc of that machine, or a packet waits, and
-- a retry schedules one event exactly if the port accepts. An instruction is allowed if its
-- registers exist, its destination is not x0, its shift amount is below 32, its access lies in the
-- memory, and it is no SLTU, nor a JALR with an odd target or with its base as destination.
pub init-Goes :
    (ports : SimPort) (regs : PipeRegister) (report : Reporter) (missing : Result (Unit {0}))
    (cfg : Config) (o : ℕ → ℕ → Operand) (buffer : List ℕ) (tick : ℕ)
    (file : Option (List (List ℕ))) (packets : Store) (port : ports.Port) (if_exe exe_wb : regs.Reg)
    {s : Soc ports.master} {t : System ports regs} {issued : List Issue} {w : IsaRun} (now p : ℕ)
    → IsLayout cfg
    → ((k j : ℕ) → IsWord (o k j).imm)
    → ports.contents port ≡ []
    → init report missing ports.master cfg o buffer tick file packets port ≡ ok s
    → Trace ports regs (connect ports regs s if_exe exe_wb) issued t
    → All IsRunning issued
    → suc (length issued) < 2 ^ 31
    → AllAllowed s.cpu.imem cfg.memory_size (suc (length issued)) (boot_arch s.mem)
    → isa_run s.cpu.imem (suc (length issued)) (boot_arch s.mem) ≡ some w
    → Goes ports.master now p w.arch t.soc
unfolding connect
init-Goes ports regs report missing cfg o buffer tick file packets port if_exe exe_wb {s} {t}
      {issued} {w} now p fits word empty booted r running counts =
    let ready =
      (init-IsReady report missing cfg fits ports.master o buffer tick file packets port word
          empty).at
        s booted in
    rw (← IsReady-boot_arch ports.master cfg s ready) (λ allowed goes_on.
      goes_lem ports.master now p w.arch t.soc
        (Trace-IsAlive ports regs (connect ports regs s if_exe exe_wb)
          (IsReady-IsAlive ports.master cfg s ready) running r)
        (λ rest.
          event-isa_run ports regs (connect ports regs s if_exe exe_wb) rest now p
            (IsReady-IsCore ports.master cfg s ready) ready.program r
            (omega (arith, ready.uncounted)) allowed goes_on))
