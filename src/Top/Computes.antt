-- ===== src/Top/Computes.antt =====
-- The initialised simulator against the manual's machine on the assembled program.
use aias_lab.Prelude.{
  ℕ, suc, ◌+◌, ◌^◌, ◌<◌, arith, ◌≡◌, refl, sym, ap, ◌∙◌, fun_ext, Option, some, List, [], length,
  All, get_or, get_or-replicate,
}
use aias_lab.Prelude.Result.{Result, ok, ok-injective, ◌>>=◌}
use aias_lab.Prelude.Word.{IsWord}
use aias_lab.Instr.{Operand}
use aias_lab.Isa.{Arch}
use aias_lab.Packet.{Store}
use aias_lab.Port.{SimPort, MasterPort}
use aias_lab.Pipe.{PipeRegister}
use aias_lab.Cpu.Commit.{ExecOneInstrEvent, Soc, exec_one_instr}
use aias_lab.Cpu.Invariant.{IsInstr}
use aias_lab.Cpu.Machine.{soc_view}
use aias_lab.Cpu.Program.{IsaRun, isa_run, AllAllowed}
use aias_lab.Cpu.Core.{
  CoreRun, core, core_next, core_run, core_run-inst_cnt, core_next-exec_one_instr,
  exec_one_instr-core_next,
}
use aias_lab.Cpu.Computes.{seen, seen_run, seen-some, IsCore, core_run-isa_run}
use aias_lab.Emulator.Text.{Reporter}
use aias_lab.Emulator.Lines.{Config}
use aias_lab.Top.Boot.{init}
use aias_lab.Top.Ready.{IsLayout, IsReady, init-IsReady}
use aias_lab.Top.System.{System, connect, Issue, Trace}
use aias_lab.Top.Sequential.{entries, run_of, Trace-core_run}

-- Registers of zeros, a data memory, and the pc at the first instruction.
abbrev pub boot_arch : List ℕ → Arch
boot_arch mem = record { regs = λ r. 0; bytes = λ j. get_or mem j 0; pc = 0 }

pub IsReady-boot_arch :
    (ports : MasterPort) (cfg : Config) (s : Soc ports)
    → IsReady ports cfg s
    → soc_view ports s ≡ boot_arch s.mem
IsReady-boot_arch ports cfg s k = λ j. record {
  regs = fun_ext (λ r. ap (λ (l : List ℕ). get_or l r 0) k.clear ∙ get_or-replicate 32 r 0) j;
  bytes = λ b. get_or s.mem b 0;
  pc = k.at_zero j;
}

pub IsReady-IsCore :
    (ports : MasterPort) (cfg : Config) (s : Soc ports)
    → IsReady ports cfg s
    → IsCore cfg.memory_size s.cpu.imem (core ports s)
IsReady-IsCore ports cfg s k = record {
  exec = k.start.exec;
  x0_zero = k.start.x0_zero;
  imem = refl;
}

module _ (ports : SimPort) (regs : PipeRegister) where
  -- A scheduled event of a state to which a trace leads does not fail while the manual's machine
  -- goes on and the count is an int.
  pub event-isa_run :
      {size : ℕ} (s : System ports regs) {t : System ports regs} {issued : List Issue} {w : IsaRun}
      (rest : List ExecOneInstrEvent) (tick p : ℕ)
      → IsCore size s.soc.cpu.imem (core ports.master s.soc)
      → All IsInstr s.soc.cpu.imem
      → Trace ports regs s issued t
      → s.soc.cpu.inst_cnt + suc (length issued) < 2 ^ 31
      → AllAllowed s.soc.cpu.imem size (suc (length issued)) (soc_view ports.master s.soc)
      → isa_run s.soc.cpu.imem (suc (length issued)) (soc_view ports.master s.soc) ≡ some w
      → (u : Soc ports.master) × (exec_one_instr ports.master tick p
            (record t.soc { events = rest })
          ≡ ok u)
        × (soc_view ports.master u ≡ w.arch)
  unfolding core_run
  event-isa_run s {t} {issued} {w} rest tick p k words r counts allowed goes_on =
      let n = length issued in
      let c = core ports.master s.soc in
      let u0 = record t.soc { events = rest } in
      let (x, ran, same) =
        seen-some (core_run (suc n) c)
          (core_run-isa_run s.soc.cpu.imem words (suc n) c k allowed ∙ goes_on) in
      let next : core_next (run_of ports regs issued t) ≡ ok x =
        ap (λ (m : Result CoreRun). m >>= core_next) (sym (Trace-core_run ports regs s r)) ∙ ran in
      let (i, u, at_pc, runs) =
        core_next-exec_one_instr ports.master tick p u0 (entries issued)
          (omega (arith, core_run-inst_cnt n c (Trace-core_run ports regs s r))) next in
      (
        u,
        runs,
        ap (λ (y : CoreRun). (seen_run y).arch)
              (ok-injective (
                sym (exec_one_instr-core_next ports.master tick p i u0 (entries issued) at_pc runs)
                ∙ next))
            ∙ ap (λ (y : IsaRun). y.arch) same,
      )

-- From an initialised program, with both segments in the memory and an empty port, whatever the
-- kernel does next: as long as the instructions to which the manual's machine comes are allowed,
-- the registers, the memory and the pc are those to which it comes from zero registers and pc 0 in
-- as many instructions, and it has executed the same instructions, at the same pcs and with the
-- same jumps. An instruction is allowed if its registers exist, its destination is not x0, its
-- shift amount is below 32, its access lies in the memory, and it is no SLTU, nor a JALR with an
-- odd target or with its base as destination.
pub init-isa_run :
    (ports : SimPort) (regs : PipeRegister) (report : Reporter) (missing : Result (Unit {0}))
    (cfg : Config) (o : ℕ → ℕ → Operand) (buffer : List ℕ) (tick : ℕ)
    (file : Option (List (List ℕ))) (packets : Store) (port : ports.Port) (if_exe exe_wb : regs.Reg)
    {s : Soc ports.master} {t : System ports regs} {issued : List Issue}
    → IsLayout cfg
    → ((k j : ℕ) → IsWord (o k j).imm)
    → ports.contents port ≡ []
    → init report missing ports.master cfg o buffer tick file packets port ≡ ok s
    → Trace ports regs (connect ports regs s if_exe exe_wb) issued t
    → AllAllowed s.cpu.imem cfg.memory_size (length issued) (boot_arch s.mem)
    → isa_run s.cpu.imem (length issued) (boot_arch s.mem)
      ≡ some (record { arch = soc_view ports.master t.soc; log = entries issued })
unfolding connect
init-isa_run ports regs report missing cfg o buffer tick file packets port if_exe exe_wb {s} {t}
      {issued} fits w empty booted r =
    let ready =
      (init-IsReady report missing cfg fits ports.master o buffer tick file packets port w empty).at
        s booted in
    rw (← IsReady-boot_arch ports.master cfg s ready) (λ allowed.
      sym (
        core_run-isa_run s.cpu.imem ready.program (length issued) (core ports.master s)
          (IsReady-IsCore ports.master cfg s ready) allowed)
      ∙ ap seen (Trace-core_run ports regs (connect ports regs s if_exe exe_wb) r))
