-- ===== src/Top/Sequential.antt =====
-- What the whole simulator computes: the program's sequential execution, whatever the order in
-- which the kernel calls the SOC, the port and the stages.
use aias_lab.Prelude.{
  ℕ, suc, ◌≡◌, refl, sym, ap, ◌∙◌, arith, not, List, [], ◌∷◌, ◌++◌, ◌==◌, length, length-append,
}
use aias_lab.Prelude.Result.{Result, ok, ok-injective, ◌>>=◌}
use aias_lab.Prelude.Word.{add32}
use aias_lab.Port.{SimPort, MasterPort}
use aias_lab.Pipe.{PipeRegister}
use aias_lab.Cpu.Commit.{Soc}
use aias_lab.Cpu.Program.{Entry}
use aias_lab.Cpu.Core.{
  Core, CoreRun, core, core_next, core_run, exec_one_instr-core_next, retry-core,
}
use aias_lab.Top.Cases.{master_port_retry-cases}
use aias_lab.Top.Boot.{master_port_retry}
use aias_lab.Top.System.{System, Issue, Trace, fresh, event, port_retry, stage}

abbrev pub entry : Issue → Entry
entry x = record { inst = x.inst; pc = x.pc; taken = x.taken }

abbrev pub entries : List Issue → List Entry
entries [] = []
entries (x ∷ xs) = entry x ∷ entries xs

entries-append : (xs : List Issue) (x : Issue) → entries (xs ++ x ∷ []) ≡ entries xs ++ entry x ∷ []
entries-append [] x = refl
entries-append (y ∷ xs) x = ap (λ (l : List Entry). entry y ∷ l) (entries-append xs x)

length-snoc : (xs : List Issue) (x : Issue) → length (xs ++ x ∷ []) ≡ suc (length xs)
length-snoc xs x = length-append xs (x ∷ []) ∙ omega arith

master_port_retry-core :
    (ports : MasterPort) (tick : ℕ) (port_name : List ℕ) (s : Soc ports)
    → core ports (master_port_retry ports tick port_name s) ≡ core ports s
master_port_retry-core ports tick port_name s =
    master_port_retry-cases ports (λ (t : Soc ports). core ports t ≡ core ports s) tick port_name s
      (retry-core ports tick s) refl

module _ (ports : SimPort) (regs : PipeRegister) where
  -- What a state has of the program's execution.
  abbrev pub run_of : List Issue → System ports regs → CoreRun
  run_of issued t = record { core = core ports.master t.soc; log = entries issued }

  -- After any trace, the program, the registers, the memory, the pc and the count are those of the
  -- sequential execution of as many instructions, and so are the instructions executed.
  pub Trace-core_run :
      (s : System ports regs) {issued : List Issue} {t : System ports regs}
      → Trace ports regs s issued t
      → core_run (length issued) (core ports.master s.soc) ≡ ok (run_of issued t)
  unfolding core_run
  Trace-core_run s fresh = refl
  Trace-core_run s (event {issued} {t} {soc'} r tick p i e rest eq at_pc free h) =
      let x : Issue = record {
        ptr = p;
        inst = i;
        pc = t.soc.cpu.pc;
        taken = not (soc'.cpu.pc == add32 t.soc.cpu.pc 4);
      } in
      ap (λ (n : ℕ). core_run n (core ports.master s.soc)) (length-snoc issued x)
      ∙ ap (λ (m : Result CoreRun). m >>= core_next) (Trace-core_run s r)
      ∙ exec_one_instr-core_next ports.master tick p i (record t.soc { events = rest })
          (entries issued) at_pc h
      ∙ ap
          (λ (l : List Entry).
            let m : Result CoreRun = ok (record { core = core ports.master soc'; log = l }) in m)
          (sym (entries-append issued x))
  Trace-core_run s (port_retry {issued} {t} r tick port_name) =
      Trace-core_run s r
      ∙ ap
          (λ (c : Core).
            let m : Result CoreRun = ok (record { core = c; log = entries issued }) in m)
          (sym (master_port_retry-core ports.master tick port_name t.soc))
  Trace-core_run s (stage r a) = Trace-core_run s r

  -- Two traces from one state in which equally many instructions were executed, whatever the
  -- interleavings, the retries and the stalls of the stages, have executed the same instructions,
  -- at the same pcs and with the same jumps, and agree on the program, the registers, the memory,
  -- the pc and the count.
  pub Trace-independent :
      (s : System ports regs) {xs ys : List Issue} {t u : System ports regs}
      → Trace ports regs s xs t
      → Trace ports regs s ys u
      → length xs ≡ length ys
      → run_of xs t ≡ run_of ys u
  Trace-independent s {xs} {ys} p q same = ok-injective (
      sym (Trace-core_run s p)
      ∙ ap (λ (n : ℕ). core_run n (core ports.master s.soc)) same
      ∙ Trace-core_run s q)
