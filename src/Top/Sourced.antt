-- ===== src/Top/Sourced.antt =====
-- The simulator against the meaning of the source text that it is given.
use aias_lab.Prelude.{ℕ, ◌*◌, ◌≤◌, ◌≡◌, sym, ap, ◌∙◌, some, List, [], length}
use mathlib.Core.Option.{some-injective}
use mathlib.Core.Path.{subst}
use aias_lab.Prelude.Result.{Result, ok, ok-injective}
use aias_lab.Prelude.Word.{IsWord}
use aias_lab.Instr.{Operand}
use aias_lab.Isa.{Arch}
use aias_lab.Packet.{Store}
use aias_lab.Port.{SimPort}
use aias_lab.Pipe.{PipeRegister}
use aias_lab.Cpu.Commit.{Soc}
use aias_lab.Cpu.Machine.{soc_view}
use aias_lab.Cpu.Program.{IsaRun}
use aias_lab.Emulator.Text.{Reporter}
use aias_lab.Emulator.Lines.{Config}
use aias_lab.Emulator.Listing.{Statement, AreLines}
use aias_lab.Emulator.Plain.{AllPlain}
use aias_lab.Emulator.Field.{AllForward, AreLines-AllInField}
use aias_lab.Emulator.Meant.{source_run, source_run-isa_run}
use aias_lab.Emulator.Permitted.{AllPermitted, AllPermitted-AllAllowed}
use aias_lab.Top.Boot.{init}
use aias_lab.Top.Ready.{IsLayout}
use aias_lab.Top.System.{System, connect, Issue, Trace}
use aias_lab.Top.Computes.{boot_arch, init-isa_run}
use aias_lab.Top.Loaded.{blank_imem, IsLoaded, init-IsLoaded}

-- A file of lines with ordinary instructions without labels, in any case, each written the way the
-- assembler prints them and with offsets below 2 ^ 11, that fits the text segment, with both segments in the memory and an empty
-- port, whatever the kernel does after `init`: if the statements run from zero registers and pc 0
-- for as many steps as instructions were executed, without leaving the file, and each that is
-- executed is allowed, then the registers, the memory and the pc are what the statements make them.
-- A statement is allowed if its registers exist, its destination is not x0, its shift amount is
-- below 32, its access lies in the memory, and it is no SLTU, nor a JALR with an odd target or with
-- its base as destination.
pub init-source_run :
    (ports : SimPort) (regs : PipeRegister) (report : Reporter) (missing : Result (Unit {0}))
    (cfg : Config) (o : ℕ → ℕ → Operand) (buffer : List ℕ) (tick : ℕ) (xs : List Statement)
    (file : List (List ℕ)) (packets : Store) (port : ports.Port) (if_exe exe_wb : regs.Reg)
    {s : Soc ports.master} {t : System ports regs} {issued : List Issue} {b : Arch}
    → AreLines xs file
    → AllPlain xs
    → AllForward xs
    → 4 * length xs ≤ cfg.data_offset
    → 4 * length xs ≤ cfg.memory_size
    → IsLayout cfg
    → ((k j : ℕ) → IsWord (o k j).imm)
    → ports.contents port ≡ []
    → init report missing ports.master cfg o buffer tick (some file) packets port ≡ ok s
    → Trace ports regs (connect ports regs s if_exe exe_wb) issued t
    → AllPermitted xs cfg.memory_size (length issued) (boot_arch s.mem)
    → source_run xs (length issued) (boot_arch s.mem) ≡ some b
    → soc_view ports.master t.soc ≡ b
init-source_run ports regs report missing cfg o buffer tick xs file packets port if_exe exe_wb {s}
      {t} {issued} {b} lines plain forward room fits layout w empty booted r allowed meant =
    let n = length issued in
    let q = AreLines-AllInField xs file lines forward in
    let (u, loaded, k) =
      init-IsLoaded report missing ports.master cfg o buffer tick xs file packets port lines plain
        room fits in
    let here : u ≡ s = ok-injective (sym loaded ∙ booted) in
    let k : IsLoaded cfg o xs s.cpu.imem =
      subst (λ (z : Soc ports.master). IsLoaded cfg o xs z.cpu.imem) here k in
    let (v, ran, same) =
      source_run-isa_run 1 xs (blank_imem cfg o) s.cpu.imem n (boot_arch s.mem) plain q k.entries
        meant in
    let done' =
      init-isa_run ports regs report missing cfg o buffer tick (some file) packets port if_exe
        exe_wb layout w empty booted r
        (AllPermitted-AllAllowed 1 xs (blank_imem cfg o) s.cpu.imem cfg.memory_size n
          (boot_arch s.mem) plain q k.entries meant allowed) in
    ap (λ (z : IsaRun). z.arch) (some-injective _ _ (sym done' ∙ ran)) ∙ same
