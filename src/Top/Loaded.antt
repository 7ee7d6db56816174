-- ===== src/Top/Loaded.antt =====
-- `SOC::init` on a file of ordinary instructions without labels.
use aias_lab.Prelude.{
  ℕ, ◌+◌, ◌*◌, ◌/◌, ◌≤◌, ◌≡◌, refl, sym, ◌∙◌, arith, inl, inr, some, List, [], ◌∷◌, ltb, Bool-cases,
  length, get_elem?, All, All-get_elem?,
}
use aias_lab.Prelude.Result.{Result, ok}
use aias_lab.Instr.{Operand, Instr, fresh_instr, fresh_imem, length-fresh_imem, All-fresh_imem}
use aias_lab.Memory.Safety.{alloc-IsMemory}
use aias_lab.Packet.{Store}
use aias_lab.Port.{MasterPort}
use aias_lab.Cpu.Commit.{new_cpu, Soc}
use aias_lab.Emulator.Text.{Reporter}
use aias_lab.Emulator.Lines.{Config}
use aias_lab.Emulator.Resolved.{NoLabels}
use aias_lab.Emulator.Listing.{Statement, AreLines, AreEntries, parse-written}
use aias_lab.Emulator.Plain.{
  AllPlain, All-of_get_elem?, AreEntries-NoLabels, normalize_labels-NoLabels,
}
use aias_lab.Top.Boot.{register_modules, asm_of, parse_path, sim_init, init}

-- The instruction memory as `new` leaves it.
abbrev pub blank_imem : Config → (ℕ → ℕ → Operand) → List Instr
blank_imem cfg o = fresh_imem o 0 (cfg.data_offset / 4)

-- The program stands at the start of the instruction memory, and the rest is untouched.
pub record IsLoaded (cfg : Config) (o : ℕ → ℕ → Operand) (xs : List Statement) (imem : List Instr)
    : Type 0 where
  pub entries : AreEntries 1 xs 0 (blank_imem cfg o) imem
  pub later : (m : ℕ) → length xs ≤ m → get_elem? imem m ≡ get_elem? (blank_imem cfg o) m

blank_imem-NoLabels :
    (cfg : Config) (o : ℕ → ℕ → Operand) (m : ℕ) (i : Instr)
    → get_elem? (blank_imem cfg o) m ≡ some i
    → NoLabels i
unfolding fresh_instr
blank_imem-NoLabels cfg o m i h =
    All-get_elem? NoLabels (blank_imem cfg o) m
      (All-fresh_imem NoLabels o 0 (cfg.data_offset / 4)
        (λ k. record { a1 = refl; a2 = refl; a3 = refl }))
      h

IsLoaded-NoLabels :
    (cfg : Config) (o : ℕ → ℕ → Operand) (xs : List Statement) (imem : List Instr)
    → AllPlain xs
    → IsLoaded cfg o xs imem
    → All NoLabels imem
IsLoaded-NoLabels cfg o xs imem plain k = All-of_get_elem? NoLabels imem (λ m i h.
    elim (Bool-cases (ltb m (length xs))) [
      | inl below ↦
          AreEntries-NoLabels 1 xs 0 (blank_imem cfg o) imem m i plain (blank_imem-NoLabels cfg o)
            k.entries (omega arith) (ground arith) h
      | inr behind ↦ blank_imem-NoLabels cfg o m i (sym (k.later m (ground arith)) ∙ h)
    ])

-- A file of lines with ordinary instructions without labels, in any case, each written the way the
-- assembler prints them, that fits the text segment and the memory is loaded by `init`: it succeeds,
-- whatever the report does, and the instruction memory starts with the instructions in order, with
-- their operands and line numbers, and is otherwise as `new` leaves it.
pub init-IsLoaded :
    (report : Reporter) (missing : Result (Unit {0})) (ports : MasterPort) (cfg : Config)
    (o : ℕ → ℕ → Operand) (buffer : List ℕ) (tick : ℕ) (xs : List Statement) (file : List (List ℕ))
    (packets : Store) (port : ports.Port)
    → AreLines xs file
    → AllPlain xs
    → 4 * length xs ≤ cfg.data_offset
    → 4 * length xs ≤ cfg.memory_size
    → (s : Soc ports) × (init report missing ports cfg o buffer tick (some file) packets port
        ≡ ok s)
      × IsLoaded cfg o xs s.cpu.imem
unfolding init sim_init parse_path register_modules new_cpu
init-IsLoaded report missing ports cfg o buffer tick xs file packets port lines plain room fits =
    let m = register_modules cfg o buffer in
    let slots = length-fresh_imem o 0 (cfg.data_offset / 4) in
    let (t, parsed, listing) =
      parse-written report cfg 1 xs file (asm_of m) lines (omega arith)
        (omega (arith, (alloc-IsMemory cfg.memory_size).sized)) (omega (arith, slots)) in
    let k : IsLoaded cfg o xs t.code.imem = record {
      entries = listing.entries;
      later = λ j le. listing.later j (omega arith);
    } in
    let done' =
      normalize_labels-NoLabels report cfg.max_src_len t.labels 0 t.code.imem t.code.src
        (IsLoaded-NoLabels cfg o xs t.code.imem plain k) in
    (
      record {
        cpu = record m.cpu { imem = t.code.imem };
        mem = t.mem;
        packets = packets;
        port = port;
        events = record { id = 1; when = tick + 1 } ∷ [];
        errors = 0;
      },
      rw (parsed, done') refl,
      k,
    )
