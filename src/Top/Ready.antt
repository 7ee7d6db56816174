-- ===== src/Top/Ready.antt =====
-- The state that `SOC::init` leaves when the assembler accepts the program.
use aias_lab.Prelude.{
  ℕ, ◌/◌, ◌≤◌, ◌≡◌, refl, ◌∙◌, arith, Option, none, some, List, [], ◌++◌, length, replicate, All,
  All-replicate,
}
use aias_lab.Prelude.Result.{Result, undefined}
use aias_lab.Prelude.Ensures.{Ensures, Ensures-ok, Ensures-err, Ensures-bind, Ensures-after}
use aias_lab.Prelude.Word.{IsWord}
use aias_lab.Instr.{Operand, fresh_instr, length-fresh_imem, All-fresh_imem}
use aias_lab.Memory.Safety.{alloc-IsMemory}
use aias_lab.Packet.{Store}
use aias_lab.Port.{MasterPort}
use aias_lab.Cpu.Commit.{Cpu, new_cpu, Soc}
use aias_lab.Cpu.Invariant.{IsInstr}
use aias_lab.Cpu.Shapes.{IsStart}
use aias_lab.Cpu.Machine.{exec_of}
use aias_lab.Cpu.Sending.{tokens, waiting}
use aias_lab.Emulator.Text.{Reporter}
use aias_lab.Emulator.Labels.{normalize_labels}
use aias_lab.Emulator.Lines.{Config, Asm}
use aias_lab.Emulator.Parsed.{IsAsm, parse-IsAsm}
use aias_lab.Emulator.Normalized.{normalize_labels-IsProgram}
use aias_lab.Top.Boot.{Modules, register_modules, asm_of, parse_path, sim_init, init}

-- Both segments start in the data memory, which a word can address.
pub record IsLayout (cfg : Config) : Type 0 where
  pub text_inside : cfg.text_offset ≤ cfg.memory_size
  pub data_inside : cfg.data_offset ≤ cfg.memory_size
  pub addressable : IsWord cfg.memory_size

-- The registers are clear, the pc is 0, nothing is counted, the memories have their sizes, and the
-- only thing to do is one event.
pub record IsReady (ports : MasterPort) (cfg : Config) (s : Soc ports) : Type 0 where
  pub start : IsStart cfg.memory_size (exec_of ports s)
  pub clear : s.cpu.rf ≡ replicate 32 0
  pub at_zero : s.cpu.pc ≡ 0
  pub uncounted : s.cpu.inst_cnt ≡ 0
  pub idle : s.cpu.pending_inst_packet ≡ none
  pub sized : length s.cpu.imem ≡ cfg.data_offset / 4
  pub program : All IsInstr s.cpu.imem
  pub one_token : tokens ports s ≡ 1
  pub nothing_sent : ports.contents s.port ++ waiting ports s ≡ []

-- A CPU as its constructor leaves it, but for the program.
record IsFresh (c : Cpu) : Type 0 where
  rf : c.rf ≡ replicate 32 0
  pc : c.pc ≡ 0
  inst_cnt : c.inst_cnt ≡ 0
  pending : c.pending_inst_packet ≡ none

fresh_instr-IsInstr : (o : ℕ → Operand) → ((j : ℕ) → IsWord (o j).imm) → IsInstr (fresh_instr o)
unfolding fresh_instr
fresh_instr-IsInstr o w = record { imm2 = w 2; imm3 = w 3 }

pub registered-IsAsm :
    (cfg : Config) (o : ℕ → ℕ → Operand) (buffer : List ℕ)
    → ((k j : ℕ) → IsWord (o k j).imm)
    → IsAsm cfg (cfg.data_offset / 4) cfg.memory_size (asm_of (register_modules cfg o buffer))
unfolding register_modules new_cpu
registered-IsAsm cfg o buffer w = record {
  code = record {
    sized = length-fresh_imem o 0 (cfg.data_offset / 4);
    words = All-fresh_imem IsInstr o 0 (cfg.data_offset / 4) (λ k. fresh_instr-IsInstr (o k) (w k));
    within = omega arith;
  };
  memory = alloc-IsMemory cfg.memory_size;
  inside = omega arith;
  counted = omega arith;
  labels = tt;
}

registered-IsFresh :
    (cfg : Config) (o : ℕ → ℕ → Operand) (buffer : List ℕ)
    → IsFresh (register_modules cfg o buffer).cpu
unfolding register_modules new_cpu
registered-IsFresh cfg o buffer = record { rf = refl; pc = refl; inst_cnt = refl; pending = refl }

module _ (report : Reporter) (missing : Result (Unit {0})) (cfg : Config)
    (fits : IsLayout cfg) where
  parse_path-IsAsm :
      {slots : ℕ} (file : Option (List (List ℕ))) (s : Asm)
      → IsAsm cfg slots cfg.memory_size s
      → Ensures (IsAsm cfg slots cfg.memory_size) (parse_path report missing cfg file s)
  unfolding parse_path
  parse_path-IsAsm none s k = Ensures-after missing _ (λ _ _. Ensures-err undefined)
  parse_path-IsAsm (some file) s k =
      parse-IsAsm report cfg fits.text_inside fits.data_inside 1 file s k

  module _ (ports : MasterPort) where
    sim_init-IsReady :
        (tick : ℕ) (file : Option (List (List ℕ))) (m : Modules) (packets : Store)
        (port : ports.Port)
        → IsAsm cfg (cfg.data_offset / 4) cfg.memory_size (asm_of m)
        → IsFresh m.cpu
        → ports.contents port ≡ []
        → Ensures (IsReady ports cfg) (sim_init report missing ports cfg tick file m packets port)
    unfolding sim_init
    sim_init-IsReady tick file m packets port k f empty =
        Ensures-bind (parse_path report missing cfg file (asm_of m)) _
          (parse_path-IsAsm file (asm_of m) k)
          (λ a ka.
            Ensures-bind (normalize_labels report cfg.max_src_len a.labels 0 a.code.imem a.code.src)
              _
              (normalize_labels-IsProgram report cfg.max_src_len a.labels fits.addressable ka.labels
                0 a.code.imem a.code.src ka.code.words ka.code.within)
              (λ y p. Ensures-ok _ (record {
                start = record {
                  exec = record {
                    registers = rw f.rf refl;
                    words = rw f.rf (All-replicate IsWord 32 0 (omega arith));
                    memory = ka.memory;
                    pc_word = rw f.pc (omega arith);
                    pc_next_word = omega arith;
                  };
                  x0_zero = rw f.rf refl;
                  follows = refl;
                };
                clear = f.rf;
                at_zero = f.pc;
                uncounted = f.inst_cnt;
                idle = f.pending;
                sized = p.sized ∙ ka.code.sized;
                program = p.words;
                one_token = rw f.pending refl;
                nothing_sent = rw (empty, f.pending) refl;
              })))

    -- If the assembler accepts the program, with both segments in the data memory and the port
    -- empty, `init` leaves a well-formed start of the CPU's switch with 32 zero registers, the pc and
    -- the count at 0, both memories in their sizes, a program with word immediates, exactly one event
    -- or pending packet, and nothing in the port or pending.
    pub init-IsReady :
        (o : ℕ → ℕ → Operand) (buffer : List ℕ) (tick : ℕ) (file : Option (List (List ℕ)))
        (packets : Store) (port : ports.Port)
        → ((k j : ℕ) → IsWord (o k j).imm)
        → ports.contents port ≡ []
        → Ensures
            (IsReady ports cfg)
            (init report missing ports cfg o buffer tick file packets port)
    unfolding init
    init-IsReady o buffer tick file packets port w empty =
        sim_init-IsReady tick file (register_modules cfg o buffer) packets port
          (registered-IsAsm cfg o buffer w) (registered-IsFresh cfg o buffer) empty
