-- ===== src/Tests/Boot.antt =====
-- A program of four lines, assembled and started.
use aias_lab.Prelude.{
  ℕ, ◌≡◌, refl, arith, true, none, some, ◌++◌, Option, get_elem?, List, [], ◌∷◌, replicate,
}
use aias_lab.Prelude.Result.{Result, ok, err, undefined}
use aias_lab.Prelude.Ensures.{Ensures}
use aias_lab.Prelude.Int.{pos}
use aias_lab.Instr.{optype_none, Operand, fresh_imem, unimpl, Instr}
use aias_lab.Memory.Bytes.{alloc, memcpy}
use aias_lab.Cpu.Execute.{execute}
use aias_lab.Cpu.Commit.{is_hcf, retry_send_inst_packet, Soc, new_cpu, exec_one_instr, fetch_instr}
use aias_lab.Cpu.Protocol.{Run, start, exec, retry}
use aias_lab.Cpu.Halt.{IsHalted, hcf-halts}
use aias_lab.Emulator.Text.{codes, Reporter, streq}
use aias_lab.Emulator.Lines.{
  Config, Asm, parse, parse_line, label_line, statement, instr_line, parse_assembler_directive,
  parse_data_element,
}
use aias_lab.Emulator.Tokens.{strtok, tokens}
use aias_lab.Emulator.Operands.{parse_instr, parse_plain, split_operands, fill, fill_immediate}
use aias_lab.Emulator.Pseudo.{parse_pseudoinstructions, put_entry}
use aias_lab.Emulator.Source.{append_source}
use aias_lab.Emulator.Labels.{
  normalize_labels, normalize_instr, operands, first_operand, second_operand, third_operand,
}
use aias_lab.Emulator.Numbers.{parse_imm, signextend}
use aias_lab.Emulator.Opcode.{parse_op}
use aias_lab.Emulator.Registers.{parse_reg}
use aias_lab.Top.Config.{emulator_config}
use aias_lab.Top.Boot.{asm_of, init, sim_init, register_modules, parse_path}
use aias_lab.Top.Print.{print_register}
use aias_lab.Top.Ready.{IsLayout, IsReady, registered-IsAsm, init-IsReady}
use aias_lab.Emulator.Parsed.{IsAsm, parse-IsAsm}
use aias_lab.Top.Reach.{IsSound, init-IsSound}
use aias_lab.Tests.Data.{instr}
use aias_lab.Tests.Framework.{queue_port}
use aias_lab.Tests.Soc.{packets, soc}

-- The default parameters are a layout that the theorems apply to.
default-IsLayout : IsLayout emulator_config
default-IsLayout = record {
  text_inside = omega arith;
  data_inside = omega arith;
  addressable = omega arith;
}

abbrev pub log : Reporter
log line = ok tt

abbrev pub small : Config
small = record {
  memory_size = 16;
  data_offset = 8;
  text_offset = 0;
  max_label_count = 2;
  max_src_len = 64;
}

pub small-IsLayout : IsLayout small
small-IsLayout = record {
  text_inside = omega arith;
  data_inside = omega arith;
  addressable = omega arith;
}

abbrev pub blank : ℕ → ℕ → Operand
blank k j = record { type = optype_none; label = []; reg = pos 0; imm = 0 }

abbrev pub file : List (List ℕ)
file = codes "start: addi x5, x0, 42" ∷ codes "hcf" ∷ codes ".data" ∷ codes ".byte 7" ∷ []

abbrev booting : Result (Soc queue_port)
booting = init log (err undefined) queue_port small blank (replicate 64 0) 0 (some file) packets []

abbrev pub or_else : Result (Soc queue_port) → Soc queue_port → Soc queue_port
or_else (ok s) d = s
or_else (err fault) d = d

unfoldable pub booted : (s : Soc queue_port) × (booting ≡ ok s)
unfolding init sim_init parse_path register_modules new_cpu fresh_imem alloc memcpy parse parse_line
    label_line statement instr_line parse_assembler_directive parse_data_element strtok tokens
    parse_instr parse_plain split_operands fill fill_immediate parse_pseudoinstructions put_entry
    streq append_source normalize_labels normalize_instr operands first_operand second_operand
    third_operand parse_imm signextend parse_op parse_reg
booted = (or_else booting soc, refl)

abbrev pub program_start : Soc queue_port
program_start = booted.0

first_event : program_start.events ≡ record { id = 1; when = 1 } ∷ []
unfolding booted
first_event = refl

-- What the events leave: `addi x5, x0, 42`, and HCF.
abbrev first_call : Result (Soc queue_port)
first_call = exec_one_instr queue_port 1 3 (record program_start { events = [] })

unfoldable first_done : (t : Soc queue_port) × (first_call ≡ ok t)
unfolding booted exec_one_instr execute
first_done = (or_else first_call soc, refl)

abbrev before_hcf : Soc queue_port
before_hcf = record first_done.0 { events = [] }

abbrev second_call : Result (Soc queue_port)
second_call = exec_one_instr queue_port 2 4 before_hcf

unfoldable second_done : (t : Soc queue_port) × (second_call ≡ ok t)
unfolding first_done booted exec_one_instr execute
second_done = (or_else second_call soc, refl)

x5_is_42 : get_elem? second_done.0.cpu.rf 5 ≡ some 42
unfolding second_done first_done booted exec_one_instr execute
x5_is_42 = refl

after_addi : Run queue_port program_start (3 ∷ []) [] first_done.0
after_addi = exec start 1 3 _ [] first_event first_done.1

init-IsSound_example : IsSound queue_port small (3 ∷ []) [] first_done.0
init-IsSound_example =
    init-IsSound log (err undefined) small queue_port blank (replicate 64 0) 0 (some file) packets
      [] small-IsLayout (λ k j. omega arith) refl booted.1 after_addi

abbrev pub or_unimpl : Option Instr → Instr
or_unimpl none = instr unimpl 0 0 0 0
or_unimpl (some i) = i

none_pending : before_hcf.cpu.pending_inst_packet ≡ none
unfolding first_done booted exec_one_instr execute
none_pending = refl

is_hcf_found : is_hcf (or_unimpl (get_elem? before_hcf.cpu.imem 1)).op ≡ true
unfolding first_done booted exec_one_instr execute
is_hcf_found = refl

hcf_fetched :
    fetch_instr before_hcf.cpu before_hcf.cpu.pc ≡ ok (or_unimpl (get_elem? before_hcf.cpu.imem 1))
unfolding first_done booted exec_one_instr execute fetch_instr
hcf_fetched = refl

abbrev nothing : List ℕ
nothing = []

hcf-halts_example :
    (nothing ≡ []) × IsHalted queue_port (retry_send_inst_packet queue_port 3 second_done.0)
hcf-halts_example =
    hcf-halts queue_port 2 4 (or_unimpl (get_elem? before_hcf.cpu.imem 1)) before_hcf refl
      none_pending hcf_fetched is_hcf_found second_done.1 (retry start 3)

abbrev assembled : Asm
assembled = asm_of (register_modules small blank (replicate 64 0))

parse-IsAsm_example : Ensures (IsAsm small 2 16) (parse log small 1 file assembled)
parse-IsAsm_example =
    parse-IsAsm log small (omega arith) (omega arith) 1 file assembled
      (registered-IsAsm small blank (replicate 64 0) (λ k j. omega arith))

init-IsReady_example : Ensures (IsReady queue_port small) booting
init-IsReady_example =
    init-IsReady log (err undefined) small small-IsLayout queue_port blank (replicate 64 0) 0
      (some file) packets [] (λ k j. omega arith) refl

-- The end of the first line of what is printed.
eighth_register : print_register 7 0xcafe ≡ codes "x07:0x0000cafe " ++ 10 ∷ []
eighth_register = refl
