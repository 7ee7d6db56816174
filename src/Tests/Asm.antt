-- ===== src/Tests/Asm.antt =====
-- The assembler on short texts.
use aias_lab.Prelude.{
  ℕ, true, ◌-◌, ◌^◌, ◌≤◌, ◌≡◌, refl, arith, some, none, List, [], ◌∷◌, length, All, replicate,
}
use aias_lab.Prelude.Result.{ok, ◌>>=◌}
use aias_lab.Prelude.Int.{pos, negsuc}
use aias_lab.Instr.{lw, addi, beq, jal, optype_imm, Instr}
use aias_lab.Memory.Bytes.{memcpy}
use aias_lab.Emulator.Text.{codes, Reporter}
use aias_lab.Emulator.Opcode.{parse_op}
use aias_lab.Emulator.Numbers.{strtol, signextend, parse_imm}
use aias_lab.Emulator.Registers.{parse_reg}
use aias_lab.Emulator.Source.{Source, append_source, append_source-bound}
use aias_lab.Emulator.Pseudo.{put_entry, parse_pseudoinstructions, pseudo_li}
use aias_lab.Emulator.Code.{Code, to_label, la_lui, la_addi}
use aias_lab.Emulator.Labels.{
  label_addr, operands, LabelLoc, normalize_labels, normalize_instr, first_operand, second_operand,
  third_operand, after_second,
}
use aias_lab.Emulator.Loads.{Loads, pseudo_li-Loads}
use aias_lab.Emulator.Resolved.{IsResolved, normalize_labels-IsResolved}
use aias_lab.Memory.Handlers.{mem_read_req_handler}
use aias_lab.Emulator.Lines.{
  Config, Asm, parse, parse_data_element, parse_line, label_line, statement, instr_line,
}
use aias_lab.Emulator.Operands.{parse_instr, parse_plain, split_operands, fill, fill_immediate}
use aias_lab.Emulator.Tokens.{strtok, tokens}
use aias_lab.Emulator.Address.{LoadsAddress, operands-la}
use aias_lab.Emulator.Elements.{parse_data_element-load}
use aias_lab.Tests.Data.{instr}

-- A reporter that returns.
abbrev pub log : Reporter
log line = ok tt

negative : (strtol (codes "-0x10")).0 ≡ negsuc 15
negative = refl

octal : (strtol (codes "017")).0 ≡ pos 15
octal = refl

widened : signextend 4095 12 ≡ 2 ^ 32 - 1
unfolding signextend
widened = refl

abbrev source : Source
source = record { src = replicate 64 0; offset = 0 }

abbrev pub code : Code
code = record { imem = replicate 4 (instr addi 0 0 0 0); src = source }

pub a0_is_x10 : parse_reg log (codes "a0") 1 true ≡ ok (pos 10)
unfolding parse_reg
a0_is_x10 = refl

pseudo_li-Loads_example :
    Loads
      (pseudo_li log 64 1 2 (some (codes "a0")) (some (codes "0xdeadbeef")) none code)
      2
      10
      0xdead_beef
pseudo_li-Loads_example =
    pseudo_li-Loads log 64 1 2 10 (codes "a0") (codes "0xdeadbeef") code a0_is_x10 (omega arith)
      refl refl (omega arith)

appended :
    append_source 64 (some (codes "j")) (some (codes "x0")) none none source (instr jal 0 0 0 0)
    ≡ ok (
      record { src = 106 ∷ 32 ∷ 120 ∷ 48 ∷ replicate 60 0; offset = 5 },
      record (instr jal 0 0 0 0) { psrc = some 0 },
    )
unfolding append_source memcpy
appended = refl

append_source-bound_example : (5 ≤ 64) × (0 ≤ 5)
append_source-bound_example =
    append_source-bound 64 (some (codes "j")) (some (codes "x0")) none none source
      (instr jal 0 0 0 0) (omega arith) appended

-- `jal x0, end` at address 0, with `end` at 8.
abbrev jump : Instr
jump = record (instr jal 0 0 0 0) { a2 = to_label (codes "end") (instr jal 0 0 0 0).a2 }

abbrev labels : List LabelLoc
labels = record { label = codes "end"; loc = 8 } ∷ []

resolved_jump :
    normalize_labels log 64 labels 0 (jump ∷ []) source
    ≡ ok (source, record jump { a2 = record jump.a2 { type = optype_imm; imm = 8 } } ∷ [])
unfolding normalize_labels normalize_instr operands first_operand second_operand label_addr
    after_second third_operand
resolved_jump = refl

normalize_labels-IsResolved_example :
    (length (jump ∷ []) ≡ length (jump ∷ []))
    × All IsResolved (record jump { a2 = record jump.a2 { type = optype_imm; imm = 8 } } ∷ [])
normalize_labels-IsResolved_example =
    normalize_labels-IsResolved log 64 labels 0 (jump ∷ []) source resolved_jump

-- `.word 0x12345678` at offset 4.
parse_data_element-load_example :
    (mem' : List ℕ) × (parse_data_element 4 (codes "0x12345678" ∷ []) (replicate 8 0) 4
      ≡ ok (mem', 8))
    × (mem_read_req_handler mem' lw 4 ≡ ok 0x1234_5678)
parse_data_element-load_example =
    parse_data_element-load lw (codes "0x12345678") (replicate 8 0) 4 (omega arith) refl refl
      (omega arith)

-- A line of the source file, with a label in front.
abbrev config : Config
config = record {
  memory_size = 16;
  data_offset = 16;
  text_offset = 0;
  max_label_count = 4;
  max_src_len = 64;
}

abbrev asm : Asm
asm = record { code = code; mem = replicate 16 0; memoff = 0; labels = [] }

label_found :
    ((parse log config 1 (codes "End: ADDI a0, a0, -1" ∷ []) asm) >>= λ t. ok t.labels)
    ≡ ok (record { label = codes "end"; loc = 0 } ∷ [])
unfolding parse parse_line label_line statement instr_line parse_instr parse_pseudoinstructions
    parse_plain put_entry append_source strtok tokens memcpy split_operands fill fill_immediate
    parse_reg signextend parse_op parse_imm
label_found = refl

label_at : label_addr log (codes "end") labels (pos 1) ≡ ok 8
unfolding label_addr
label_at = refl

-- `la a0, end` at index 2.
operands-la_example :
    LoadsAddress log 64 labels
      (operands log 64 labels 2 (la_lui 1 (pos 10) (codes "end") (instr addi 0 0 0 0)))
      (operands log 64 labels 3 (la_addi 1 (pos 10) (codes "end") (instr addi 0 0 0 0)))
      source
      10
      8
operands-la_example =
    operands-la log 64 labels 1 2 10 8 (codes "end") (instr addi 0 0 0 0) (instr addi 0 0 0 0)
      source (omega arith) (omega arith) refl label_at

abbrev branch : Instr
branch =
    let i = instr beq 5 6 0 0 in record i { a3 = to_label (codes "end") i.a3; orig_line = pos 1 }
