-- ===== src/Emulator/Operands.antt =====
-- `Emulator::parse_mem` and `Emulator::parse_instr`.
use aias_lab.Prelude.{
  ℕ, ◌+◌, ◌/◌, Bool, true, not, ◌&&◌, Option, some, List, [], ◌∷◌, ltb, leb, if◌then◌else◌, set,
}
use aias_lab.Prelude.Result.{exit, Result, ok, guard, ◌>>=◌, ◌>>◌}
use aias_lab.Prelude.Int.{ℤ, pos}
use aias_lab.Instr.{
  InstrType, unimpl, add, addi, and, andi, auipc, beq, bge, bgeu, blt, bltu, bne, jal, jalr, lb,
  lbu, lh, lhu, lui, lw, or, ori, sb, sh, sll, slli, slt, slti, sltiu, sltu, sra, srai, srl, srli,
  sub, sw, xor, xori, hcf, Instr,
}
use aias_lab.Emulator.Text.{Reporter}
use aias_lab.Emulator.Tokens.{strtok, token, rest_of, separators}
use aias_lab.Emulator.Opcode.{parse_op}
use aias_lab.Emulator.Numbers.{parse_imm, signextend}
use aias_lab.Emulator.Registers.{parse_reg}
use aias_lab.Emulator.Source.{append_source}
use aias_lab.Emulator.Pseudo.{parse_pseudoinstructions}
use aias_lab.Emulator.Code.{Code, to_reg, to_label, is_null, text_of, entry}

-- The four operand tokens.
pub record Operands : Type 0 where
  pub o1 : Option (List ℕ)
  pub o2 : Option (List ℕ)
  pub o3 : Option (List ℕ)
  pub o4 : Option (List ℕ)

unfoldable pub split_operands : List ℕ → Operands
unfolding strtok
split_operands line =
    let t1 = strtok separators line in
    let t2 = strtok separators (rest_of t1) in
    let t3 = strtok separators (rest_of t2) in
    let t4 = strtok separators (rest_of t3) in
    record { o1 = token t1; o2 = token t2; o3 = token t3; o4 = token t4 }

module _ (report : Reporter) (line : ℕ) where
  -- `parse_mem`: the register and the immediate of `imm(reg)`.
  unfoldable pub parse_mem : List ℕ → ℕ → Result (ℤ × ℕ)
  parse_mem tok bits = do
    let imms = strtok (40 ∷ []) tok
    let regs = strtok (41 ∷ []) (rest_of imms)
    t1 ← text_of (token imms)
    v ← parse_imm report t1 bits line true
    t2 ← text_of (token regs)
    r ← parse_reg report t2 line true
    ok (r, v)

  abbrev pub register : Option (List ℕ) → Result ℤ
  register o = do t ← text_of o; parse_reg report t line true

  abbrev pub format : Bool → Result (Unit {0})
  format good = if good then ok tt else report (pos line)

  abbrev pub given : Option (List ℕ) → Bool
  given o = not (is_null o)

  -- Exactly three operands, and exactly two.
  abbrev pub three : Operands → Bool
  three o = given o.o1 && given o.o2 && given o.o3 && is_null o.o4

  abbrev pub two : Operands → Bool
  two o = given o.o1 && given o.o2 && is_null o.o3 && is_null o.o4

  unfoldable pub fill_jal : Operands → Instr → Result Instr
  fill_jal o i =
      if given o.o2
      then (do
        format (two o)
        r ← register o.o1
        l ← text_of o.o2
        ok (record i { a1 = to_reg r i.a1; a2 = to_label l i.a2 }))
      else (do
        format (given o.o1 && is_null o.o2 && is_null o.o3 && is_null o.o4)
        l ← text_of o.o1
        ok (record i { a1 = to_reg (pos 1) i.a1; a2 = to_label l i.a2 }))

  unfoldable pub fill_registers : Operands → Instr → Result Instr
  fill_registers o i = do
    format (three o)
    r1 ← register o.o1
    r2 ← register o.o2
    r3 ← register o.o3
    ok (record i {
      a1 = record i.a1 { reg = r1 };
      a2 = record i.a2 { reg = r2 };
      a3 = record i.a3 { reg = r3 };
    })

  -- JALR, the loads and the stores.
  unfoldable pub fill_mem : Operands → Instr → Result Instr
  fill_mem o i = do
    format (two o)
    r1 ← register o.o1
    t2 ← text_of o.o2
    x ← parse_mem t2 12
    ok (record i {
      a1 = record i.a1 { reg = r1 };
      a2 = record i.a2 { reg = x.0 };
      a3 = record i.a3 { imm = x.1 };
    })

  unfoldable pub fill_immediate : Operands → Instr → Result Instr
  fill_immediate o i = do
    format (three o)
    r1 ← register o.o1
    r2 ← register o.o2
    t3 ← text_of o.o3
    v ← parse_imm report t3 12 line true
    ok (record i {
      a1 = record i.a1 { reg = r1 };
      a2 = record i.a2 { reg = r2 };
      a3 = record i.a3 { imm = signextend v 12 };
    })

  unfoldable pub fill_branch : Operands → Instr → Result Instr
  fill_branch o i = do
    format (three o)
    r1 ← register o.o1
    r2 ← register o.o2
    l ← text_of o.o3
    ok (record i {
      a1 = record i.a1 { reg = r1 };
      a2 = record i.a2 { reg = r2 };
      a3 = to_label l i.a3;
    })

  unfoldable pub fill_upper : Operands → Instr → Result Instr
  fill_upper o i = do
    format (two o)
    r1 ← register o.o1
    t2 ← text_of o.o2
    v ← parse_imm report t2 20 line true
    ok (record i { a1 = record i.a1 { reg = r1 }; a2 = record i.a2 { imm = v } })

  -- The switch of `parse_instr`.
  unfoldable pub fill : InstrType → Operands → Instr → Result Instr
  fill unimpl o i = ok i
  fill hcf o i = ok i
  fill jal o i = fill_jal o i
  fill add o i = fill_registers o i
  fill sub o i = fill_registers o i
  fill slt o i = fill_registers o i
  fill sltu o i = fill_registers o i
  fill and o i = fill_registers o i
  fill or o i = fill_registers o i
  fill xor o i = fill_registers o i
  fill sll o i = fill_registers o i
  fill srl o i = fill_registers o i
  fill sra o i = fill_registers o i
  fill jalr o i = fill_mem o i
  fill lb o i = fill_mem o i
  fill lbu o i = fill_mem o i
  fill lh o i = fill_mem o i
  fill lhu o i = fill_mem o i
  fill lw o i = fill_mem o i
  fill sb o i = fill_mem o i
  fill sh o i = fill_mem o i
  fill sw o i = fill_mem o i
  fill addi o i = fill_immediate o i
  fill slti o i = fill_immediate o i
  fill sltiu o i = fill_immediate o i
  fill andi o i = fill_immediate o i
  fill ori o i = fill_immediate o i
  fill xori o i = fill_immediate o i
  fill slli o i = fill_immediate o i
  fill srli o i = fill_immediate o i
  fill srai o i = fill_immediate o i
  fill beq o i = fill_branch o i
  fill bge o i = fill_branch o i
  fill bgeu o i = fill_branch o i
  fill blt o i = fill_branch o i
  fill bltu o i = fill_branch o i
  fill bne o i = fill_branch o i
  fill lui o i = fill_upper o i
  fill auipc o i = fill_upper o i

  -- An instruction that is no pseudo-instruction, at index `n`.
  unfoldable pub parse_plain : ℕ → List ℕ → ℕ → Operands → Code → Result (ℕ × Code)
  parse_plain max_src_len ftok n o c = do
    i ← entry c.imem n
    let op = parse_op ftok
    let named = record i { str = ftok; op = op; orig_line = pos line }
    x ← append_source max_src_len (some ftok) o.o1 o.o2 o.o3 c.src named
    j ← fill op o x.1
    ok (1, record { imem = set c.imem n j; src = x.0 })

  -- `parse_instr` on the text behind the first token: how many instructions were written.
  unfoldable pub parse_instr : ℕ → ℕ → List ℕ → ℕ → List ℕ → Code → Result (ℕ × Code)
  parse_instr data_offset max_src_len ftok memoff text c = do
    guard (leb (memoff + 4) data_offset) (exit 1)
    let o = split_operands text
    let n = memoff / 4
    x ← parse_pseudoinstructions report max_src_len line ftok n o.o1 o.o2 o.o3 c
    if ltb 0 x.0 then ok x else parse_plain max_src_len ftok n o c
