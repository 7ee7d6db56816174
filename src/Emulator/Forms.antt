-- ===== src/Emulator/Forms.antt =====
-- The forms of an instruction's operands in a source line: as text the way the assembler prints them,
-- and in the instruction.
use aias_lab.Prelude.{ℕ, ◌<◌, ◌^◌, Option, none, some, List, [], ◌∷◌, ◌++◌, length}
use aias_lab.Prelude.Int.{pos}
use aias_lab.Instr.{
  InstrType, unimpl, add, addi, and, andi, auipc, beq, bge, bgeu, blt, bltu, bne, jal, jalr, lb,
  lbu, lh, lhu, lui, lw, or, ori, sb, sh, sll, slli, slt, slti, sltiu, sltu, sra, srai, srl, srli,
  sub, sw, xor, xori, hcf, Instr,
}
use aias_lab.Emulator.Tokens.{separators}
use aias_lab.Emulator.Numbers.{signextend}
use aias_lab.Emulator.Source.{format_hex}
use aias_lab.Emulator.Code.{to_reg, to_label}
use aias_lab.Emulator.Operands.{Operands}
use aias_lab.Emulator.Words.{IsToken}
use aias_lab.Emulator.Written.{reg_text, mem_text}

-- The forms of an operand list.
pub data Form : Type 0 where
  registers immediate memory branch upper jump bare : Form

abbrev pub form_of : InstrType → Form
form_of add = registers
form_of sub = registers
form_of slt = registers
form_of sltu = registers
form_of and = registers
form_of or = registers
form_of xor = registers
form_of sll = registers
form_of srl = registers
form_of sra = registers
form_of addi = immediate
form_of slti = immediate
form_of sltiu = immediate
form_of andi = immediate
form_of ori = immediate
form_of xori = immediate
form_of slli = immediate
form_of srli = immediate
form_of srai = immediate
form_of lb = memory
form_of lbu = memory
form_of lh = memory
form_of lhu = memory
form_of lw = memory
form_of sb = memory
form_of sh = memory
form_of sw = memory
form_of jalr = memory
form_of beq = branch
form_of bge = branch
form_of bgeu = branch
form_of blt = branch
form_of bltu = branch
form_of bne = branch
form_of lui = upper
form_of auipc = upper
form_of jal = jump
form_of hcf = bare
form_of unimpl = bare

-- What can be written in one; a form uses some of these.
pub record Values : Type 0 where
  pub r1 : ℕ
  pub r2 : ℕ
  pub r3 : ℕ
  pub imm : ℕ
  pub label : List ℕ

-- The operands, and the text with them: separated by commas and spaces, with a newline behind.
abbrev pub texts : Form → Values → Operands
texts registers v = record {
  o1 = some (reg_text v.r1);
  o2 = some (reg_text v.r2);
  o3 = some (reg_text v.r3);
  o4 = none;
}
texts immediate v = record {
  o1 = some (reg_text v.r1);
  o2 = some (reg_text v.r2);
  o3 = some (format_hex v.imm);
  o4 = none;
}
texts memory v = record {
  o1 = some (reg_text v.r1);
  o2 = some (mem_text v.imm v.r2);
  o3 = none;
  o4 = none;
}
texts branch v = record {
  o1 = some (reg_text v.r1);
  o2 = some (reg_text v.r2);
  o3 = some v.label;
  o4 = none;
}
texts upper v = record {
  o1 = some (reg_text v.r1);
  o2 = some (format_hex v.imm);
  o3 = none;
  o4 = none;
}
texts jump v = record { o1 = some (reg_text v.r1); o2 = some v.label; o3 = none; o4 = none }
texts bare v = record { o1 = none; o2 = none; o3 = none; o4 = none }

abbrev pub joined : Option (List ℕ) → Option (List ℕ) → Option (List ℕ) → List ℕ
joined (some u) (some v) (some w) = u ++ 44 ∷ 32 ∷ (v ++ 44 ∷ 32 ∷ (w ++ 10 ∷ []))
joined (some u) (some v) none = u ++ 44 ∷ 32 ∷ (v ++ 10 ∷ [])
joined (some u) none _ = u ++ 10 ∷ []
joined none _ _ = 10 ∷ []

abbrev pub written : Form → Values → List ℕ
written f v = let o = texts f v in joined o.o1 o.o2 o.o3

-- The instruction with the values in its operands.
abbrev pub filled : Form → Values → Instr → Instr
filled registers v i = record i {
  a1 = record i.a1 { reg = pos v.r1 };
  a2 = record i.a2 { reg = pos v.r2 };
  a3 = record i.a3 { reg = pos v.r3 };
}
filled immediate v i = record i {
  a1 = record i.a1 { reg = pos v.r1 };
  a2 = record i.a2 { reg = pos v.r2 };
  a3 = record i.a3 { imm = signextend v.imm 12 };
}
filled memory v i = record i {
  a1 = record i.a1 { reg = pos v.r1 };
  a2 = record i.a2 { reg = pos v.r2 };
  a3 = record i.a3 { imm = v.imm };
}
filled branch v i = record i {
  a1 = record i.a1 { reg = pos v.r1 };
  a2 = record i.a2 { reg = pos v.r2 };
  a3 = to_label v.label i.a3;
}
filled upper v i = record i {
  a1 = record i.a1 { reg = pos v.r1 };
  a2 = record i.a2 { imm = v.imm };
}
filled jump v i = record i { a1 = to_reg (pos v.r1) i.a1; a2 = to_label v.label i.a2 }
filled bare v i = i

abbrev pub bits_of : Form → ℕ
bits_of upper = 20
bits_of _ = 12

-- Registers that exist, a number of the field's width, and a label of some length without a
-- separator.
pub record IsWritable (f : Form) (v : Values) : Type 0 where
  pub reg1 : v.r1 < 32
  pub reg2 : v.r2 < 32
  pub reg3 : v.r3 < 32
  pub width : v.imm < 2 ^ bits_of f
  pub token : IsToken separators v.label
  pub short : length v.label < 64
