-- ===== src/Emulator/Opcode.antt =====
-- `Emulator::parse_instr(char*)`, the assembler's names of the instructions, and
-- `CPU::instrToString`, the names in the CPU's messages.
use aias_lab.Prelude.{ℕ, ◌≡◌, refl, none, some, List, [], ◌∷◌}
use aias_lab.Instr.{
  InstrType, unimpl, add, addi, and, andi, auipc, beq, bge, bgeu, blt, bltu, bne, jal, jalr, lb,
  lbu, lh, lhu, lui, lw, or, ori, sb, sh, sll, slli, slt, slti, sltiu, sltu, sra, srai, srl, srli,
  sub, sw, xor, xori, hcf,
}
use aias_lab.Emulator.Text.{codes, lower, first_equal}

-- The chain of comparisons, in its order.
abbrev pub mnemonics : List (List ℕ × InstrType)
mnemonics =
    (codes "add", add)
    ∷ (codes "sub", sub)
    ∷ (codes "slt", slt)
    ∷ (codes "sltu", sltu)
    ∷ (codes "and", and)
    ∷ (codes "or", or)
    ∷ (codes "xor", xor)
    ∷ (codes "sll", sll)
    ∷ (codes "srl", srl)
    ∷ (codes "sra", sra)
    ∷ (codes "addi", addi)
    ∷ (codes "slti", slti)
    ∷ (codes "sltiu", sltiu)
    ∷ (codes "andi", andi)
    ∷ (codes "ori", ori)
    ∷ (codes "xori", xori)
    ∷ (codes "slli", slli)
    ∷ (codes "srli", srli)
    ∷ (codes "srai", srai)
    ∷ (codes "lb", lb)
    ∷ (codes "lbu", lbu)
    ∷ (codes "lh", lh)
    ∷ (codes "lhu", lhu)
    ∷ (codes "lw", lw)
    ∷ (codes "sb", sb)
    ∷ (codes "sh", sh)
    ∷ (codes "sw", sw)
    ∷ (codes "beq", beq)
    ∷ (codes "bge", bge)
    ∷ (codes "bgeu", bgeu)
    ∷ (codes "blt", blt)
    ∷ (codes "bltu", bltu)
    ∷ (codes "bne", bne)
    ∷ (codes "jal", jal)
    ∷ (codes "jalr", jalr)
    ∷ (codes "auipc", auipc)
    ∷ (codes "lui", lui)
    ∷ (codes "hcf", hcf)
    ∷ []

-- `parse_instr`: any other name is UNIMPL.
unfoldable pub parse_op : List ℕ → InstrType
unfolding first_equal
parse_op tok = elim (first_equal tok mnemonics) [ none ↦ unimpl | some op ↦ op ]

-- `CPU::instrToString`.
unfoldable pub instr_to_string : InstrType → List ℕ
instr_to_string unimpl = codes "UNIMPL"
instr_to_string add = codes "ADD"
instr_to_string and = codes "AND"
instr_to_string or = codes "OR"
instr_to_string xor = codes "XOR"
instr_to_string sub = codes "SUB"
instr_to_string sll = codes "SLL"
instr_to_string srl = codes "SRL"
instr_to_string sra = codes "SRA"
instr_to_string slt = codes "SLT"
instr_to_string sltu = codes "SLTU"
instr_to_string addi = codes "ADDI"
instr_to_string andi = codes "ANDI"
instr_to_string ori = codes "ORI"
instr_to_string xori = codes "XORI"
instr_to_string slli = codes "SLLI"
instr_to_string srli = codes "SRLI"
instr_to_string srai = codes "SRAI"
instr_to_string slti = codes "SLTI"
instr_to_string sltiu = codes "SLTIU"
instr_to_string lb = codes "LB"
instr_to_string lbu = codes "LBU"
instr_to_string lh = codes "LH"
instr_to_string lhu = codes "LHU"
instr_to_string lw = codes "LW"
instr_to_string sb = codes "SB"
instr_to_string sh = codes "SH"
instr_to_string sw = codes "SW"
instr_to_string beq = codes "BEQ"
instr_to_string bne = codes "BNE"
instr_to_string bge = codes "BGE"
instr_to_string bgeu = codes "BGEU"
instr_to_string blt = codes "BLT"
instr_to_string bltu = codes "BLTU"
instr_to_string jal = codes "JAL"
instr_to_string jalr = codes "JALR"
instr_to_string auipc = codes "AUIPC"
instr_to_string lui = codes "LUI"
instr_to_string hcf = codes "HCF"

-- The name that the CPU prints for an instruction, in lower case, is the assembler's name of that
-- instruction; "unimpl" is no name, and so stands for UNIMPL too.
pub parse_op-instr_to_string : (op : InstrType) → parse_op (lower (instr_to_string op)) ≡ op
unfolding parse_op instr_to_string
parse_op-instr_to_string unimpl = refl
parse_op-instr_to_string add = refl
parse_op-instr_to_string and = refl
parse_op-instr_to_string or = refl
parse_op-instr_to_string xor = refl
parse_op-instr_to_string sub = refl
parse_op-instr_to_string sll = refl
parse_op-instr_to_string srl = refl
parse_op-instr_to_string sra = refl
parse_op-instr_to_string slt = refl
parse_op-instr_to_string sltu = refl
parse_op-instr_to_string addi = refl
parse_op-instr_to_string andi = refl
parse_op-instr_to_string ori = refl
parse_op-instr_to_string xori = refl
parse_op-instr_to_string slli = refl
parse_op-instr_to_string srli = refl
parse_op-instr_to_string srai = refl
parse_op-instr_to_string slti = refl
parse_op-instr_to_string sltiu = refl
parse_op-instr_to_string lb = refl
parse_op-instr_to_string lbu = refl
parse_op-instr_to_string lh = refl
parse_op-instr_to_string lhu = refl
parse_op-instr_to_string lw = refl
parse_op-instr_to_string sb = refl
parse_op-instr_to_string sh = refl
parse_op-instr_to_string sw = refl
parse_op-instr_to_string beq = refl
parse_op-instr_to_string bne = refl
parse_op-instr_to_string bge = refl
parse_op-instr_to_string bgeu = refl
parse_op-instr_to_string blt = refl
parse_op-instr_to_string bltu = refl
parse_op-instr_to_string jal = refl
parse_op-instr_to_string jalr = refl
parse_op-instr_to_string auipc = refl
parse_op-instr_to_string lui = refl
parse_op-instr_to_string hcf = refl
