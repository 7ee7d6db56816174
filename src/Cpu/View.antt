-- ===== src/Cpu/View.antt =====
-- How the state of the switch is read as the abstract machine of Isa.antt, which operands are
-- which fields, and what is asked of an instruction before the two are compared.
use aias_lab.Prelude.{
  ℕ, ◌+◌, ◌%◌, ◌≤◌, ◌<◌, ◌≡◌, ◌≢◌, arith, List, length, get_or, set, get_or-set_self, get_or-set_ne,
  get_elem?-eq-get_or, lt→ltb,
}
use aias_lab.Prelude.Result.{ok}
use aias_lab.Prelude.Int.{pos, pos_part}
use aias_lab.Prelude.Word.{add32}
use aias_lab.Instr.{
  InstrType, unimpl, add, addi, and, andi, auipc, beq, bge, bgeu, blt, bltu, bne, jal, jalr, lb,
  lbu, lh, lhu, lui, lw, or, ori, sb, sh, sll, slli, slt, slti, sltiu, sltu, sra, srai, srl, srli,
  sub, sw, xor, xori, hcf, Operand, Instr,
}
use aias_lab.Isa.{Arch, Fields, write}
use aias_lab.Cpu.Execute.{Exec, reg, put}

-- Before an instruction, and after it, when `pc_next` is the program counter.
abbrev pub view : Exec → Arch
view s = record { regs = λ r. get_or s.rf r 0; bytes = λ j. get_or s.mem j 0; pc = s.pc }

abbrev pub view_next : Exec → Arch
view_next s = record { regs = λ r. get_or s.rf r 0; bytes = λ j. get_or s.mem j 0; pc = s.pc_next }

abbrev pub num : Operand → ℕ
num o = pos_part o.reg

abbrev r_fields : Instr → Fields
r_fields i = record { rd = num i.a1; rs1 = num i.a2; rs2 = num i.a3; imm = i.a3.imm }

abbrev b_fields : Instr → Fields
b_fields i = record { rd = 0; rs1 = num i.a1; rs2 = num i.a2; imm = i.a3.imm }

abbrev s_fields : Instr → Fields
s_fields i = record { rd = 0; rs1 = num i.a2; rs2 = num i.a1; imm = i.a3.imm }

abbrev u_fields : Instr → Fields
u_fields i = record { rd = num i.a1; rs1 = 0; rs2 = 0; imm = i.a2.imm }

-- The operands of the assembler's instruction as the fields of the manual.
abbrev pub fields : InstrType → Instr → Fields
fields beq i = b_fields i
fields bge i = b_fields i
fields bgeu i = b_fields i
fields blt i = b_fields i
fields bltu i = b_fields i
fields bne i = b_fields i
fields sb i = s_fields i
fields sh i = s_fields i
fields sw i = s_fields i
fields jal i = u_fields i
fields lui i = u_fields i
fields auipc i = u_fields i
fields _ i = r_fields i

-- A register that exists, and one that an instruction may write: not x0.
pub record IsReg (o : Operand) : Type 0 where
  pub nonneg : o.reg ≡ pos (num o)
  pub below : num o < 32

pub record IsDest (o : Operand) : Type 0 where
  pub is_reg : IsReg o
  pub ne_x0 : num o ≢ 0

abbrev pub val : Exec → Operand → ℕ
val s o = get_or s.rf (num o) 0

abbrev pub target : Instr → Exec → ℕ
target i s = add32 (val s i.a2) i.a3.imm

-- What an instruction asks of its operands, in a state of the abstract machine with a memory of
-- `size` bytes: registers that exist, a destination other than x0, a shift amount below 32, an
-- access inside the memory, and for JALR an even target and a base that is not the destination.
-- SLTU never meets it.
abbrev RegReg : Instr → Type 0
RegReg i = IsDest i.a1 × IsReg i.a2 × IsReg i.a3

abbrev RegImm : Instr → Type 0
RegImm i = IsDest i.a1 × IsReg i.a2

abbrev reached : Instr → Arch → ℕ
reached i a = add32 (a.regs (num i.a2)) i.a3.imm

abbrev pub IsAllowed : InstrType → Instr → ℕ → Arch → Type 0
IsAllowed add i size a = RegReg i
IsAllowed sub i size a = RegReg i
IsAllowed slt i size a = RegReg i
IsAllowed sltu i size a = ⊥
IsAllowed and i size a = RegReg i
IsAllowed or i size a = RegReg i
IsAllowed xor i size a = RegReg i
IsAllowed sll i size a = RegReg i × (a.regs (num i.a3) < 32)
IsAllowed srl i size a = RegReg i × (a.regs (num i.a3) < 32)
IsAllowed sra i size a = RegReg i × (a.regs (num i.a3) < 32)
IsAllowed addi i size a = RegImm i
IsAllowed slti i size a = RegImm i
IsAllowed sltiu i size a = RegImm i
IsAllowed andi i size a = RegImm i
IsAllowed ori i size a = RegImm i
IsAllowed xori i size a = RegImm i
IsAllowed slli i size a = RegImm i × (i.a3.imm < 32)
IsAllowed srli i size a = RegImm i × (i.a3.imm < 32)
IsAllowed srai i size a = RegImm i × (i.a3.imm < 32)
IsAllowed jal i size a = IsDest i.a1
IsAllowed jalr i size a = IsDest i.a1 × IsReg i.a2 × (num i.a1 ≢ num i.a2) × (reached i a % 2 ≡ 0)
IsAllowed auipc i size a = IsDest i.a1
IsAllowed lui i size a = IsDest i.a1
IsAllowed beq i size a = IsReg i.a1 × IsReg i.a2
IsAllowed bge i size a = IsReg i.a1 × IsReg i.a2
IsAllowed bgeu i size a = IsReg i.a1 × IsReg i.a2
IsAllowed blt i size a = IsReg i.a1 × IsReg i.a2
IsAllowed bltu i size a = IsReg i.a1 × IsReg i.a2
IsAllowed bne i size a = IsReg i.a1 × IsReg i.a2
IsAllowed lb i size a = RegImm i × (reached i a + 1 ≤ size)
IsAllowed lbu i size a = RegImm i × (reached i a + 1 ≤ size)
IsAllowed lh i size a = RegImm i × (reached i a + 2 ≤ size)
IsAllowed lhu i size a = RegImm i × (reached i a + 2 ≤ size)
IsAllowed lw i size a = RegImm i × (reached i a + 4 ≤ size)
IsAllowed sb i size a = IsReg i.a1 × IsReg i.a2 × (reached i a + 1 ≤ size)
IsAllowed sh i size a = IsReg i.a1 × IsReg i.a2 × (reached i a + 2 ≤ size)
IsAllowed sw i size a = IsReg i.a1 × IsReg i.a2 × (reached i a + 4 ≤ size)
IsAllowed hcf i size a = Unit
IsAllowed unimpl i size a = Unit

-- The same in a state of the switch.
abbrev pub IsLegal : InstrType → Instr → Exec → Type 0
IsLegal op i s = IsAllowed op i (length s.mem) (view s)

-- Reads and writes of registers that exist succeed.
pub reg-ok :
    (rf : List ℕ) (o : Operand) → IsReg o → length rf ≡ 32 → reg rf o.reg ≡ ok (get_or rf (num o) 0)
unfolding reg
reg-ok rf o h e = rw h.nonneg (rw (get_elem?-eq-get_or rf (num o) 0 (omega arith)))

pub put-ok :
    (s : Exec) (o : Operand) (v : ℕ)
    → IsReg o
    → length s.rf ≡ 32
    → put s o.reg v ≡ ok (record s { rf = set s.rf (num o) v })
unfolding put
put-ok s o v h e = rw h.nonneg (rw (lt→ltb (num o) (length s.rf) (omega arith)))

-- A write of the register file, seen through `view`.
pub regs-set :
    (s : Exec) (rd v r : ℕ)
    → rd ≢ 0
    → rd < length s.rf
    → get_or s.rf 0 0 ≡ 0
    → get_or (set s.rf rd v) r 0 ≡ (write rd v (view s)).regs r
regs-set s rd v r ne lt zero_reg =
    ground (arith, get_or-set_self s.rf rd v 0, get_or-set_ne s.rf rd r v 0)
