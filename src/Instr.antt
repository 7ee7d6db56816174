-- ===== src/Instr.antt =====
-- src/riscv/include/DataStruct.hh: the instruction record that the assembler fills and the CPU
-- executes. A `char label[MAX_LABEL_LEN]` is the list of its bytes up to the NUL, a `char* psrc`
-- the offset in the source buffer that it points to.
use aias_lab.Prelude.{
  ℕ, zero, suc, ◌≡◌, refl, ap, Bool, false, Option, none, List, [], ◌∷◌, length, All,
}
use aias_lab.Prelude.Int.{ℤ, negsuc}

-- `instr_type`.
pub data InstrType : Type 0 where
  unimpl add addi and andi auipc beq bge bgeu blt bltu bne jal jalr : InstrType
  lb lbu lh lhu lui lw or ori sb sh sll slli slt slti sltiu sltu : InstrType
  sra srai srl srli sub sw xor xori hcf : InstrType

-- `operand_type`.
pub data OperandType : Type 0 where
  optype_none optype_reg optype_imm optype_label : OperandType

abbrev pub max_label_len : ℕ
max_label_len = 32

-- `operand`. `reg` is an int, which `parse_reg` may set to -1; `imm` is a uint32_t.
pub record Operand : Type 0 where
  pub type : OperandType
  pub label : List ℕ
  pub reg : ℤ
  pub imm : ℕ

-- `instr`.
pub record Instr : Type 0 where
  pub str : List ℕ
  pub op : InstrType
  pub a1 : Operand
  pub a2 : Operand
  pub a3 : Operand
  pub psrc : Option ℕ
  pub orig_line : ℤ
  pub breakpoint : Bool

-- An `instr` as `new instr[n]` and the constructor of `CPU` leave it; `o` gives what its three
-- operands hold uninitialised.
unfoldable pub fresh_instr : (ℕ → Operand) → Instr
fresh_instr o = record {
  str = [];
  op = unimpl;
  a1 = record (o 1) { type = optype_none };
  a2 = record (o 2) { type = optype_none };
  a3 = record (o 3) { type = optype_none };
  psrc = none;
  orig_line = negsuc 0;
  breakpoint = false;
}

-- `n` of them, from index `k` on.
unfoldable pub fresh_imem : (ℕ → ℕ → Operand) → ℕ → ℕ → List Instr
unfolding fresh_instr
fresh_imem o k zero = []
fresh_imem o k (suc n) = fresh_instr (o k) ∷ fresh_imem o (suc k) n

pub length-fresh_imem : (o : ℕ → ℕ → Operand) (k n : ℕ) → length (fresh_imem o k n) ≡ n
unfolding fresh_imem
length-fresh_imem o k zero = refl
length-fresh_imem o k (suc n) = ap suc (length-fresh_imem o (suc k) n)

pub All-fresh_imem {ℓ} :
    (P : Instr → Type ℓ) (o : ℕ → ℕ → Operand) (k n : ℕ)
    → ((m : ℕ) → P (fresh_instr (o m)))
    → All P (fresh_imem o k n)
unfolding fresh_imem
All-fresh_imem P o k zero h = tt
All-fresh_imem P o k (suc n) h = (h k, All-fresh_imem P o (suc k) n h)
