-- ===== src/Isa.antt =====
-- RV32I as its manual describes it, for the instructions of `instr_type`: an abstract machine whose
-- registers and memory are functions and whose arithmetic is on integers. It shares no operation
-- with the model of CPU.cc, which is held to it in Cpu/Refines.antt.
use aias_lab.Prelude.{
  ℕ, ◌+◌, ◌-◌, ◌*◌, ◌/◌, ◌%◌, ◌^◌, Bool, not, ltb, leb, ◌==◌, if◌then◌else◌, bit_and, bit_or,
  bit_xor,
}
use aias_lab.Prelude.Int.{ℤ, pos, negsuc, ◌+ℤ◌, ◌-ℤ◌, ltb_ℤ}
use aias_lab.Instr.{
  InstrType, unimpl, add, addi, and, andi, auipc, beq, bge, bgeu, blt, bltu, bne, jal, jalr, lb,
  lbu, lh, lhu, lui, lw, or, ori, sb, sh, sll, slli, slt, slti, sltiu, sltu, sra, srai, srl, srli,
  sub, sw, xor, xori, hcf,
}

pub record Arch : Type 0 where
  pub regs : ℕ → ℕ
  pub bytes : ℕ → ℕ
  pub pc : ℕ

-- The fields of an instruction; `imm` is the immediate as the manual extends it to 32 bits, or the
-- absolute target of a branch or a jump.
pub record Fields : Type 0 where
  pub rd : ℕ
  pub rs1 : ℕ
  pub rs2 : ℕ
  pub imm : ℕ

-- Two's complement: the integer of a `w`-bit pattern, and the 32-bit pattern of an integer.
abbrev pub to_signed : ℕ → ℕ → ℤ
to_signed w v = if ltb v (2 ^ (w - 1)) then pos v else negsuc (2 ^ w - v - 1)

abbrev pub wrap : ℤ → ℕ
wrap (pos n) = n % 2 ^ 32
wrap (negsuc n) = 2 ^ 32 - 1 - n % 2 ^ 32

-- Division by 2 ^ n, rounded down.
abbrev pub floor_shift : ℤ → ℕ → ℤ
floor_shift (pos a) n = pos (a / 2 ^ n)
floor_shift (negsuc a) n = negsuc (a / 2 ^ n)

abbrev pub signed : ℕ → ℤ
signed v = to_signed 32 v

-- Register x0 reads zero and ignores writes.
abbrev pub write : ℕ → ℕ → Arch → Arch
write rd v s = record s { regs = λ r. if r == 0 then 0 else if r == rd then v else s.regs r }

abbrev pub advance : Arch → Arch
advance s = record s { pc = wrap (pos s.pc +ℤ pos 4) }

abbrev pub jump_if : Bool → ℕ → Arch → Arch
jump_if b target s = if b then record s { pc = target } else advance s

abbrev pub address : Fields → Arch → ℕ
address f s = wrap (signed (s.regs f.rs1) +ℤ signed f.imm)

-- The little-endian halfword and word at an address.
abbrev pub half_at : Arch → ℕ → ℕ
half_at s a = s.bytes a + 2 ^ 8 * s.bytes (a + 1)

abbrev pub word_at : Arch → ℕ → ℕ
word_at s a =
    s.bytes a + 2 ^ 8 * s.bytes (a + 1) + 2 ^ 16 * s.bytes (a + 2) + 2 ^ 24 * s.bytes (a + 3)

-- Byte `k` of `v`, for `k` below `n`, is stored at `a + k`.
abbrev pub store : ℕ → ℕ → ℕ → Arch → Arch
store n a v s = record s {
  bytes = λ j.
      if leb a j
      then if ltb j (a + n) then v / 2 ^ (8 * (j - a)) % 2 ^ 8 else s.bytes j
      else s.bytes j;
}

abbrev bool_value : Bool → ℕ
bool_value b = if b then 1 else 0

-- What an instruction does. `hcf` and `unimpl` are no RV32I instructions: the next one follows.
unfoldable pub step : InstrType → Fields → Arch → Arch
step add f s = advance (write f.rd (wrap (signed (s.regs f.rs1) +ℤ signed (s.regs f.rs2))) s)
step sub f s = advance (write f.rd (wrap (signed (s.regs f.rs1) -ℤ signed (s.regs f.rs2))) s)
step slt f s =
    advance (write f.rd (bool_value (ltb_ℤ (signed (s.regs f.rs1)) (signed (s.regs f.rs2)))) s)
step sltu f s = advance (write f.rd (bool_value (ltb (s.regs f.rs1) (s.regs f.rs2))) s)
step and f s = advance (write f.rd (bit_and (s.regs f.rs1) (s.regs f.rs2)) s)
step or f s = advance (write f.rd (bit_or (s.regs f.rs1) (s.regs f.rs2)) s)
step xor f s = advance (write f.rd (bit_xor (s.regs f.rs1) (s.regs f.rs2)) s)
step sll f s = advance (write f.rd (wrap (pos (s.regs f.rs1 * 2 ^ (s.regs f.rs2 % 32)))) s)
step srl f s = advance (write f.rd (s.regs f.rs1 / 2 ^ (s.regs f.rs2 % 32)) s)
step sra f s =
    advance (write f.rd (wrap (floor_shift (signed (s.regs f.rs1)) (s.regs f.rs2 % 32))) s)
step addi f s = advance (write f.rd (wrap (signed (s.regs f.rs1) +ℤ signed f.imm)) s)
step slti f s = advance (write f.rd (bool_value (ltb_ℤ (signed (s.regs f.rs1)) (signed f.imm))) s)
step sltiu f s = advance (write f.rd (bool_value (ltb (s.regs f.rs1) f.imm)) s)
step andi f s = advance (write f.rd (bit_and (s.regs f.rs1) f.imm) s)
step ori f s = advance (write f.rd (bit_or (s.regs f.rs1) f.imm) s)
step xori f s = advance (write f.rd (bit_xor (s.regs f.rs1) f.imm) s)
step slli f s = advance (write f.rd (wrap (pos (s.regs f.rs1 * 2 ^ (f.imm % 32)))) s)
step srli f s = advance (write f.rd (s.regs f.rs1 / 2 ^ (f.imm % 32)) s)
step srai f s = advance (write f.rd (wrap (floor_shift (signed (s.regs f.rs1)) (f.imm % 32))) s)
step beq f s = jump_if (s.regs f.rs1 == s.regs f.rs2) f.imm s
step bne f s = jump_if (not (s.regs f.rs1 == s.regs f.rs2)) f.imm s
step blt f s = jump_if (ltb_ℤ (signed (s.regs f.rs1)) (signed (s.regs f.rs2))) f.imm s
step bge f s = jump_if (not (ltb_ℤ (signed (s.regs f.rs1)) (signed (s.regs f.rs2)))) f.imm s
step bltu f s = jump_if (ltb (s.regs f.rs1) (s.regs f.rs2)) f.imm s
step bgeu f s = jump_if (not (ltb (s.regs f.rs1) (s.regs f.rs2))) f.imm s
step jal f s = record (write f.rd (wrap (pos s.pc +ℤ pos 4)) s) { pc = f.imm }
step jalr f s =
    let target = address f s in
    record (write f.rd (wrap (pos s.pc +ℤ pos 4)) s) { pc = target - target % 2 }
step auipc f s = advance (write f.rd (wrap (pos s.pc +ℤ pos (f.imm * 2 ^ 12))) s)
step lui f s = advance (write f.rd (wrap (pos (f.imm * 2 ^ 12))) s)
step lb f s = advance (write f.rd (wrap (to_signed 8 (s.bytes (address f s)))) s)
step lbu f s = advance (write f.rd (s.bytes (address f s)) s)
step lh f s = advance (write f.rd (wrap (to_signed 16 (half_at s (address f s)))) s)
step lhu f s = advance (write f.rd (half_at s (address f s)) s)
step lw f s = advance (write f.rd (word_at s (address f s)) s)
step sb f s = advance (store 1 (address f s) (s.regs f.rs2) s)
step sh f s = advance (store 2 (address f s) (s.regs f.rs2) s)
step sw f s = advance (store 4 (address f s) (s.regs f.rs2) s)
step hcf f s = advance s
step unimpl f s = advance s
