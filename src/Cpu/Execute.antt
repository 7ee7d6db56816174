-- ===== src/Cpu/Execute.antt =====
-- The switch of `CPU::processInstr`, with `memRead` and `memWrite`: what an instruction does to
-- the registers, the data memory and the next pc. An index outside `rf`, and a shift by 32 or
-- more, are undefined in C++ and are the fault `undefined`.
use aias_lab.Prelude.{
  none, ℕ, Bool, not, List, ltb, leb, ◌==◌, if◌then◌else◌, length, get_elem?, set, bit_and, bit_or,
  bit_xor,
}
use aias_lab.Prelude.Result.{undefined, Result, ok, err, guard, from_option, ◌>>=◌, ◌>>◌}
use aias_lab.Prelude.Int.{ℤ, pos, negsuc}
use aias_lab.Prelude.Word.{add32, sub32, slt32, shl32, shr32, sar32}
use aias_lab.Instr.{
  InstrType, unimpl, add, addi, and, andi, auipc, beq, bge, bgeu, blt, bltu, bne, jal, jalr, lb,
  lbu, lh, lhu, lui, lw, or, ori, sb, sh, sll, slli, slt, slti, sltiu, sltu, sra, srai, srl, srli,
  sub, sw, xor, xori, hcf, Instr,
}
use aias_lab.Memory.Handlers.{mem_read_req_handler, mem_write_req_handler}
use aias_lab.Memory.Packets.{renew_read_req, renew_write_req}

-- The state that the switch works on; `pc` is `this->pc`, which it only reads.
pub record Exec : Type 0 where
  pub rf : List ℕ
  pub mem : List ℕ
  pub pc : ℕ
  pub pc_next : ℕ

-- `rf[r]` read.
unfoldable pub reg : List ℕ → ℤ → Result ℕ
reg rf (pos r) = from_option undefined (get_elem? rf r)
reg rf (negsuc r) = err undefined

-- `rf[r] = v`.
unfoldable pub put : Exec → ℤ → ℕ → Result Exec
put s (pos r) v = do guard (ltb r (length s.rf)) undefined; ok (record s { rf = set s.rf r v })
put s (negsuc r) v = err undefined

-- `rf[a1] = f(rf[a2], rf[a3])`, and the same with an immediate.
unfoldable pub reg_reg : Instr → Exec → (ℕ → ℕ → ℕ) → Result Exec
unfolding reg put
reg_reg i s f = do a ← reg s.rf i.a2.reg; b ← reg s.rf i.a3.reg; put s i.a1.reg (f a b)

unfoldable pub reg_imm : Instr → Exec → (ℕ → ℕ → ℕ) → Result Exec
unfolding reg put
reg_imm i s f = do a ← reg s.rf i.a2.reg; put s i.a1.reg (f a i.a3.imm)

-- The shifts, by a register and by an immediate.
unfoldable pub shift_reg : Instr → Exec → (ℕ → ℕ → ℕ) → Result Exec
unfolding reg put
shift_reg i s f = do
  a ← reg s.rf i.a2.reg
  n ← reg s.rf i.a3.reg
  guard (ltb n 32) undefined
  put s i.a1.reg (f a n)

unfoldable pub shift_imm : Instr → Exec → (ℕ → ℕ → ℕ) → Result Exec
unfolding reg put
shift_imm i s f = do
  a ← reg s.rf i.a2.reg
  guard (ltb i.a3.imm 32) undefined
  put s i.a1.reg (f a i.a3.imm)

-- `if (test(rf[a1], rf[a2])) pc_next = a3.imm`.
unfoldable pub branch : Instr → Exec → (ℕ → ℕ → Bool) → Result Exec
unfolding reg
branch i s test = do
  a ← reg s.rf i.a1.reg
  b ← reg s.rf i.a2.reg
  ok (if test a b then record s { pc_next = i.a3.imm } else s)

-- `memRead` at `rf[a2] + a3.imm`, into `rf[a1]`.
unfoldable pub mem_read : InstrType → Instr → Exec → Result Exec
unfolding reg put
mem_read op i s = do
  base ← reg s.rf i.a2.reg
  let pkt = renew_read_req none i op (add32 base i.a3.imm) i.a1
  v ← mem_read_req_handler s.mem pkt.op pkt.addr
  put s i.a1.reg v

-- `memWrite` of `rf[a1]` at `rf[a2] + a3.imm`.
unfoldable pub mem_write : InstrType → Instr → Exec → Result Exec
unfolding reg
mem_write op i s = do
  base ← reg s.rf i.a2.reg
  v ← reg s.rf i.a1.reg
  let pkt = renew_write_req none i op (add32 base i.a3.imm) v
  mem' ← mem_write_req_handler s.mem pkt.op pkt.addr pkt.data_word
  ok (record s { mem = mem' })

abbrev pub bool_word : Bool → ℕ
bool_word b = if b then 1 else 0

-- The switch over `_i.op`.
unfoldable pub execute : InstrType → Instr → Exec → Result Exec
unfolding reg put reg_reg reg_imm shift_reg shift_imm branch mem_read mem_write
execute add i s = reg_reg i s add32
execute sub i s = reg_reg i s sub32
execute slt i s = reg_reg i s (λ a b. bool_word (slt32 a b))
execute sltu i s = reg_reg i s add32
execute and i s = reg_reg i s bit_and
execute or i s = reg_reg i s bit_or
execute xor i s = reg_reg i s bit_xor
execute sll i s = shift_reg i s shl32
execute srl i s = shift_reg i s shr32
execute sra i s = shift_reg i s sar32
execute addi i s = reg_imm i s add32
execute slti i s = reg_imm i s (λ a b. bool_word (slt32 a b))
execute sltiu i s = reg_imm i s (λ a b. bool_word (ltb a b))
execute andi i s = reg_imm i s bit_and
execute ori i s = reg_imm i s bit_or
execute xori i s = reg_imm i s bit_xor
execute slli i s = shift_imm i s shl32
execute srli i s = shift_imm i s shr32
execute srai i s = shift_imm i s sar32
execute beq i s = branch i s ◌==◌
execute bge i s = branch i s (λ a b. not (slt32 a b))
execute bgeu i s = branch i s (λ a b. leb b a)
execute blt i s = branch i s slt32
execute bltu i s = branch i s ltb
execute bne i s = branch i s (λ a b. not (a == b))
execute jal i s = do t ← put s i.a1.reg (add32 s.pc 4); ok (record t { pc_next = i.a2.imm })
execute jalr i s = do
  t ← put s i.a1.reg (add32 s.pc 4)
  base ← reg t.rf i.a2.reg
  ok (record t { pc_next = add32 base i.a3.imm })
execute auipc i s = put s i.a1.reg (add32 s.pc (shl32 i.a2.imm 12))
execute lui i s = put s i.a1.reg (shl32 i.a2.imm 12)
execute lb i s = mem_read lb i s
execute lbu i s = mem_read lbu i s
execute lh i s = mem_read lh i s
execute lhu i s = mem_read lhu i s
execute lw i s = mem_read lw i s
execute sb i s = mem_write sb i s
execute sh i s = mem_write sh i s
execute sw i s = mem_write sw i s
execute hcf i s = ok s
execute unimpl i s = ok s
