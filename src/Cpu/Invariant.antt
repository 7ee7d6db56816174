-- ===== src/Cpu/Invariant.antt =====
-- The state stays well formed: 32 registers that are words, a memory of bytes of its size, and
-- word program counters, whatever instruction is executed.
use aias_lab.Prelude.{
  ℕ, ◌≡◌, ◌∙◌, Bool, true, false, List, arith, ltb, if◌then◌else◌, length, set, All, All-set,
  All-get_elem?, length-set, bit_and, bit_or, bit_xor,
}
use aias_lab.Prelude.Bits.{bit_and-lt, bit_or-lt, bit_xor-lt}
use aias_lab.Prelude.Result.{undefined, ok, guard, bind-eq-ok, ok-injective}
use aias_lab.Prelude.Int.{ℤ, pos, negsuc}
use aias_lab.Prelude.Word.{IsWord, add32, sub32, slt32, shl32, shr32, sar32}
use aias_lab.Instr.{
  InstrType, unimpl, add, addi, and, andi, auipc, beq, bge, bgeu, blt, bltu, bne, jal, jalr, lb,
  lbu, lh, lhu, lui, lw, or, ori, sb, sh, sll, slli, slt, slti, sltiu, sltu, sra, srai, srl, srli,
  sub, sw, xor, xori, hcf, Instr,
}
use aias_lab.Memory.Handlers.{mem_read_req_handler, mem_write_req_handler}
use aias_lab.Memory.Safety.{IsMemory, mem_write_req_handler-IsMemory, mem_read_req_handler-IsWord}
use aias_lab.Cpu.Execute.{
  Exec, bool_word, reg, put, reg_reg, reg_imm, shift_reg, shift_imm, branch, mem_read, mem_write,
  execute,
}

pub record IsExec (size : ℕ) (s : Exec) : Type 0 where
  pub registers : length s.rf ≡ 32
  pub words : All IsWord s.rf
  pub memory : IsMemory size s.mem
  pub pc_word : IsWord s.pc
  pub pc_next_word : IsWord s.pc_next

-- The immediates of an instruction are uint32_t.
pub record IsInstr (i : Instr) : Type 0 where
  pub imm2 : IsWord i.a2.imm
  pub imm3 : IsWord i.a3.imm

pub reg-IsWord : (rf : List ℕ) (r : ℤ) {v : ℕ} → All IsWord rf → reg rf r ≡ ok v → IsWord v
unfolding reg
reg-IsWord rf (pos r) a h = All-get_elem? IsWord rf r a (ground arith)
reg-IsWord rf (negsuc r) a h = cc

module _ {size : ℕ} {i : Instr} {s : Exec} (inv : IsExec size s) (enc : IsInstr i) where
  put-IsExec : (r : ℤ) (v : ℕ) {s' : Exec} → IsWord v → put s r v ≡ ok s' → IsExec size s'
  unfolding put
  put-IsExec (pos r) v {s'} w h = rw (← put_value) (record {
    registers = length-set s.rf r v ∙ inv.registers;
    words = All-set IsWord s.rf r v inv.words w;
    memory = inv.memory;
    pc_word = inv.pc_word;
    pc_next_word = inv.pc_next_word;
  })
    where
      put_value : record s { rf = set s.rf r v } ≡ s'
      put_value = ground arith
  put-IsExec (negsuc r) v w h = cc

  reg_reg-IsExec :
      (f : ℕ → ℕ → ℕ) {s' : Exec}
      → ((a b : ℕ) → IsWord a → IsWord b → IsWord (f a b))
      → reg_reg i s f ≡ ok s'
      → IsExec size s'
  unfolding reg_reg
  reg_reg-IsExec f keeps h =
      let (a, ra, h1) = bind-eq-ok (reg s.rf i.a2.reg) _ h in
      let (b, rb, h2) = bind-eq-ok (reg s.rf i.a3.reg) _ h1 in
      put-IsExec i.a1.reg (f a b)
        (keeps a b (reg-IsWord s.rf i.a2.reg inv.words ra) (reg-IsWord s.rf i.a3.reg inv.words rb))
        h2

  reg_imm-IsExec :
      (f : ℕ → ℕ → ℕ) {s' : Exec}
      → ((a b : ℕ) → IsWord a → IsWord b → IsWord (f a b))
      → reg_imm i s f ≡ ok s'
      → IsExec size s'
  unfolding reg_imm
  reg_imm-IsExec f keeps h =
      let (a, ra, h1) = bind-eq-ok (reg s.rf i.a2.reg) _ h in
      put-IsExec i.a1.reg (f a i.a3.imm)
        (keeps a i.a3.imm (reg-IsWord s.rf i.a2.reg inv.words ra) enc.imm3) h1

  shift_reg-IsExec :
      (f : ℕ → ℕ → ℕ) {s' : Exec}
      → ((a n : ℕ) → IsWord a → IsWord (f a n))
      → shift_reg i s f ≡ ok s'
      → IsExec size s'
  unfolding shift_reg
  shift_reg-IsExec f keeps h =
      let (a, ra, h1) = bind-eq-ok (reg s.rf i.a2.reg) _ h in
      let (n, rn, h2) = bind-eq-ok (reg s.rf i.a3.reg) _ h1 in
      let (_, _, h3) = bind-eq-ok (guard (ltb n 32) undefined) _ h2 in
      put-IsExec i.a1.reg (f a n) (keeps a n (reg-IsWord s.rf i.a2.reg inv.words ra)) h3

  shift_imm-IsExec :
      (f : ℕ → ℕ → ℕ) {s' : Exec}
      → ((a n : ℕ) → IsWord a → IsWord (f a n))
      → shift_imm i s f ≡ ok s'
      → IsExec size s'
  unfolding shift_imm
  shift_imm-IsExec f keeps h =
      let (a, ra, h1) = bind-eq-ok (reg s.rf i.a2.reg) _ h in
      let (_, _, h2) = bind-eq-ok (guard (ltb i.a3.imm 32) undefined) _ h1 in
      put-IsExec i.a1.reg (f a i.a3.imm) (keeps a i.a3.imm (reg-IsWord s.rf i.a2.reg inv.words ra))
        h2

  jump-IsExec : (target : ℕ) → IsWord target → IsExec size (record s { pc_next = target })
  jump-IsExec target w = record {
    registers = inv.registers;
    words = inv.words;
    memory = inv.memory;
    pc_word = inv.pc_word;
    pc_next_word = w;
  }

  branch_end : (b : Bool) → IsExec size (if b then record s { pc_next = i.a3.imm } else s)
  branch_end true = jump-IsExec i.a3.imm enc.imm3
  branch_end false = inv

  branch-IsExec : (test : ℕ → ℕ → Bool) {s' : Exec} → branch i s test ≡ ok s' → IsExec size s'
  unfolding branch
  branch-IsExec test h =
      let (a, ra, h1) = bind-eq-ok (reg s.rf i.a1.reg) _ h in
      let (b, rb, h2) = bind-eq-ok (reg s.rf i.a2.reg) _ h1 in
      rw (← ok-injective h2) (branch_end (test a b))

  mem_read-IsExec : (op : InstrType) {s' : Exec} → mem_read op i s ≡ ok s' → IsExec size s'
  unfolding mem_read
  mem_read-IsExec op h =
      let (base, _, h1) = bind-eq-ok (reg s.rf i.a2.reg) _ h in
      let (v, rv, h2) = bind-eq-ok (mem_read_req_handler s.mem op (add32 base i.a3.imm)) _ h1 in
      put-IsExec i.a1.reg v (mem_read_req_handler-IsWord s.mem op _ inv.memory rv) h2

  mem_write-IsExec : (op : InstrType) {s' : Exec} → mem_write op i s ≡ ok s' → IsExec size s'
  unfolding mem_write
  mem_write-IsExec op h =
      let (base, _, h1) = bind-eq-ok (reg s.rf i.a2.reg) _ h in
      let (v, _, h2) = bind-eq-ok (reg s.rf i.a1.reg) _ h1 in
      let (mem', wrote, h3) =
        bind-eq-ok (mem_write_req_handler s.mem op (add32 base i.a3.imm) v) _ h2 in
      rw (← ok-injective h3) (record {
        registers = inv.registers;
        words = inv.words;
        memory = mem_write_req_handler-IsMemory s.mem op _ v inv.memory wrote;
        pc_word = inv.pc_word;
        pc_next_word = inv.pc_next_word;
      })

shr32-IsWord : (a n : ℕ) → IsWord a → IsWord (shr32 a n)
shr32-IsWord a n h = omega arith

sar32-IsWord : (a n : ℕ) → IsWord a → IsWord (sar32 a n)
sar32-IsWord a n h = ground arith

bool_word-IsWord : (b : Bool) → IsWord (bool_word b)
bool_word-IsWord true = omega arith
bool_word-IsWord false = omega arith

-- Executing any instruction whose immediates are words keeps the state well formed.
pub execute-IsExec :
    {size : ℕ} (op : InstrType) (i : Instr) (s : Exec) {s' : Exec}
    → IsExec size s
    → IsInstr i
    → execute op i s ≡ ok s'
    → IsExec size s'
unfolding execute
execute-IsExec add i s v e h = reg_reg-IsExec v e add32 (λ a b p q. omega arith) h
execute-IsExec sub i s v e h = reg_reg-IsExec v e sub32 (λ a b p q. omega arith) h
execute-IsExec slt i s v e h =
    reg_reg-IsExec v e (λ a b. bool_word (slt32 a b)) (λ a b p q. bool_word-IsWord _) h
execute-IsExec sltu i s v e h = reg_reg-IsExec v e add32 (λ a b p q. omega arith) h
execute-IsExec and i s v e h = reg_reg-IsExec v e bit_and (λ a b p q. bit_and-lt 32 a b p q) h
execute-IsExec or i s v e h = reg_reg-IsExec v e bit_or (λ a b p q. bit_or-lt 32 a b p q) h
execute-IsExec xor i s v e h = reg_reg-IsExec v e bit_xor (λ a b p q. bit_xor-lt 32 a b p q) h
execute-IsExec sll i s v e h = shift_reg-IsExec v e shl32 (λ a n p. omega arith) h
execute-IsExec srl i s v e h = shift_reg-IsExec v e shr32 shr32-IsWord h
execute-IsExec sra i s v e h = shift_reg-IsExec v e sar32 sar32-IsWord h
execute-IsExec addi i s v e h = reg_imm-IsExec v e add32 (λ a b p q. omega arith) h
execute-IsExec slti i s v e h =
    reg_imm-IsExec v e (λ a b. bool_word (slt32 a b)) (λ a b p q. bool_word-IsWord _) h
execute-IsExec sltiu i s v e h =
    reg_imm-IsExec v e (λ a b. bool_word (ltb a b)) (λ a b p q. bool_word-IsWord _) h
execute-IsExec andi i s v e h = reg_imm-IsExec v e bit_and (λ a b p q. bit_and-lt 32 a b p q) h
execute-IsExec ori i s v e h = reg_imm-IsExec v e bit_or (λ a b p q. bit_or-lt 32 a b p q) h
execute-IsExec xori i s v e h = reg_imm-IsExec v e bit_xor (λ a b p q. bit_xor-lt 32 a b p q) h
execute-IsExec slli i s v e h = shift_imm-IsExec v e shl32 (λ a n p. omega arith) h
execute-IsExec srli i s v e h = shift_imm-IsExec v e shr32 shr32-IsWord h
execute-IsExec srai i s v e h = shift_imm-IsExec v e sar32 sar32-IsWord h
execute-IsExec beq i s v e h = branch-IsExec v e _ h
execute-IsExec bge i s v e h = branch-IsExec v e _ h
execute-IsExec bgeu i s v e h = branch-IsExec v e _ h
execute-IsExec blt i s v e h = branch-IsExec v e _ h
execute-IsExec bltu i s v e h = branch-IsExec v e _ h
execute-IsExec bne i s v e h = branch-IsExec v e _ h
execute-IsExec jal i s v e h =
    let (t, wrote, h1) = bind-eq-ok (put s i.a1.reg (add32 s.pc 4)) _ h in
    rw (← ok-injective h1)
      (jump-IsExec (put-IsExec v e i.a1.reg (add32 s.pc 4) (omega arith) wrote) e i.a2.imm e.imm2)
execute-IsExec jalr i s v e h =
    let (t, wrote, h1) = bind-eq-ok (put s i.a1.reg (add32 s.pc 4)) _ h in
    let (base, _, h2) = bind-eq-ok (reg t.rf i.a2.reg) _ h1 in
    rw (← ok-injective h2) (
      jump-IsExec (put-IsExec v e i.a1.reg (add32 s.pc 4) (omega arith) wrote) e
        (add32 base i.a3.imm) (omega arith))
execute-IsExec auipc i s v e h =
    put-IsExec v e i.a1.reg (add32 s.pc (shl32 i.a2.imm 12)) (omega arith) h
execute-IsExec lui i s v e h = put-IsExec v e i.a1.reg (shl32 i.a2.imm 12) (omega arith) h
execute-IsExec lb i s v e h = mem_read-IsExec v e lb h
execute-IsExec lbu i s v e h = mem_read-IsExec v e lbu h
execute-IsExec lh i s v e h = mem_read-IsExec v e lh h
execute-IsExec lhu i s v e h = mem_read-IsExec v e lhu h
execute-IsExec lw i s v e h = mem_read-IsExec v e lw h
execute-IsExec sb i s v e h = mem_write-IsExec v e sb h
execute-IsExec sh i s v e h = mem_write-IsExec v e sh h
execute-IsExec sw i s v e h = mem_write-IsExec v e sw h
execute-IsExec hcf i s v e h = rw (← ok-injective h) v
execute-IsExec unimpl i s v e h = rw (← ok-injective h) v
