-- ===== src/Cpu/Refines.antt =====
-- The switch of `CPU::processInstr` against RV32I.
use Prim.Native.Nat.{◌-◌, ◌*◌, ◌%◌, ◌^◌}
use aias_lab.Prelude.{
  ℕ, ◌<◌, ◌≡◌, refl, sym, ap, ◌∙◌, arith, Bool, ltb, bit_and, bit_or, bit_xor, not, leb, ◌==◌,
  get_or, set, length-set, get_or-set_ne,
}
use aias_lab.Prelude.Int.{pos, ◌+ℤ◌}
use aias_lab.Prelude.Word.{add32, sub32, slt32, shl32, shr32, sar32}
use aias_lab.Instr.{
  InstrType, unimpl, add, addi, and, andi, auipc, beq, bge, bgeu, blt, bltu, bne, jal, jalr, lb,
  lbu, lh, lhu, lui, lw, or, ori, sb, sh, sll, slli, slt, slti, sltiu, sltu, sra, srai, srl, srli,
  sub, sw, xor, xori, hcf, Instr,
}
use aias_lab.Isa.{
  Arch, write, advance, jump_if, step, wrap, signed, to_signed, half_at, word_at, store,
}
use aias_lab.Cpu.Execute.{Exec, bool_word, execute}
use aias_lab.Cpu.Invariant.{IsInstr}
use aias_lab.Cpu.Arith.{wrap-add, wrap-sub, wrap-add_pos, wrap-floor_shift, not-ltb}
use aias_lab.Cpu.Access.{load_byte, load_half, load_word, store_byte, store_half, store_word}
use aias_lab.Cpu.View.{reg-ok, view, val, num, fields, target, IsLegal}
use aias_lab.Cpu.Shapes.{
  IsStart, Yields, Yields-subst, val-IsWord, nop-Yields, put-Yields, reg_reg-Yields, reg_imm-Yields,
  shift_reg-Yields, shift_imm-Yields, branch-Yields, jal-Yields, mem_read-Yields, mem_write-Yields,
}

-- The manual may write another expression for the same value.
value : (rd : ℕ) (a : Arch) {v w : ℕ} → v ≡ w → advance (write rd v a) ≡ advance (write rd w a)
value rd a e = ap (λ (v : ℕ). advance (write rd v a)) e

amount : (f : ℕ → ℕ → ℕ) (a n : ℕ) → n < 32 → f a n ≡ f a (n % 32)
amount f a n h = ap (f a) (omega arith)

-- The address of a load, a store or a JALR.
at :
    {size : ℕ} (s : Exec) (st : IsStart size s) (i : Instr)
    → IsInstr i
    → target i s ≡ wrap (signed (val s i.a2) +ℤ signed i.a3.imm)
at s st i e = sym (wrap-add (val s i.a2) i.a3.imm (val-IsWord s st i.a2) e.imm3)

linked :
    (rd to : ℕ) (s : Exec)
    → record (write rd (add32 s.pc 4) (view s)) { pc = to }
      ≡ record (write rd (wrap (pos s.pc +ℤ pos 4)) (view s)) { pc = to }
linked rd to s =
    ap (λ (v : ℕ). record (write rd v (view s)) { pc = to }) (sym (wrap-add_pos s.pc 4))

-- Every legal instruction, executed in a well-formed state, succeeds, and leaves the registers,
-- the memory and the program counter that RV32I prescribes.
pub execute-step :
    {size : ℕ} (op : InstrType) (i : Instr) (s : Exec)
    → IsStart size s
    → IsInstr i
    → IsLegal op i s
    → Yields (execute op i s) (step op (fields op i) (view s))
unfolding execute step
execute-step add i s st e h =
    Yields-subst
      (value (num i.a1) (view s)
        (sym (wrap-add (val s i.a2) (val s i.a3) (val-IsWord s st i.a2) (val-IsWord s st i.a3))))
      (reg_reg-Yields s st i add32 h.0 h.1 h.2)
execute-step sub i s st e h =
    Yields-subst
      (value (num i.a1) (view s)
        (sym (wrap-sub (val s i.a2) (val s i.a3) (val-IsWord s st i.a2) (val-IsWord s st i.a3))))
      (reg_reg-Yields s st i sub32 h.0 h.1 h.2)
execute-step slt i s st e h = reg_reg-Yields s st i (λ a b. bool_word (slt32 a b)) h.0 h.1 h.2
execute-step sltu i s st e h = absurd h
execute-step and i s st e h = reg_reg-Yields s st i bit_and h.0 h.1 h.2
execute-step or i s st e h = reg_reg-Yields s st i bit_or h.0 h.1 h.2
execute-step xor i s st e h = reg_reg-Yields s st i bit_xor h.0 h.1 h.2
execute-step sll i s st e h =
    Yields-subst (value (num i.a1) (view s) (amount shl32 (val s i.a2) (val s i.a3) h.1))
      (shift_reg-Yields s st i shl32 h.0.0 h.0.1 h.0.2 h.1)
execute-step srl i s st e h =
    Yields-subst (value (num i.a1) (view s) (amount shr32 (val s i.a2) (val s i.a3) h.1))
      (shift_reg-Yields s st i shr32 h.0.0 h.0.1 h.0.2 h.1)
execute-step sra i s st e h =
    Yields-subst
      (value (num i.a1) (view s) (
        amount sar32 (val s i.a2) (val s i.a3) h.1
        ∙ sym (wrap-floor_shift (val s i.a2) (val s i.a3 % 32) (val-IsWord s st i.a2))))
      (shift_reg-Yields s st i sar32 h.0.0 h.0.1 h.0.2 h.1)
execute-step addi i s st e h =
    Yields-subst
      (value (num i.a1) (view s)
        (sym (wrap-add (val s i.a2) i.a3.imm (val-IsWord s st i.a2) e.imm3)))
      (reg_imm-Yields s st i add32 h.0 h.1)
execute-step slti i s st e h = reg_imm-Yields s st i (λ a b. bool_word (slt32 a b)) h.0 h.1
execute-step sltiu i s st e h = reg_imm-Yields s st i (λ a b. bool_word (ltb a b)) h.0 h.1
execute-step andi i s st e h = reg_imm-Yields s st i bit_and h.0 h.1
execute-step ori i s st e h = reg_imm-Yields s st i bit_or h.0 h.1
execute-step xori i s st e h = reg_imm-Yields s st i bit_xor h.0 h.1
execute-step slli i s st e h =
    Yields-subst (value (num i.a1) (view s) (amount shl32 (val s i.a2) i.a3.imm h.1))
      (shift_imm-Yields s st i shl32 h.0.0 h.0.1 h.1)
execute-step srli i s st e h =
    Yields-subst (value (num i.a1) (view s) (amount shr32 (val s i.a2) i.a3.imm h.1))
      (shift_imm-Yields s st i shr32 h.0.0 h.0.1 h.1)
execute-step srai i s st e h =
    Yields-subst
      (value (num i.a1) (view s) (
        amount sar32 (val s i.a2) i.a3.imm h.1
        ∙ sym (wrap-floor_shift (val s i.a2) (i.a3.imm % 32) (val-IsWord s st i.a2))))
      (shift_imm-Yields s st i sar32 h.0.0 h.0.1 h.1)
execute-step beq i s st e h = branch-Yields s st i ◌==◌ h.0 h.1
execute-step bge i s st e h = branch-Yields s st i (λ a b. not (slt32 a b)) h.0 h.1
execute-step blt i s st e h = branch-Yields s st i slt32 h.0 h.1
execute-step bltu i s st e h = branch-Yields s st i ltb h.0 h.1
execute-step bne i s st e h = branch-Yields s st i (λ a b. not (a == b)) h.0 h.1
execute-step bgeu i s st e h =
    Yields-subst
      (ap (λ (b : Bool). jump_if b i.a3.imm (view s)) (sym (not-ltb (val s i.a1) (val s i.a2))))
      (branch-Yields s st i (λ a b. leb b a) h.0 h.1)
execute-step jal i s st e h =
    Yields-subst (linked (num i.a1) i.a2.imm s) (jal-Yields s st i _ i.a2.imm h refl)
execute-step jalr i s st e h =
    let to = target i s in
    let even : to ≡ to - to % 2 = omega (arith, h.3) in
    Yields-subst
      (linked (num i.a1) to s
        ∙ ap (λ (t : ℕ). record (write (num i.a1) (wrap (pos s.pc +ℤ pos 4)) (view s)) { pc = t })
            (even ∙ ap (λ (t : ℕ). t - t % 2) (at s st i e)))
      (jal-Yields s st i _ to h.0 (
        rw
          (reg-ok (set s.rf (num i.a1) (add32 s.pc 4)) i.a2 h.1
            (length-set s.rf (num i.a1) (add32 s.pc 4) ∙ st.exec.registers))
          (rw (get_or-set_ne s.rf (num i.a1) (num i.a2) (add32 s.pc 4) 0 h.2))))
execute-step auipc i s st e h =
    Yields-subst (value (num i.a1) (view s) (omega (arith, wrap-add_pos s.pc (i.a2.imm * 2 ^ 12))))
      (put-Yields s st i.a1 (add32 s.pc (shl32 i.a2.imm 12)) h)
execute-step lui i s st e h = put-Yields s st i.a1 (shl32 i.a2.imm 12) h
execute-step lb i s st e h =
    let got = load_byte s.mem st.exec.memory.bytes (target i s) h.1 in
    Yields-subst
      (ap (λ (a : ℕ). advance (write (num i.a1) (wrap (to_signed 8 (get_or s.mem a 0))) (view s)))
        (at s st i e))
      (mem_read-Yields s st i lb _ h.0.0 h.0.1 got.0)
execute-step lbu i s st e h =
    let got = load_byte s.mem st.exec.memory.bytes (target i s) h.1 in
    Yields-subst
      (ap (λ (a : ℕ). advance (write (num i.a1) (get_or s.mem a 0) (view s))) (at s st i e))
      (mem_read-Yields s st i lbu _ h.0.0 h.0.1 got.1)
execute-step lh i s st e h =
    let got = load_half s.mem st.exec.memory.bytes (target i s) h.1 in
    Yields-subst
      (ap
        (λ (a : ℕ). advance (write (num i.a1) (wrap (to_signed 16 (half_at (view s) a))) (view s)))
        (at s st i e))
      (mem_read-Yields s st i lh _ h.0.0 h.0.1 got.0)
execute-step lhu i s st e h =
    let got = load_half s.mem st.exec.memory.bytes (target i s) h.1 in
    Yields-subst
      (ap (λ (a : ℕ). advance (write (num i.a1) (half_at (view s) a) (view s))) (at s st i e))
      (mem_read-Yields s st i lhu _ h.0.0 h.0.1 got.1)
execute-step lw i s st e h =
    let got = load_word s.mem st.exec.memory.bytes (target i s) h.1 in
    Yields-subst
      (ap (λ (a : ℕ). advance (write (num i.a1) (word_at (view s) a) (view s))) (at s st i e))
      (mem_read-Yields s st i lw _ h.0.0 h.0.1 got)
execute-step sb i s st e h =
    let (mem', done, same) = store_byte s.mem (target i s) (val s i.a1) h.2 in
    Yields-subst (ap (λ (a : ℕ). advance (store 1 a (val s i.a1) (view s))) (at s st i e))
      (mem_write-Yields s st i sb mem' _ h.0 h.1 done same)
execute-step sh i s st e h =
    let (mem', done, same) = store_half s.mem (target i s) (val s i.a1) h.2 in
    Yields-subst (ap (λ (a : ℕ). advance (store 2 a (val s i.a1) (view s))) (at s st i e))
      (mem_write-Yields s st i sh mem' _ h.0 h.1 done same)
execute-step sw i s st e h =
    let (mem', done, same) = store_word s.mem (target i s) (val s i.a1) h.2 in
    Yields-subst (ap (λ (a : ℕ). advance (store 4 a (val s i.a1) (view s))) (at s st i e))
      (mem_write-Yields s st i sw mem' _ h.0 h.1 done same)
execute-step hcf i s st e h = nop-Yields s st
execute-step unimpl i s st e h = nop-Yields s st
