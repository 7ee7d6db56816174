-- ===== src/Cpu/Deviations.antt =====
-- Where the switch of `CPU::processInstr` leaves RV32I, each for the whole class of states that
-- show it.
use aias_lab.Prelude.{
  ℕ, ◌≡◌, refl, sym, ap, ◌≢◌, ◌∙◌, arith, ltb, length, get_or, set, length-set, get_or-set_self,
}
use aias_lab.Prelude.Result.{Result, ok, ok-injective}
use aias_lab.Prelude.Int.{pos}
use aias_lab.Prelude.Word.{add32}
use aias_lab.Instr.{sltu, jal, jalr, Instr}
use aias_lab.Isa.{Arch, step, write}
use aias_lab.Cpu.Execute.{Exec, bool_word, execute}
use aias_lab.Cpu.Shapes.{IsStart, Yields, reg_reg-Yields}
use aias_lab.Cpu.View.{view, view_next, val, num, fields, IsReg, IsDest, reg-ok, put-ok}

-- Two outcomes of one run that differ in a register.
differ_at : {m : Result Exec} {a b : Arch} (r : ℕ) → Yields m a → a.regs r ≢ b.regs r → ¬ Yields m b
differ_at r y ne z =
    let same = ok-injective (sym y.runs ∙ z.runs) in
    ne (ap (λ (t : Arch). t.regs r) (sym y.agrees ∙ ap view_next same ∙ z.agrees))

regs-write : (rd v : ℕ) (a : Arch) → rd ≢ 0 → (write rd v a).regs rd ≡ v
regs-write rd v a ne = ground arith

-- SLTU leaves the sum of its sources in the destination, so it is not the manual's SLTU wherever
-- that sum differs from the comparison.
pub not-sltu-step :
    {size : ℕ} (i : Instr) (s : Exec)
    → IsStart size s
    → IsDest i.a1
    → IsReg i.a2
    → IsReg i.a3
    → add32 (val s i.a2) (val s i.a3) ≢ bool_word (ltb (val s i.a2) (val s i.a3))
    → ¬ Yields (execute sltu i s) (step sltu (fields sltu i) (view s))
unfolding execute step
not-sltu-step i s st d x y ne = differ_at (num i.a1) (reg_reg-Yields s st i add32 d x y) (λ e.
    ne (
      sym (regs-write (num i.a1) _ (view s) d.ne_x0)
      ∙ e
      ∙ regs-write (num i.a1) _ (view s) d.ne_x0))

-- A JAL whose destination is x0, as the assembler makes of `j`, stores the return address there:
-- the zero register no longer reads zero.
pub jal-x0 :
    {size : ℕ} (i : Instr) (s : Exec)
    → IsStart size s
    → i.a1.reg ≡ pos 0
    → (next : Exec) × (execute jal i s ≡ ok next)
      × (get_or next.rf 0 0 ≡ add32 s.pc 4)
      × (next.pc_next ≡ i.a2.imm)
unfolding execute
jal-x0 i s st zero_reg =
    let is_reg : IsReg i.a1 = record { nonneg = rw zero_reg; below = rw zero_reg (omega arith) } in
    let v = add32 s.pc 4 in
    (
      record s { rf = set s.rf (num i.a1) v; pc_next = i.a2.imm },
      rw (put-ok s i.a1 v is_reg st.exec.registers),
      rw zero_reg (get_or-set_self s.rf 0 v 0 (omega (arith, st.exec.registers))),
      refl,
    )

-- A JALR whose base is its destination jumps relative to its own return address.
pub jalr_same :
    {size : ℕ} (i : Instr) (s : Exec)
    → IsStart size s
    → IsReg i.a1
    → i.a2.reg ≡ i.a1.reg
    → (next : Exec) × (execute jalr i s ≡ ok next) × (next.pc_next ≡ add32 (add32 s.pc 4) i.a3.imm)
unfolding execute
jalr_same i s st d same =
    let v = add32 s.pc 4 in
    let rf' = set s.rf (num i.a1) v in
    let sized : length rf' ≡ 32 = length-set s.rf (num i.a1) v ∙ st.exec.registers in
    (
      record s { rf = rf'; pc_next = add32 v i.a3.imm },
      rw (put-ok s i.a1 v d st.exec.registers) (
          rw same (
            rw (reg-ok rf' i.a1 d sized)
              (rw (get_or-set_self s.rf (num i.a1) v 0 (omega (arith, st.exec.registers)))))),
      refl,
    )
