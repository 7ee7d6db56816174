-- ===== src/Emulator/Address.antt =====
-- The two instructions of `la`, from `parse_pseudoinstructions` through `normalize_labels` to the
-- CPU.
use aias_lab.Prelude.{
  ℕ, ◌+◌, ◌-◌, ◌/◌, ◌^◌, ◌<◌, ◌≡◌, refl, false, none, some, List, length, set, bit_and,
}
use aias_lab.Prelude.Result.{Result, ok, ◌>>=◌}
use aias_lab.Prelude.Int.{pos}
use aias_lab.Prelude.Word.{IsWord}
use aias_lab.Instr.{max_label_len, Instr}
use aias_lab.Cpu.Execute.{Exec, execute}
use aias_lab.Emulator.Text.{codes, Reporter}
use aias_lab.Emulator.Source.{
  Source, format_reg, format_hex, append_source, source_text, append_source-ok,
}
use aias_lab.Emulator.Code.{take, to_label, li_lui, li_addi, la_lui, la_addi}
use aias_lab.Emulator.Labels.{
  LabelLoc, label_addr, is_label, after_second, after_third, first_operand, second_operand,
  third_operand, operands,
}
use aias_lab.Emulator.Loads.{
  reg_text, reg_text_lem, lui_text, addi_text, lui_fits, addi_fits, source_of, li-loads,
}

module _ (report : Reporter) (max_src_len : ℕ) (labels : List LabelLoc) where
  second_operand-la_lui :
      (line n r addr : ℕ) (t : List ℕ) (i i' : Instr) (s s' : Source)
      → label_addr report (take max_label_len t) labels (pos line) ≡ ok addr
      → format_reg (pos r) ≡ ok (reg_text r)
      → append_source max_src_len
          (some (codes "lui"))
          (some (reg_text r))
          (some (format_hex (addr / 2 ^ 12)))
          none
          s
          (li_lui line (pos r) addr (record i { a2 = to_label t i.a2 }))
        ≡ ok (s', i')
      → second_operand report max_src_len labels n (la_lui line (pos r) t i) s ≡ ok (s', i')
  unfolding second_operand after_second
  second_operand-la_lui line n r addr t i i' s s' found reg_ok done =
      rw found (rw reg_ok (rw done refl))

  operands-la_lui :
      (line n r : ℕ) (t : List ℕ) (i i' : Instr) (s s' : Source)
      → second_operand report max_src_len labels n (la_lui line (pos r) t i) s ≡ ok (s', i')
      → is_label i'.a3.type ≡ false
      → operands report max_src_len labels n (la_lui line (pos r) t i) s ≡ ok (s', i')
  unfolding operands first_operand third_operand
  operands-la_lui line n r t i i' s s' second plain = rw second (rw plain refl)

  operands-la_addi :
      (line n r addr : ℕ) (t : List ℕ) (i i' : Instr) (s s' : Source)
      → label_addr report (take max_label_len t) labels (pos line) ≡ ok addr
      → format_reg (pos r) ≡ ok (reg_text r)
      → append_source max_src_len
          (some (codes "addi"))
          (some (reg_text r))
          (some (reg_text r))
          (some (format_hex (bit_and addr (2 ^ 12 - 1))))
          s
          (li_addi line (pos r) addr (record i { a3 = to_label t i.a3 }))
        ≡ ok (s', i')
      → operands report max_src_len labels n (la_addi line (pos r) t i) s ≡ ok (s', i')
  unfolding operands first_operand second_operand third_operand after_third
  operands-la_addi line n r addr t i i' s s' found reg_ok done = rw found (rw reg_ok (rw done refl))

  -- The instructions `i` and `j`, which `operands` makes of two others, load `addr` into the
  -- register `r` and change nothing else.
  pub record LoadsAddress (m : Source → Result (Source × Instr))
      (k : Source → Result (Source × Instr)) (s : Source) (r addr : ℕ) : Type 0 where
    pub first : Source × Instr
    pub second : Source × Instr
    pub first_runs : m s ≡ ok first
    pub second_runs : k first.0 ≡ ok second
    pub loads :
        (e : Exec)
        → length e.rf ≡ 32
        → (execute first.1.op first.1 e >>= λ t. execute second.1.op second.1 t)
          ≡ ok (record e { rf = set e.rf r addr })

  -- The two instructions that `la` writes for a register below 32 and a label with a word address
  -- are normalised without an error, when the third operand of the first entry is no label, and
  -- the results, executed one after the other, load the
  -- address into the register and change nothing else.
  pub operands-la :
      (line n r addr : ℕ) (t : List ℕ) (i j : Instr) (s : Source)
      → r < 32
      → IsWord addr
      → is_label i.a3.type ≡ false
      → label_addr report (take max_label_len t) labels (pos line) ≡ ok addr
      → LoadsAddress
          (operands report max_src_len labels n (la_lui line (pos r) t i))
          (operands report max_src_len labels (n + 1) (la_addi line (pos r) t j))
          s
          r
          addr
  unfolding source_text
  operands-la line n r addr t i j s lt w plain found =
      let i1 = record i { a2 = to_label t i.a2 } in
      let j1 = record j { a3 = to_label t j.a3 } in
      let (s1, p, done1) =
        append_source-ok max_src_len (some (codes "lui")) (some (reg_text r))
          (some (format_hex (addr / 2 ^ 12))) none s (li_lui line (pos r) addr i1)
          {text = lui_text r addr} refl (lui_fits r addr) in
      let (s2, q, done2) =
        append_source-ok max_src_len (some (codes "addi")) (some (reg_text r)) (some (reg_text r))
          (some (format_hex (bit_and addr (2 ^ 12 - 1)))) s1 (li_addi line (pos r) addr j1)
          {text = addi_text r addr} refl (addi_fits r addr) in
      let i2 = li_lui line (pos r) addr (source_of i1 p) in
      let j2 = li_addi line (pos r) addr (source_of j1 q) in
      record {
        first = (s1, i2);
        second = (s2, j2);
        first_runs =
            operands-la_lui line n r t i i2 s s1
              (second_operand-la_lui line n r addr t i i2 s s1 found (reg_text_lem r lt) done1)
              plain;
        second_runs =
            operands-la_addi line (n + 1) r addr t j j2 s1 s2 found (reg_text_lem r lt) done2;
        loads = λ e len. li-loads line r addr (source_of i1 p) (source_of j1 q) e lt w len;
      }
