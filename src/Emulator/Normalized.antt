-- ===== src/Emulator/Normalized.antt =====
-- `normalize_labels`, as changes of the instruction memory and the source buffer.
use aias_lab.Prelude.{
  ℕ, suc, ◌+◌, ◌-◌, ◌*◌, ◌/◌, ◌^◌, ◌≤◌, ◌≡◌, refl, ap, Option, none, some, List, [], ◌∷◌, arith,
  ltb, length, All, bit_and,
}
use aias_lab.Prelude.Bits.{bit_and_mask}
use aias_lab.Prelude.Result.{Result, ok, undefined, ◌>>◌}
use aias_lab.Prelude.Ensures.{
  Ensures, Ensures-ok, Ensures-err, Ensures-if, Ensures-bind, Ensures-after,
}
use aias_lab.Prelude.Int.{ℤ}
use aias_lab.Prelude.Word.{IsWord}
use aias_lab.Instr.{
  InstrType, unimpl, addi, beq, bge, bgeu, blt, bltu, bne, jal, lui, max_label_len, optype_imm,
  Operand, Instr,
}
use aias_lab.Cpu.Invariant.{IsInstr}
use aias_lab.Emulator.Text.{codes, streq, Reporter}
use aias_lab.Emulator.Source.{Source, format_reg, format_hex, append_source}
use aias_lab.Emulator.Labels.{
  LabelLoc, label_addr, is_label, resolve, in_reach, after_second, after_third, first_operand,
  second_operand, third_operand, operands, normalize_instr, normalize_labels,
}
use aias_lab.Emulator.Encoded.{append_source-IsAppended}
use aias_lab.Emulator.Parsed.{IsLabel}

-- A word instruction and a source buffer that is not exceeded.
record IsWritten (max_src_len : ℕ) (x : Source × Instr) : Type 0 where
  words : IsInstr x.1
  within : x.0.offset ≤ max_src_len

-- The program behind `normalize_labels`, of `n` instructions.
pub record IsProgram (max_src_len n : ℕ) (x : Source × List Instr) : Type 0 where
  pub sized : length x.1 ≡ n
  pub words : All IsInstr x.1
  pub within : x.0.offset ≤ max_src_len

label_addr-IsWord :
    (report : Reporter) (label : List ℕ) (size : ℕ) (labels : List LabelLoc) (line : ℤ)
    → IsWord size
    → All (IsLabel size) labels
    → Ensures IsWord (label_addr report label labels line)
unfolding label_addr
label_addr-IsWord report label size [] line w a =
    Ensures-after (report line) _ (λ _ _. Ensures-ok (2 ^ 32 - 1) (omega arith))
label_addr-IsWord report label size (l ∷ labels) line w a =
    Ensures-if (ltb (length label) max_label_len) _ _
      (λ _.
        Ensures-if (streq l.label label) _ _ (λ _. Ensures-ok l.loc (omega (arith, a.0.placed)))
          (λ _. label_addr-IsWord report label size labels line w a.1))
      (λ _. Ensures-err undefined)

module _ (report : Reporter) (max_src_len : ℕ) (labels : List LabelLoc) {size : ℕ}
    (small : IsWord size) (table : All (IsLabel size) labels) where
  resolve-IsWord :
      (o : Operand) (line : ℤ)
      → Ensures (λ (a : Operand). IsWord a.imm) (resolve report max_src_len labels o line)
  resolve-IsWord o line =
      Ensures-bind (label_addr report o.label labels line) _
        (label_addr-IsWord report o.label size labels line small table)
        (λ addr w. Ensures-ok (record o { type = optype_imm; imm = addr }) w)

  -- A range check keeps what it is given.
  checked :
      (m : Result (Unit {0})) {s : Source} {i : Instr}
      → IsWritten max_src_len (s, i)
      → Ensures (IsWritten max_src_len) (m >> ok (s, i))
  checked m {s} {i} w = Ensures-after m _ (λ _ _. Ensures-ok (s, i) w)

  kept :
      {s : Source} {i : Instr}
      → IsInstr i
      → s.offset ≤ max_src_len
      → Ensures (IsWritten max_src_len) (ok (s, i))
  kept {s} {i} w le = Ensures-ok (s, i) (record { words = w; within = le })

  -- The range check of a branch.
  near :
      (n : ℕ) (s : Source) (i : Instr)
      → IsInstr i
      → s.offset ≤ max_src_len
      → Ensures (IsWritten max_src_len) (in_reach (2 ^ 13) (n * 4) i.a3.imm >> ok (s, i))
  near n s i w le = checked (in_reach (2 ^ 13) (n * 4) i.a3.imm) (record { words = w; within = le })

  rewritten :
      (op a1 a2 a3 : Option (List ℕ)) (s : Source) (i : Instr)
      → IsInstr i
      → s.offset ≤ max_src_len
      → Ensures (IsWritten max_src_len) (append_source max_src_len op a1 a2 a3 s i)
  rewritten op a1 a2 a3 s i w le = record {
    at = λ x e.
        let a = (append_source-IsAppended max_src_len op a1 a2 a3 s i w le).at x e in
        record { words = a.words; within = a.within };
  }

  after_second-IsWritten :
      (op : InstrType) (n : ℕ) (i : Instr) (s : Source)
      → IsInstr i
      → s.offset ≤ max_src_len
      → Ensures (IsWritten max_src_len) (after_second report max_src_len labels op n i s)
  unfolding after_second
  after_second-IsWritten lui n i s w le = Ensures-after (format_reg i.a1.reg) _ (λ areg _.
      rewritten (some (codes "lui")) (some areg) (some (format_hex (i.a2.imm / 2 ^ 12))) none s
        (record i { a2 = record i.a2 { imm = i.a2.imm / 2 ^ 12 } })
        (record { imm2 = omega (arith, w.imm2); imm3 = w.imm3 }) le)
  after_second-IsWritten jal n i s w le =
      checked (in_reach (2 ^ 21) (n * 4) i.a3.imm) (record { words = w; within = le })
  after_second-IsWritten _ n i s w le = kept w le

  after_third-IsWritten :
      (op : InstrType) (n : ℕ) (i : Instr) (s : Source)
      → IsInstr i
      → s.offset ≤ max_src_len
      → Ensures (IsWritten max_src_len) (after_third report max_src_len labels op n i s)
  unfolding after_third
  after_third-IsWritten addi n i s w le = Ensures-after (format_reg i.a1.reg) _ (λ r1 _.
      Ensures-after (format_reg i.a2.reg) _ (λ r2 _.
        rewritten (some (codes "addi")) (some r1) (some r2)
          (some (format_hex (bit_and i.a3.imm (2 ^ 12 - 1)))) s
          (record i { a3 = record i.a3 { imm = bit_and i.a3.imm (2 ^ 12 - 1) } })
          (record { imm2 = w.imm2; imm3 = omega (arith, bit_and_mask 12 i.a3.imm) }) le))
  after_third-IsWritten beq n i s w le = near n s i w le
  after_third-IsWritten bge n i s w le = near n s i w le
  after_third-IsWritten bgeu n i s w le = near n s i w le
  after_third-IsWritten blt n i s w le = near n s i w le
  after_third-IsWritten bltu n i s w le = near n s i w le
  after_third-IsWritten bne n i s w le = near n s i w le
  after_third-IsWritten _ n i s w le = kept w le

  second_operand-IsWritten :
      (n : ℕ) (i : Instr) (s : Source)
      → IsInstr i
      → s.offset ≤ max_src_len
      → Ensures (IsWritten max_src_len) (second_operand report max_src_len labels n i s)
  unfolding second_operand
  second_operand-IsWritten n i s w le =
      Ensures-if (is_label i.a2.type) _ _
        (λ _.
          Ensures-bind (resolve report max_src_len labels i.a2 i.orig_line) _
            (resolve-IsWord i.a2 i.orig_line)
            (λ a lt.
              after_second-IsWritten i.op n (record i { a2 = a }) s
                (record { imm2 = lt; imm3 = w.imm3 }) le))
        (λ _. kept w le)

  third_operand-IsWritten :
      (n : ℕ) (i : Instr) (s : Source)
      → IsInstr i
      → s.offset ≤ max_src_len
      → Ensures (IsWritten max_src_len) (third_operand report max_src_len labels n i s)
  unfolding third_operand
  third_operand-IsWritten n i s w le =
      Ensures-if (is_label i.a3.type) _ _
        (λ _.
          Ensures-bind (resolve report max_src_len labels i.a3 i.orig_line) _
            (resolve-IsWord i.a3 i.orig_line)
            (λ a lt.
              after_third-IsWritten i.op n (record i { a3 = a }) s
                (record { imm2 = w.imm2; imm3 = lt }) le))
        (λ _. kept w le)

  first_operand-IsInstr :
      (i : Instr) → IsInstr i → Ensures IsInstr (first_operand report max_src_len labels i)
  unfolding first_operand
  first_operand-IsInstr i w =
      Ensures-if (is_label i.a1.type) _ _
        (λ _.
          Ensures-after (resolve report max_src_len labels i.a1 i.orig_line) _
            (λ _ _. Ensures-ok _ (record { imm2 = w.imm2; imm3 = w.imm3 })))
        (λ _. Ensures-ok i w)

  operands-IsWritten :
      (n : ℕ) (i : Instr) (s : Source)
      → IsInstr i
      → s.offset ≤ max_src_len
      → Ensures (IsWritten max_src_len) (operands report max_src_len labels n i s)
  unfolding operands
  operands-IsWritten n i s w le =
      Ensures-bind (first_operand report max_src_len labels i) _ (first_operand-IsInstr i w)
        (λ i1 w1.
          Ensures-bind (second_operand report max_src_len labels n i1 s) _
            (second_operand-IsWritten n i1 s w1 le)
            (λ x h. third_operand-IsWritten n x.1 x.0 h.words h.within))

  normalize_instr-IsWritten :
      (op : InstrType) (n : ℕ) (i : Instr) (s : Source)
      → IsInstr i
      → s.offset ≤ max_src_len
      → Ensures (IsWritten max_src_len) (normalize_instr report max_src_len labels op n i s)
  unfolding normalize_instr
  normalize_instr-IsWritten unimpl n i s w le = kept w le
  normalize_instr-IsWritten _ n i s w le = operands-IsWritten n i s w le

  -- With labels at offsets of a memory that a word addresses, `normalize_labels`, when it succeeds,
  -- keeps the number of instructions, their immediates words, and the source buffer's bound.
  pub normalize_labels-IsProgram :
      (n : ℕ) (imem : List Instr) (s : Source)
      → All IsInstr imem
      → s.offset ≤ max_src_len
      → Ensures
          (IsProgram max_src_len (length imem))
          (normalize_labels report max_src_len labels n imem s)
  unfolding normalize_labels
  normalize_labels-IsProgram n [] s a le =
      Ensures-ok (s, []) (record { sized = refl; words = tt; within = le })
  normalize_labels-IsProgram n (i ∷ imem) s a le =
      Ensures-bind (normalize_instr report max_src_len labels i.op n i s) _
        (normalize_instr-IsWritten i.op n i s a.0 le)
        (λ x h.
          Ensures-bind (normalize_labels report max_src_len labels (n + 1) imem x.0) _
            (normalize_labels-IsProgram (n + 1) imem x.0 a.1 h.within)
            (λ y p.
              Ensures-ok (y.0, x.1 ∷ y.1)
                (record { sized = ap suc p.sized; words = (h.words, p.words); within = p.within })))
