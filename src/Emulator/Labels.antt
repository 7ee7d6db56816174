-- ===== src/Emulator/Labels.antt =====
-- `Emulator::label_addr` and `Emulator::normalize_labels`.
use aias_lab.Prelude.{
  ℕ, suc, ◌+◌, ◌-◌, ◌*◌, ◌/◌, ◌^◌, Bool, true, false, none, some, List, [], ◌∷◌, ltb, if◌then◌else◌,
  length, bit_and,
}
use aias_lab.Prelude.Result.{undefined, exit, Result, ok, err, guard, ◌>>=◌, ◌>>◌}
use aias_lab.Prelude.Int.{ℤ, pos, negsuc, ◌-ℤ◌}
use aias_lab.Prelude.Word.{signed32}
use aias_lab.Instr.{
  InstrType, unimpl, lui, addi, jal, beq, bge, bgeu, blt, bltu, bne, OperandType, optype_label,
  optype_imm, max_label_len, Operand, Instr,
}
use aias_lab.Emulator.Text.{codes, streq, Reporter}
use aias_lab.Emulator.Source.{Source, format_reg, format_hex, append_source}

-- `label_loc`; `loc` is the offset at which the label stands.
pub record LabelLoc : Type 0 where
  pub label : List ℕ
  pub loc : ℕ

-- `label_addr`: -1 for an undefined label, if the report returns. A label that fills its array has
-- no NUL, and comparing it runs out of the array.
unfoldable pub label_addr : Reporter → List ℕ → List LabelLoc → ℤ → Result ℕ
unfolding streq
label_addr report label [] line = report line >>= λ _. ok (2 ^ 32 - 1)
label_addr report label (l ∷ labels) line =
    if ltb (length label) max_label_len
    then if streq l.label label then ok l.loc else label_addr report label labels line
    else err undefined

abbrev pub is_label : OperandType → Bool
is_label optype_label = true
is_label _ = false

-- `diff` of a jump at `pc` and its absolute value, which must stay an int.
abbrev pub distance : ℕ → ℕ → Result ℕ
distance pc target = elim (pos pc -ℤ signed32 target) [
  | pos d ↦ if ltb d (2 ^ 31) then ok d else err undefined
  | negsuc d ↦ ok (suc d)
]

abbrev pub in_reach : ℕ → ℕ → ℕ → Result (Unit {0})
in_reach limit pc target = do diff ← distance pc target; guard (ltb diff limit) (exit 3)

module _ (report : Reporter) (max_src_len : ℕ) (labels : List LabelLoc) where
  -- An operand that was a label becomes its address.
  abbrev pub resolve : Operand → ℤ → Result Operand
  resolve o line = do
    addr ← label_addr report o.label labels line
    ok (record o { type = optype_imm; imm = addr })

  -- The switch behind the second operand, at index `n`; its range check of JAL reads `a3`.
  unfoldable pub after_second : InstrType → ℕ → Instr → Source → Result (Source × Instr)
  after_second lui n i s = do
    let i' = record i { a2 = record i.a2 { imm = i.a2.imm / 2 ^ 12 } }
    areg ← format_reg i.a1.reg
    append_source max_src_len (some (codes "lui")) (some areg) (some (format_hex i'.a2.imm)) none s
        i'
  after_second jal n i s = do in_reach (2 ^ 21) (n * 4) i.a3.imm; ok (s, i)
  after_second _ n i s = ok (s, i)

  -- The switch behind the third operand.
  unfoldable pub after_third : InstrType → ℕ → Instr → Source → Result (Source × Instr)
  after_third addi n i s = do
    let i' = record i { a3 = record i.a3 { imm = bit_and i.a3.imm (2 ^ 12 - 1) } }
    a1reg ← format_reg i.a1.reg
    a2reg ← format_reg i.a2.reg
    append_source max_src_len (some (codes "addi")) (some a1reg) (some a2reg)
        (some (format_hex i'.a3.imm)) s i'
  after_third beq n i s = in_reach (2 ^ 13) (n * 4) i.a3.imm >> ok (s, i)
  after_third bge n i s = in_reach (2 ^ 13) (n * 4) i.a3.imm >> ok (s, i)
  after_third bgeu n i s = in_reach (2 ^ 13) (n * 4) i.a3.imm >> ok (s, i)
  after_third blt n i s = in_reach (2 ^ 13) (n * 4) i.a3.imm >> ok (s, i)
  after_third bltu n i s = in_reach (2 ^ 13) (n * 4) i.a3.imm >> ok (s, i)
  after_third bne n i s = in_reach (2 ^ 13) (n * 4) i.a3.imm >> ok (s, i)
  after_third _ n i s = ok (s, i)

  unfoldable pub first_operand : Instr → Result Instr
  first_operand i =
      if is_label i.a1.type
      then (do a ← resolve i.a1 i.orig_line; ok (record i { a1 = a }))
      else ok i

  unfoldable pub second_operand : ℕ → Instr → Source → Result (Source × Instr)
  second_operand n i s =
      if is_label i.a2.type
      then (do a ← resolve i.a2 i.orig_line; after_second i.op n (record i { a2 = a }) s)
      else ok (s, i)

  unfoldable pub third_operand : ℕ → Instr → Source → Result (Source × Instr)
  third_operand n i s =
      if is_label i.a3.type
      then (do a ← resolve i.a3 i.orig_line; after_third i.op n (record i { a3 = a }) s)
      else ok (s, i)

  -- One round of the loop of `normalize_labels`, which skips UNIMPL.
  unfoldable pub operands : ℕ → Instr → Source → Result (Source × Instr)
  operands n i s = do i1 ← first_operand i; x ← second_operand n i1 s; third_operand n x.1 x.0

  unfoldable pub normalize_instr : InstrType → ℕ → Instr → Source → Result (Source × Instr)
  normalize_instr unimpl n i s = ok (s, i)
  normalize_instr _ n i s = operands n i s

  -- The loop, over the rest of the instruction memory from index `n`.
  unfoldable pub normalize_labels : ℕ → List Instr → Source → Result (Source × List Instr)
  normalize_labels n [] s = ok (s, [])
  normalize_labels n (i ∷ imem) s = do
    x ← normalize_instr i.op n i s
    y ← normalize_labels (n + 1) imem x.0
    ok (y.0, x.1 ∷ y.1)
