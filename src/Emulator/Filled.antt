-- ===== src/Emulator/Filled.antt =====
-- `Emulator::parse_instr`, as changes of the instruction memory.
use aias_lab.Prelude.{
  ℕ, ◌+◌, ◌/◌, ◌-◌, ◌^◌, ◌==◌, ◌∙◌, Bool, true, false, not, ◌||◌, ◌&&◌, some, List, [], ◌∷◌, arith,
  All-set, length-set, bit_and, bit_or, ltb, leb, if◌then◌else◌,
}
use aias_lab.Prelude.Bits.{bit_or-lt}
use aias_lab.Prelude.Result.{ok, exit, guard}
use aias_lab.Prelude.Ensures.{Ensures, Ensures-ok, Ensures-if, Ensures-bind, Ensures-after}
use aias_lab.Prelude.Int.{ℤ, pos, negsuc, ltb_ℤ}
use aias_lab.Prelude.Word.{IsWord}
use aias_lab.Instr.{
  InstrType, unimpl, add, addi, and, andi, auipc, beq, bge, bgeu, blt, bltu, bne, jal, jalr, lb,
  lbu, lh, lhu, lui, lw, or, ori, sb, sh, sll, slli, slt, slti, sltiu, sltu, sra, srai, srl, srli,
  sub, sw, xor, xori, hcf, Instr,
}
use aias_lab.Cpu.Invariant.{IsInstr}
use aias_lab.Emulator.Text.{Reporter}
use aias_lab.Emulator.Tokens.{strtok, token, rest_of}
use aias_lab.Emulator.Opcode.{parse_op}
use aias_lab.Emulator.Numbers.{strtol, low_word, starts_number, parse_imm, signextend}
use aias_lab.Emulator.Registers.{parse_reg}
use aias_lab.Emulator.Source.{append_source}
use aias_lab.Emulator.Pseudo.{parse_pseudoinstructions}
use aias_lab.Emulator.Code.{Code, text_of, entry, is_null}
use aias_lab.Emulator.Operands.{
  Operands, split_operands, parse_mem, register, format, given, three, two, fill_jal,
  fill_registers, fill_mem, fill_immediate, fill_branch, fill_upper, fill, parse_plain, parse_instr,
}
use aias_lab.Emulator.Encoded.{IsCode, entry-IsInstr, low_word-IsWord, append_source-IsAppended}
use aias_lab.Emulator.Expanded.{parse_pseudoinstructions-IsCode}

signextend-IsWord : (v : ℕ) → IsWord v → IsWord (signextend v 12)
unfolding signextend
signextend-IsWord v lt = either (bit_and v (2 ^ (12 - 1)) == 0)
  where
    either : (b : Bool) → IsWord (if b then v else bit_or (2 ^ 32 - 2 ^ 12) v)
    either true = lt
    either false = bit_or-lt 32 (2 ^ 32 - 2 ^ 12) v (omega arith) lt

module _ (report : Reporter) (line : ℕ) where
  parse_imm-IsWord :
      (tok : List ℕ) (bits : ℕ) → Ensures IsWord (parse_imm report tok bits line true)
  unfolding parse_imm
  parse_imm-IsWord tok bits =
      Ensures-after (if not (starts_number tok) && true then report (pos line) else ok tt) _ (λ _ _.
        Ensures-after
          (guard
            (not (
              ltb_ℤ (pos (2 ^ bits - 1)) (strtol tok).0
              || ltb_ℤ (strtol tok).0 (negsuc (2 ^ (bits - 1) - 1))))
            (exit 1))
          _ (λ _ _. Ensures-ok (low_word (strtol tok).0) (low_word-IsWord (strtol tok).0)))

  parse_mem-IsWord :
      (tok : List ℕ) (bits : ℕ)
      → Ensures (λ (x : ℤ × ℕ). IsWord x.1) (parse_mem report line tok bits)
  unfolding parse_mem
  parse_mem-IsWord tok bits =
      let imms = strtok (40 ∷ []) tok in
      let regs = strtok (41 ∷ []) (rest_of imms) in
      Ensures-after (text_of (token imms)) _ (λ t1 _.
        Ensures-bind (parse_imm report t1 bits line true) _ (parse_imm-IsWord t1 bits) (λ v w.
          Ensures-after (text_of (token regs)) _
            (λ t2 _. Ensures-after (parse_reg report t2 line true) _ (λ r _. Ensures-ok (r, v) w))))

  fill_jal-IsInstr :
      (o : Operands) (i : Instr) → IsInstr i → Ensures IsInstr (fill_jal report line o i)
  unfolding fill_jal
  fill_jal-IsInstr o i w =
      Ensures-if (given report line o.o2) _ _
        (λ _. Ensures-after (format report line (two report line o)) _ (λ _ _.
          Ensures-after (register report line o.o1) _ (λ _ _.
            Ensures-after (text_of o.o2) _
              (λ _ _. Ensures-ok _ (record { imm2 = w.imm2; imm3 = w.imm3 })))))
        (λ _.
          Ensures-after
            (format report line
              (given report line o.o1 && is_null o.o2 && is_null o.o3 && is_null o.o4))
            _
            (λ _ _.
              Ensures-after (text_of o.o1) _
                (λ _ _. Ensures-ok _ (record { imm2 = w.imm2; imm3 = w.imm3 }))))

  fill_registers-IsInstr :
      (o : Operands) (i : Instr) → IsInstr i → Ensures IsInstr (fill_registers report line o i)
  unfolding fill_registers
  fill_registers-IsInstr o i w = Ensures-after (format report line (three report line o)) _ (λ _ _.
      Ensures-after (register report line o.o1) _ (λ _ _.
        Ensures-after (register report line o.o2) _ (λ _ _.
          Ensures-after (register report line o.o3) _
            (λ _ _. Ensures-ok _ (record { imm2 = w.imm2; imm3 = w.imm3 })))))

  fill_mem-IsInstr :
      (o : Operands) (i : Instr) → IsInstr i → Ensures IsInstr (fill_mem report line o i)
  unfolding fill_mem
  fill_mem-IsInstr o i w = Ensures-after (format report line (two report line o)) _ (λ _ _.
      Ensures-after (register report line o.o1) _ (λ _ _. Ensures-after (text_of o.o2) _ (λ t _.
        Ensures-bind (parse_mem report line t 12) _ (parse_mem-IsWord t 12)
          (λ x lt. Ensures-ok _ (record { imm2 = w.imm2; imm3 = lt })))))

  fill_immediate-IsInstr :
      (o : Operands) (i : Instr) → IsInstr i → Ensures IsInstr (fill_immediate report line o i)
  unfolding fill_immediate
  fill_immediate-IsInstr o i w = Ensures-after (format report line (three report line o)) _ (λ _ _.
      Ensures-after (register report line o.o1) _ (λ _ _.
        Ensures-after (register report line o.o2) _ (λ _ _. Ensures-after (text_of o.o3) _ (λ t _.
          Ensures-bind (parse_imm report t 12 line true) _ (parse_imm-IsWord t 12)
            (λ v lt. Ensures-ok _ (record { imm2 = w.imm2; imm3 = signextend-IsWord v lt }))))))

  fill_branch-IsInstr :
      (o : Operands) (i : Instr) → IsInstr i → Ensures IsInstr (fill_branch report line o i)
  unfolding fill_branch
  fill_branch-IsInstr o i w = Ensures-after (format report line (three report line o)) _ (λ _ _.
      Ensures-after (register report line o.o1) _ (λ _ _.
        Ensures-after (register report line o.o2) _ (λ _ _.
          Ensures-after (text_of o.o3) _
            (λ _ _. Ensures-ok _ (record { imm2 = w.imm2; imm3 = w.imm3 })))))

  fill_upper-IsInstr :
      (o : Operands) (i : Instr) → IsInstr i → Ensures IsInstr (fill_upper report line o i)
  unfolding fill_upper
  fill_upper-IsInstr o i w = Ensures-after (format report line (two report line o)) _ (λ _ _.
      Ensures-after (register report line o.o1) _ (λ _ _. Ensures-after (text_of o.o2) _ (λ t _.
        Ensures-bind (parse_imm report t 20 line true) _ (parse_imm-IsWord t 20)
          (λ v lt. Ensures-ok _ (record { imm2 = lt; imm3 = w.imm3 })))))

  fill-IsInstr :
      (op : InstrType) (o : Operands) (i : Instr)
      → IsInstr i
      → Ensures IsInstr (fill report line op o i)
  unfolding fill
  fill-IsInstr unimpl o i w = Ensures-ok i w
  fill-IsInstr hcf o i w = Ensures-ok i w
  fill-IsInstr jal o i w = fill_jal-IsInstr o i w
  fill-IsInstr add o i w = fill_registers-IsInstr o i w
  fill-IsInstr sub o i w = fill_registers-IsInstr o i w
  fill-IsInstr slt o i w = fill_registers-IsInstr o i w
  fill-IsInstr sltu o i w = fill_registers-IsInstr o i w
  fill-IsInstr and o i w = fill_registers-IsInstr o i w
  fill-IsInstr or o i w = fill_registers-IsInstr o i w
  fill-IsInstr xor o i w = fill_registers-IsInstr o i w
  fill-IsInstr sll o i w = fill_registers-IsInstr o i w
  fill-IsInstr srl o i w = fill_registers-IsInstr o i w
  fill-IsInstr sra o i w = fill_registers-IsInstr o i w
  fill-IsInstr jalr o i w = fill_mem-IsInstr o i w
  fill-IsInstr lb o i w = fill_mem-IsInstr o i w
  fill-IsInstr lbu o i w = fill_mem-IsInstr o i w
  fill-IsInstr lh o i w = fill_mem-IsInstr o i w
  fill-IsInstr lhu o i w = fill_mem-IsInstr o i w
  fill-IsInstr lw o i w = fill_mem-IsInstr o i w
  fill-IsInstr sb o i w = fill_mem-IsInstr o i w
  fill-IsInstr sh o i w = fill_mem-IsInstr o i w
  fill-IsInstr sw o i w = fill_mem-IsInstr o i w
  fill-IsInstr addi o i w = fill_immediate-IsInstr o i w
  fill-IsInstr slti o i w = fill_immediate-IsInstr o i w
  fill-IsInstr sltiu o i w = fill_immediate-IsInstr o i w
  fill-IsInstr andi o i w = fill_immediate-IsInstr o i w
  fill-IsInstr ori o i w = fill_immediate-IsInstr o i w
  fill-IsInstr xori o i w = fill_immediate-IsInstr o i w
  fill-IsInstr slli o i w = fill_immediate-IsInstr o i w
  fill-IsInstr srli o i w = fill_immediate-IsInstr o i w
  fill-IsInstr srai o i w = fill_immediate-IsInstr o i w
  fill-IsInstr beq o i w = fill_branch-IsInstr o i w
  fill-IsInstr bge o i w = fill_branch-IsInstr o i w
  fill-IsInstr bgeu o i w = fill_branch-IsInstr o i w
  fill-IsInstr blt o i w = fill_branch-IsInstr o i w
  fill-IsInstr bltu o i w = fill_branch-IsInstr o i w
  fill-IsInstr bne o i w = fill_branch-IsInstr o i w
  fill-IsInstr lui o i w = fill_upper-IsInstr o i w
  fill-IsInstr auipc o i w = fill_upper-IsInstr o i w

  parse_plain-IsCode :
      {slots : ℕ} (max_src_len : ℕ) (ftok : List ℕ) (n : ℕ) (o : Operands) (c : Code)
      → IsCode slots max_src_len c
      → Ensures
          (λ (x : ℕ × Code). IsCode slots max_src_len x.1)
          (parse_plain report line max_src_len ftok n o c)
  unfolding parse_plain
  parse_plain-IsCode max_src_len ftok n o c k =
      Ensures-bind (entry c.imem n) _ (entry-IsInstr c.imem n k.words) (λ i w.
        let named = record i { str = ftok; op = parse_op ftok; orig_line = pos line } in
        Ensures-bind (append_source max_src_len (some ftok) o.o1 o.o2 o.o3 c.src named) _
          (append_source-IsAppended max_src_len (some ftok) o.o1 o.o2 o.o3 c.src named
            (record { imm2 = w.imm2; imm3 = w.imm3 }) k.within)
          (λ x a.
            Ensures-bind (fill report line (parse_op ftok) o x.1) _
              (fill-IsInstr (parse_op ftok) o x.1 a.words)
              (λ j wj. Ensures-ok _ (record {
                sized = length-set c.imem n j ∙ k.sized;
                words = All-set IsInstr c.imem n j k.words wj;
                within = a.within;
              }))))

  pub parse_instr-IsCode :
      {slots : ℕ} (data_offset max_src_len : ℕ) (ftok : List ℕ) (memoff : ℕ) (text : List ℕ)
      (c : Code)
      → IsCode slots max_src_len c
      → Ensures
          (λ (x : ℕ × Code). IsCode slots max_src_len x.1)
          (parse_instr report line data_offset max_src_len ftok memoff text c)
  unfolding parse_instr
  parse_instr-IsCode data_offset max_src_len ftok memoff text c k =
      let o = split_operands text in
      Ensures-after (guard (leb (memoff + 4) data_offset) (exit 1)) _ (λ _ _.
        Ensures-bind
          (parse_pseudoinstructions report max_src_len line ftok (memoff / 4) o.o1 o.o2 o.o3 c) _
          (parse_pseudoinstructions-IsCode report max_src_len line ftok (memoff / 4) o.o1 o.o2 o.o3
            c k)
          (λ x kx.
            Ensures-if (ltb 0 x.0) _ _ (λ _. Ensures-ok x kx)
              (λ _. parse_plain-IsCode max_src_len ftok (memoff / 4) o c k)))
