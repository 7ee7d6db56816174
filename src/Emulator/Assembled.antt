-- ===== src/Emulator/Assembled.antt =====
-- An ordinary instruction, written the way the assembler prints one, and what `parse_instr` makes
-- of it.
use aias_lab.Prelude.{
  ℕ, ◌+◌, ◌/◌, ◌≤◌, ◌≡◌, refl, arith, Option, some, List, le→leb, set, get_elem?,
}
use aias_lab.Prelude.Result.{Result, ok}
use aias_lab.Prelude.Int.{pos}
use aias_lab.Instr.{InstrType, unimpl, Instr}
use aias_lab.Emulator.Text.{lower, streq, Reporter}
use aias_lab.Emulator.Opcode.{instr_to_string, parse_op-instr_to_string}
use aias_lab.Emulator.Source.{Source, format_hex}
use aias_lab.Emulator.Pseudo.{parse_pseudoinstructions}
use aias_lab.Emulator.Code.{Code}
use aias_lab.Emulator.Operands.{
  Operands, split_operands, fill_jal, fill_registers, fill_mem, fill_immediate, fill_branch,
  fill_upper, fill, parse_plain, parse_instr,
}
use aias_lab.Emulator.Forms.{
  Form, registers, immediate, memory, branch, upper, jump, bare, form_of, Values, texts, written,
  filled, IsWritable,
}
use aias_lab.Emulator.Appended.{name_of, name_of-short, append-texts}
use aias_lab.Emulator.Words.{split_none, split_two, split_three}
use aias_lab.Emulator.Written.{
  reg_text, mem_text, reg_text-IsToken, format_hex-IsToken, mem_text-IsToken, parse_reg-reg_text,
  parse_imm-format_hex, parse_mem-mem_text,
}

split-written : (f : Form) (v : Values) → IsWritable f v → split_operands (written f v) ≡ texts f v
split-written registers v w =
    split_three (reg_text v.r1) (reg_text v.r2) (reg_text v.r3) (reg_text-IsToken v.r1)
      (reg_text-IsToken v.r2) (reg_text-IsToken v.r3)
split-written immediate v w =
    split_three (reg_text v.r1) (reg_text v.r2) (format_hex v.imm) (reg_text-IsToken v.r1)
      (reg_text-IsToken v.r2) (format_hex-IsToken v.imm)
split-written memory v w =
    split_two (reg_text v.r1) (mem_text v.imm v.r2) (reg_text-IsToken v.r1)
      (mem_text-IsToken v.imm v.r2)
split-written branch v w =
    split_three (reg_text v.r1) (reg_text v.r2) v.label (reg_text-IsToken v.r1)
      (reg_text-IsToken v.r2) w.token
split-written upper v w =
    split_two (reg_text v.r1) (format_hex v.imm) (reg_text-IsToken v.r1) (format_hex-IsToken v.imm)
split-written jump v w = split_two (reg_text v.r1) v.label (reg_text-IsToken v.r1) w.token
split-written bare v w = split_none

-- `fill` by the form alone.
abbrev fill_form : Reporter → ℕ → Form → Operands → Instr → Result Instr
fill_form report line registers o i = fill_registers report line o i
fill_form report line immediate o i = fill_immediate report line o i
fill_form report line memory o i = fill_mem report line o i
fill_form report line branch o i = fill_branch report line o i
fill_form report line upper o i = fill_upper report line o i
fill_form report line jump o i = fill_jal report line o i
fill_form report line bare o i = ok i

module _ (report : Reporter) (line : ℕ) where
  fill-fill_form :
      (op : InstrType) (o : Operands) (i : Instr)
      → fill report line op o i ≡ fill_form report line (form_of op) o i
  unfolding fill
  fill-fill_form unimpl o i = refl
  fill-fill_form _ o i = refl

  fill_form-texts :
      (f : Form) (v : Values) (i : Instr)
      → IsWritable f v
      → fill_form report line f (texts f v) i ≡ ok (filled f v i)
  unfolding fill_jal fill_registers fill_mem fill_immediate fill_branch fill_upper
  fill_form-texts registers v i w =
      rw
        (
          parse_reg-reg_text report line v.r1 (omega arith),
          parse_reg-reg_text report line v.r2 (omega arith),
          parse_reg-reg_text report line v.r3 (omega arith),
        )
        refl
  fill_form-texts immediate v i w =
      rw
        (
          parse_reg-reg_text report line v.r1 (omega arith),
          parse_reg-reg_text report line v.r2 (omega arith),
          parse_imm-format_hex report line v.imm 12 (omega arith) w.width,
        )
        refl
  fill_form-texts memory v i w =
      rw
        (
          parse_reg-reg_text report line v.r1 (omega arith),
          parse_mem-mem_text report line v.imm v.r2 w.width (omega arith),
        )
        refl
  fill_form-texts branch v i w =
      rw
        (
          parse_reg-reg_text report line v.r1 (omega arith),
          parse_reg-reg_text report line v.r2 (omega arith),
        )
        refl
  fill_form-texts upper v i w =
      rw
        (
          parse_reg-reg_text report line v.r1 (omega arith),
          parse_imm-format_hex report line v.imm 20 (omega arith) w.width,
        )
        refl
  fill_form-texts jump v i w = rw (parse_reg-reg_text report line v.r1 (omega arith)) refl
  fill_form-texts bare v i w = refl

  -- None of the names is that of a pseudo-instruction.
  not_pseudo :
      (op : InstrType) (max_src_len n : ℕ) (o1 o2 o3 : Option (List ℕ)) (c : Code)
      → parse_pseudoinstructions report max_src_len line (lower (instr_to_string op)) n o1 o2 o3 c
        ≡ ok (0, c)
  unfolding parse_pseudoinstructions instr_to_string streq
  not_pseudo unimpl max_src_len n o1 o2 o3 c = refl
  not_pseudo _ max_src_len n o1 o2 o3 c = refl

-- The entry of the instruction memory, once the name is read.
abbrev named : ℕ → InstrType → Instr → Instr
named line op i = record i { str = name_of op; op = op; orig_line = pos line }

module _ (report : Reporter) (line : ℕ) where
  pub parse_instr-written :
      (op : InstrType) (v : Values) (data_offset max_src_len memoff : ℕ) (c : Code) (i : Instr)
      → IsWritable (form_of op) v
      → memoff + 4 ≤ data_offset
      → get_elem? c.imem (memoff / 4) ≡ some i
      → (src' : Source) × (p : Option ℕ) × (parse_instr report line data_offset max_src_len
            (name_of op)
            memoff
            (written (form_of op) v)
            c
          ≡ ok (
            1,
            record {
              imem =
                  set c.imem
                    (memoff / 4)
                    (filled (form_of op) v (record (named line op i) { psrc = p }));
              src = src';
            },
          ))
  unfolding parse_instr parse_plain
  parse_instr-written op v data_offset max_src_len memoff c i w room slot =
      let f = form_of op in
      let o = texts f v in
      let (src', p, appended) =
        append-texts max_src_len (name_of op) (name_of-short op) c.src (named line op i) f v w in
      (
        src',
        p,
        rw
            (
              le→leb (memoff + 4) data_offset room,
              split-written f v w,
              not_pseudo report line op max_src_len (memoff / 4) o.o1 o.o2 o.o3 c,
              slot,
              parse_op-instr_to_string op,
              appended,
              fill-fill_form report line op o (record (named line op i) { psrc = p }),
              fill_form-texts report line f v (record (named line op i) { psrc = p }) w,
            )
            refl,
      )
