-- ===== src/Emulator/Lined.antt =====
-- A whole source line with an ordinary instruction.
use aias_lab.Prelude.{
  ℕ, ◌+◌, ◌/◌, ◌≤◌, ◌≡◌, refl, ◌∙◌, Option, some, List, [], ◌∷◌, ◌++◌, le→leb, length, set,
  get_elem?,
}
use aias_lab.Prelude.Result.{ok}
use aias_lab.Prelude.Int.{pos}
use aias_lab.Instr.{InstrType, unimpl, Instr}
use aias_lab.Memory.Bytes.{memcpy}
use aias_lab.Emulator.Text.{Reporter}
use aias_lab.Emulator.Tokens.{strtok}
use aias_lab.Emulator.Opcode.{instr_to_string}
use aias_lab.Emulator.Lines.{Config, Asm, instr_line, parse_line}
use aias_lab.Emulator.Forms.{form_of, Values, written, filled, IsWritable}
use aias_lab.Emulator.Appended.{name_of}
use aias_lab.Emulator.Assembled.{parse_instr-written}

-- A line with the name of an instruction and something behind it is an instruction's.
parse_line-name_of :
    (report : Reporter) (cfg : Config) (line : ℕ) (op : InstrType) (text : List ℕ) (s : Asm)
    → parse_line report cfg line (name_of op ++ 32 ∷ text) s
      ≡ instr_line report cfg line (name_of op) text s
unfolding parse_line strtok instr_to_string
parse_line-name_of report cfg line unimpl text s = refl
parse_line-name_of report cfg line _ text s = refl

-- The entry that holds the instruction of the line, and the memory with its filler.
pub record IsAssembled (line : ℕ) (op : InstrType) (v : Values) (i : Instr) (s t : Asm)
    : Type 0 where
  pub psrc : Option ℕ
  pub imem :
      t.code.imem
      ≡ set s.code.imem (s.memoff / 4) (
          filled
            (form_of op)
            v
            (record i { str = name_of op; op = op; orig_line = pos line; psrc = psrc }))
  pub mem : t.mem ≡ memcpy s.mem s.memoff (204 ∷ 204 ∷ 204 ∷ 204 ∷ [])
  pub memoff : t.memoff ≡ s.memoff + 4
  pub labels : t.labels ≡ s.labels

-- A line with an ordinary instruction, registers below 32, a number of the field's width and a label
-- of less than 64 characters without a separator, written the way the assembler prints them, is
-- accepted without a report if there is room in the text segment, the memory and the instruction
-- memory: the entry at the offset gets the instruction with those operands, the memory there the
-- filler, the offset moves by 4, and the labels stay.
pub parse_line-written :
    (report : Reporter) (cfg : Config) (line : ℕ) (op : InstrType) (v : Values) (s : Asm)
    (i : Instr)
    → IsWritable (form_of op) v
    → s.memoff + 4 ≤ cfg.data_offset
    → s.memoff + 4 ≤ length s.mem
    → get_elem? s.code.imem (s.memoff / 4) ≡ some i
    → (t : Asm) × (parse_line report cfg line (name_of op ++ 32 ∷ written (form_of op) v) s ≡ ok t)
      × IsAssembled line op v i s t
unfolding instr_line
parse_line-written report cfg line op v s i w room fits slot =
    let (src', p, parsed) =
      parse_instr-written report line op v cfg.data_offset cfg.max_src_len s.memoff s.code i w room
        slot in
    let j =
      filled (form_of op) v
        (record i { str = name_of op; op = op; orig_line = pos line; psrc = p }) in
    (
      record s {
        code = record { imem = set s.code.imem (s.memoff / 4) j; src = src' };
        mem = memcpy s.mem s.memoff (204 ∷ 204 ∷ 204 ∷ 204 ∷ []);
        memoff = s.memoff + 4;
      },
      parse_line-name_of report cfg line op (written (form_of op) v) s
          ∙ rw (parsed, le→leb (s.memoff + 4) (length s.mem) fits) refl,
      record { psrc = p; imem = refl; mem = refl; memoff = refl; labels = refl },
    )
