-- ===== src/Emulator/Appended.antt =====
-- The source text that an ordinary instruction leaves in the buffer for messages.
use aias_lab.Prelude.{
  ℕ, ◌+◌, ◌≤◌, ◌<◌, ◌≡◌, refl, ◌∙◌, arith, Option, none, some, List, [], ◌∷◌, ◌++◌, length,
  length-append,
}
use aias_lab.Prelude.Result.{ok}
use aias_lab.Instr.{InstrType, unimpl, Instr}
use aias_lab.Emulator.Text.{lower}
use aias_lab.Emulator.Opcode.{instr_to_string}
use aias_lab.Emulator.Source.{Source, format_hex, source_text, append_source, append_source-ok}
use aias_lab.Emulator.Operands.{Operands}
use aias_lab.Emulator.Forms.{
  Form, registers, immediate, memory, branch, upper, jump, bare, Values, texts, IsWritable,
}
use aias_lab.Emulator.Written.{reg_text, mem_text}

abbrev pub name_of : InstrType → List ℕ
name_of op = lower (instr_to_string op)

pub name_of-short : (op : InstrType) → length (name_of op) ≤ 6
unfolding instr_to_string
name_of-short unimpl = omega arith
name_of-short _ = omega arith

length-format_hex : (v : ℕ) → length (format_hex v) ≡ 10
unfolding format_hex
length-format_hex v = refl

length-mem_text : (v r : ℕ) → length (mem_text v r) ≡ 15
length-mem_text v r =
    length-append (format_hex v) (40 ∷ (reg_text r ++ 41 ∷ [])) ∙ omega (arith, length-format_hex v)

module _ (max_src_len : ℕ) (ftok : List ℕ) (short : length ftok ≤ 6) (s : Source) (i : Instr) where
  -- The source text is short enough for its buffer on the stack.
  abbrev pub Appended : Operands → Type 0
  Appended o =
      (s' : Source) × (p : Option ℕ) × (append_source max_src_len (some ftok) o.o1 o.o2 o.o3 s i
        ≡ ok (s', record i { psrc = p }))

  append_three :
      (u v w : List ℕ)
      → length u + (length v + length w) < 96
      → Appended (record { o1 = some u; o2 = some v; o3 = some w; o4 = none })
  unfolding source_text
  append_three u v w lt =
      append_source-ok max_src_len (some ftok) (some u) (some v) (some w) s i refl
        (omega (arith, length-append {0}))

  append_two :
      (u v : List ℕ)
      → length u + length v < 96
      → Appended (record { o1 = some u; o2 = some v; o3 = none; o4 = none })
  unfolding source_text
  append_two u v lt =
      append_source-ok max_src_len (some ftok) (some u) (some v) none s i refl
        (omega (arith, length-append {0}))

  pub append-texts : (f : Form) (v : Values) → IsWritable f v → Appended (texts f v)
  append-texts registers v w =
      append_three (reg_text v.r1) (reg_text v.r2) (reg_text v.r3) (omega arith)
  append-texts immediate v w =
      append_three (reg_text v.r1) (reg_text v.r2) (format_hex v.imm)
        (omega (arith, length-format_hex v.imm))
  append-texts memory v w =
      append_two (reg_text v.r1) (mem_text v.imm v.r2) (omega (arith, length-mem_text v.imm v.r2))
  append-texts branch v w =
      append_three (reg_text v.r1) (reg_text v.r2) v.label (omega (arith, w.short))
  append-texts upper v w =
      append_two (reg_text v.r1) (format_hex v.imm) (omega (arith, length-format_hex v.imm))
  append-texts jump v w = append_two (reg_text v.r1) v.label (omega (arith, w.short))
  append-texts bare v w = (s, i.psrc, unfold append_source in refl)
