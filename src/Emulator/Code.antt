-- ===== src/Emulator/Code.antt =====
-- What `Emulator::parse_pseudoinstructions` and `Emulator::parse_instr` write, and how they read
-- their operands. A missing operand is a null pointer: its use is undefined.
use aias_lab.Prelude.{
  ℕ, ◌-◌, ◌/◌, ◌^◌, Bool, true, false, Option, none, some, List, [], ◌∷◌, ltb, if◌then◌else◌,
  get_elem?, bit_and,
}
use aias_lab.Prelude.Result.{undefined, Result, from_option}
use aias_lab.Prelude.Int.{ℤ, pos}
use aias_lab.Instr.{lui, addi, optype_reg, optype_imm, optype_label, max_label_len, Operand, Instr}
use aias_lab.Emulator.Source.{Source}

abbrev pub take {ℓ} : {A : Type ℓ} → ℕ → List A → List A
take n [] = []
take n (x ∷ xs) = if ltb 0 n then x ∷ take (n - 1) xs else []

-- Writes of an operand: `type` and `reg`, `type` and `imm`, `type` and `label` (by strncpy).
abbrev pub to_reg : ℤ → Operand → Operand
to_reg r o = record o { type = optype_reg; reg = r }

abbrev pub to_imm : ℕ → Operand → Operand
to_imm v o = record o { type = optype_imm; imm = v }

abbrev pub to_label : List ℕ → Operand → Operand
to_label l o = record o { type = optype_label; label = take max_label_len l }

-- `!o`, and a use of `o`.
abbrev pub is_null : Option (List ℕ) → Bool
is_null none = true
is_null (some _) = false

abbrev pub text_of : Option (List ℕ) → Result (List ℕ)
text_of o = from_option undefined o

-- `imem[n]` and its update.
abbrev pub entry : List Instr → ℕ → Result Instr
entry imem n = from_option undefined (get_elem? imem n)

-- What the assembler writes: the instruction memory and the source buffer.
pub record Code : Type 0 where
  pub imem : List Instr
  pub src : Source

-- The two instructions of `li`.
abbrev pub li_lui : ℕ → ℤ → ℕ → Instr → Instr
li_lui line r v i = record i {
  op = lui;
  a1 = to_reg r i.a1;
  a2 = to_imm (v / 2 ^ 12) i.a2;
  orig_line = pos line;
}

abbrev pub li_addi : ℕ → ℤ → ℕ → Instr → Instr
li_addi line r v i = record i {
  op = addi;
  a1 = to_reg r i.a1;
  a2 = to_reg r i.a2;
  a3 = to_imm (bit_and v (2 ^ 12 - 1)) i.a3;
  orig_line = pos line;
}

-- The two instructions of `la`, which wait for the label's address.
abbrev pub la_lui : ℕ → ℤ → List ℕ → Instr → Instr
la_lui line r t i = record i {
  op = lui;
  a1 = to_reg r i.a1;
  a2 = to_label t i.a2;
  orig_line = pos line;
}

abbrev pub la_addi : ℕ → ℤ → List ℕ → Instr → Instr
la_addi line r t i = record i {
  op = addi;
  a1 = to_reg r i.a1;
  a2 = to_reg r i.a2;
  a3 = to_label t i.a3;
  orig_line = pos line;
}
