-- ===== src/Tests/Data.antt =====
-- Small programs and states that the tests share.
use aias_lab.Prelude.{ℕ, false, none, List, [], ◌∷◌, replicate, set}
use aias_lab.Prelude.Int.{pos, negsuc}
use aias_lab.Instr.{InstrType, optype_reg, Operand, Instr}
use aias_lab.Cpu.Execute.{Exec}

abbrev pub operand : ℕ → ℕ → Operand
operand r v = record { type = optype_reg; label = []; reg = pos r; imm = v }

-- `op x<a>, x<b>, x<c>` or with the immediate `v` in its last operand.
abbrev pub instr : InstrType → ℕ → ℕ → ℕ → ℕ → Instr
instr op a b c v = record {
  str = [];
  op = op;
  a1 = operand a 0;
  a2 = operand b v;
  a3 = operand c v;
  psrc = none;
  orig_line = negsuc 0;
  breakpoint = false;
}

-- x5 is 7, x6 is 9, and 16 bytes of memory count from 0.
abbrev pub regs : List ℕ
regs = set (set (replicate 32 0) 5 7) 6 9

abbrev pub bytes : List ℕ
bytes = 0 ∷ 1 ∷ 2 ∷ 3 ∷ 4 ∷ 5 ∷ 6 ∷ 7 ∷ 8 ∷ 9 ∷ 10 ∷ 11 ∷ 12 ∷ 13 ∷ 14 ∷ 255 ∷ []

abbrev pub start : Exec
start = record { rf = regs; mem = bytes; pc = 8; pc_next = 12 }
