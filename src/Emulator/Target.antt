-- ===== src/Emulator/Target.antt =====
-- What `normalize_labels` makes of a branch.
use aias_lab.Prelude.{ℕ, ◌+◌, ◌<◌}
use aias_lab.Instr.{InstrType, beq, bge, bgeu, blt, bltu, bne, Instr}
use aias_lab.Emulator.Source.{Source}

abbrev pub IsBranch : InstrType → Type 0
IsBranch beq = Unit
IsBranch bge = Unit
IsBranch bgeu = Unit
IsBranch blt = Unit
IsBranch bltu = Unit
IsBranch bne = Unit
IsBranch _ = ⊥

-- Less than `limit` bytes apart.
abbrev pub AreNear : ℕ → ℕ → ℕ → Type 0
AreNear limit a b = (a < b + limit) × (b < a + limit)
