-- ===== src/Stage/Hazard.antt =====
-- `IFStage::getDestReg` and `IFStage::checkDataHazard`.
use aias_lab.Prelude.{Bool, false, not, ◌&&◌, ◌||◌, ◌==◌}
use aias_lab.Prelude.Int.{ℤ, pos, negsuc}
use aias_lab.Instr.{InstrType, add, addi, lw, lui, jal, beq, sb, Instr}

-- `a == b` on int.
abbrev pub eqb : ℤ → ℤ → Bool
eqb (pos a) (pos b) = a == b
eqb (negsuc a) (negsuc b) = a == b
eqb _ _ = false

-- The switch of `getDestReg`.
unfoldable pub dest_of : InstrType → Instr → ℤ
dest_of add i = i.a1.reg
dest_of addi i = i.a1.reg
dest_of lw i = i.a1.reg
dest_of lui i = i.a1.reg
dest_of jal i = i.a1.reg
dest_of _ i = pos 0

unfoldable pub get_dest_reg : Instr → ℤ
unfolding dest_of
get_dest_reg i = dest_of i.op i

-- The switch of `checkDataHazard`: rs1 and rs2.
unfoldable pub sources_of : InstrType → Instr → ℤ × ℤ
sources_of add i = (i.a2.reg, i.a3.reg)
sources_of addi i = (i.a2.reg, pos 0)
sources_of beq i = (i.a1.reg, i.a2.reg)
sources_of sb i = (i.a1.reg, i.a2.reg)
sources_of lw i = (i.a2.reg, pos 0)
sources_of _ i = (pos 0, pos 0)

unfoldable pub check_data_hazard : ℤ → Instr → Bool
unfolding sources_of
check_data_hazard rd i =
    let (rs1, rs2) = sources_of i.op i in (eqb rd rs1 || eqb rd rs2) && not (eqb rd (pos 0))
