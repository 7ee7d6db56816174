-- ===== src/Tests/Switch.antt =====
-- The switch of the CPU on single instructions.
use aias_lab.Prelude.{ℕ, ◌<◌, ◌≡◌, ◌≢◌, refl, arith, get_or}
use aias_lab.Prelude.Result.{ok}
use aias_lab.Prelude.Word.{add32}
use aias_lab.Instr.{sltu, jal, jalr, sw, Instr}
use aias_lab.Isa.{step}
use aias_lab.Cpu.Execute.{Exec, execute}
use aias_lab.Cpu.Invariant.{IsExec, IsInstr}
use aias_lab.Cpu.View.{view, fields, IsReg, IsDest}
use aias_lab.Cpu.Shapes.{IsStart, Yields}
use aias_lab.Cpu.Refines.{execute-step}
use aias_lab.Cpu.Deviations.{not-sltu-step, jal-x0, jalr_same}
use aias_lab.Tests.Data.{instr, start}

start-IsExec : IsExec 16 start
start-IsExec = record {
  registers = refl;
  words = omega arith;
  memory = record { sized = refl; bytes = omega arith };
  pc_word = omega arith;
  pc_next_word = omega arith;
}

start-IsStart : IsStart 16 start
start-IsStart = record { exec = start-IsExec; x0_zero = refl; follows = refl }

-- `sw x6, 3(x5)`.
abbrev store_x6 : Instr
store_x6 = instr sw 6 5 0 3

store_x6-IsInstr : IsInstr store_x6
store_x6-IsInstr = record { imm2 = omega arith; imm3 = omega arith }

x6-IsReg : IsReg store_x6.a1
x6-IsReg = record { nonneg = refl; below = omega arith }

x5-IsReg : IsReg store_x6.a2
x5-IsReg = record { nonneg = refl; below = omega arith }

execute-step_example :
    Yields (execute sw store_x6 start) (step sw (fields sw store_x6) (view start))
execute-step_example =
    execute-step sw store_x6 start start-IsStart store_x6-IsInstr (x6-IsReg, x5-IsReg, omega arith)

dest : (r : ℕ) → r < 32 → r ≢ 0 → IsDest (instr sltu r 5 6 0).a1
dest r lt ne = record { is_reg = record { nonneg = refl; below = lt }; ne_x0 = ne }

-- `sltu x7, x5, x6` gives 16, not 1.
not-sltu-step_example :
    ¬ Yields
      (execute sltu (instr sltu 7 5 6 0) start)
      (step sltu (fields sltu (instr sltu 7 5 6 0)) (view start))
not-sltu-step_example =
    not-sltu-step (instr sltu 7 5 6 0) start start-IsStart (dest 7 (omega arith) (omega arith))
      (record { nonneg = refl; below = omega arith })
      (record { nonneg = refl; below = omega arith }) (omega arith)

-- `j 40` at pc 8 leaves 12 in x0.
jal-x0_example :
    (next : Exec) × (execute jal (instr jal 0 0 0 40) start ≡ ok next)
    × (get_or next.rf 0 0 ≡ add32 8 4)
    × (next.pc_next ≡ 40)
jal-x0_example = jal-x0 (instr jal 0 0 0 40) start start-IsStart refl

jalr_same_example :
    (next : Exec) × (execute jalr (instr jalr 1 1 0 16) start ≡ ok next)
    × (next.pc_next ≡ add32 (add32 8 4) 16)
jalr_same_example =
    jalr_same (instr jalr 1 1 0 16) start start-IsStart
      (record { nonneg = refl; below = omega arith }) refl
