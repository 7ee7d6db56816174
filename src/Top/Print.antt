-- ===== src/Top/Print.antt =====
-- `CPU::printRegfile`, which `SOC::cleanup` calls at the end: the text that is logged.
use aias_lab.Prelude.{ℕ, ◌+◌, ◌/◌, ◌%◌, List, [], ◌∷◌, ◌++◌, ◌==◌, if◌then◌else◌}
use aias_lab.Port.{MasterPort}
use aias_lab.Cpu.Commit.{Soc}
use aias_lab.Emulator.Text.{codes}
use aias_lab.Emulator.Source.{hex_digits}

-- Register `i`, with a line feed behind every eighth.
abbrev pub print_register : ℕ → ℕ → List ℕ
print_register i v =
    codes "x"
    ++ (48 + i / 10) ∷ (48 + i % 10) ∷ []
    ++ codes ":0x"
    ++ hex_digits 8 v
    ++ codes " "
    ++ (if (i + 1) % 8 == 0 then 10 ∷ [] else [])

abbrev pub print_registers : ℕ → List ℕ → List ℕ
print_registers i [] = []
print_registers i (v ∷ rf) = print_register i v ++ print_registers (i + 1) rf

unfoldable pub print_regfile : List ℕ → List ℕ
print_regfile rf =
    codes "Register File Snapshot:" ++ 10 ∷ 10 ∷ [] ++ print_registers 0 rf ++ 10 ∷ []

-- `SOC::cleanup`.
abbrev pub cleanup : (ports : MasterPort) → Soc ports → List ℕ
cleanup ports s = print_regfile s.cpu.rf
