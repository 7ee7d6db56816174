-- ===== src/Tests/Numbers.antt =====
-- Numbers, registers and operands of the assembler on short texts.
use aias_lab.Prelude.{true, ◌-◌, ◌^◌, ◌≡◌, ◌≢◌, refl, arith, some, none, [], ◌∷◌}
use aias_lab.Prelude.Result.{ok, err, undefined, ◌>>=◌}
use aias_lab.Prelude.Int.{pos}
use aias_lab.Emulator.Text.{codes}
use aias_lab.Emulator.Numbers.{strtol, low_word, signextend, parse_imm}
use aias_lab.Emulator.Labels.{label_addr}
use aias_lab.Emulator.Tokens.{strtok}
use aias_lab.Emulator.Immediates.{field, signextend-parse_imm}
use aias_lab.Emulator.Find.{label_addr-first}
use aias_lab.Emulator.Overrun.{parse_instr-overrun}
use aias_lab.Emulator.Operands.{parse_instr, split_operands}
use aias_lab.Tests.Asm.{log, code, a0_is_x10}

accepted : parse_imm log (codes "4095") 12 1 true ≡ ok 4095
unfolding parse_imm
accepted = refl

signextend-parse_imm_example : signextend 4095 12 ≡ low_word (field (strtol (codes "4095")).0)
signextend-parse_imm_example = signextend-parse_imm log (codes "4095") 1 true accepted

-- The second definition of `end` is not seen.
label_addr-first_example :
    (label_addr log
        (codes "end")
        (record { label = codes "loop"; loc = 4 }
          ∷ record { label = codes "end"; loc = 8 }
          ∷ record { label = codes "end"; loc = 12 }
          ∷ [])
        (pos 1)
      ≡ ok 8)
    × (label_addr log (codes "end") (record { label = codes "loop"; loc = 4 } ∷ []) (pos 1)
        ≡ (log (pos 1) >>= λ _. ok (2 ^ 32 - 1)))
label_addr-first_example =
    label_addr-first log (codes "end") (omega arith) (pos 1)
      (record { label = codes "loop"; loc = 4 } ∷ [])
      (record { label = codes "end"; loc = 12 } ∷ []) 8 (other, tt)
  where
    other : codes "loop" ≢ codes "end"
    other h = absurd (cc)

split :
    split_operands (codes " a0, 5")
    ≡ record { o1 = some (codes "a0"); o2 = some (codes "5"); o3 = none; o4 = none }
unfolding split_operands strtok
split = refl

-- Four slots, and an instruction for the last.
parse_instr-overrun_example :
    (parse_instr log 1 16 64 (codes "li") 12 (codes " a0, 5") code ≡ err undefined)
    × (parse_instr log 1 16 64 (codes "la") 12 (codes " a0, 5") code ≡ err undefined)
parse_instr-overrun_example =
    parse_instr-overrun log 1 10 12 (codes "a0") (codes "5") (codes " a0, 5") code split a0_is_x10
      refl 64 refl refl
