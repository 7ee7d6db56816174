-- ===== src/Tests/Lines.antt =====
-- A source line, from its text to the instruction memory.
use aias_lab.Prelude.{ℕ, ◌≡◌, refl, arith, some, List, [], ◌∷◌, ◌++◌, replicate}
use aias_lab.Prelude.Result.{ok, err, undefined}
use aias_lab.Instr.{lw, hcf}
use aias_lab.Emulator.Text.{codes}
use aias_lab.Emulator.Opcode.{instr_to_string}
use aias_lab.Emulator.Source.{format_hex}
use aias_lab.Emulator.Lines.{Asm, parse}
use aias_lab.Emulator.Forms.{Values, memory, bare, written, IsWritable}
use aias_lab.Emulator.Appended.{name_of}
use aias_lab.Emulator.Listing.{Statement, AreLines, IsListing, parse-written}
use aias_lab.Cpu.Commit.{Soc}
use aias_lab.Top.Boot.{init}
use aias_lab.Top.Loaded.{IsLoaded, init-IsLoaded}
use aias_lab.Tests.Framework.{queue_port}
use aias_lab.Tests.Soc.{packets}
use aias_lab.Tests.Asm.{log, code}
use aias_lab.Tests.Boot.{small, blank}

abbrev values : Values
values = record { r1 = 10; r2 = 2; r3 = 0; imm = 0x7c; label = codes "a" }

line_text : name_of lw ++ 32 ∷ written memory values ≡ codes "lw x10, 0x0000007c(x02)" ++ 10 ∷ []
unfolding instr_to_string format_hex
line_text = refl

abbrev before : Asm
before = record { code = code; mem = replicate 16 0; memoff = 0; labels = [] }

values-IsWritable : IsWritable memory values
values-IsWritable = record {
  reg1 = omega arith;
  reg2 = omega arith;
  reg3 = omega arith;
  width = omega arith;
  token = (refl, tt);
  short = omega arith;
}

bare-IsWritable : IsWritable bare values
bare-IsWritable = record {
  reg1 = omega arith;
  reg2 = omega arith;
  reg3 = omega arith;
  width = omega arith;
  token = (refl, tt);
  short = omega arith;
}

-- Two statements, and a file with them.
abbrev statements : List Statement
statements = record { op = lw; values = values } ∷ record { op = hcf; values = values } ∷ []

abbrev file : List (List ℕ)
file = (codes "LW x10, 0x0000007C(x02)" ++ 10 ∷ []) ∷ (codes "hcf " ++ 10 ∷ []) ∷ []

file-AreLines : AreLines statements file
unfolding instr_to_string format_hex
file-AreLines = ((refl, values-IsWritable), ((refl, bare-IsWritable), tt))

parse-written_example :
    (t : Asm) × (parse log small 3 file before ≡ ok t) × IsListing 3 statements before t
parse-written_example =
    parse-written log small 3 statements file before file-AreLines (omega arith) (omega arith)
      (omega arith)

init-IsLoaded_example :
    (s : Soc queue_port) × (init log
        (err undefined)
        queue_port
        small
        blank
        (replicate 64 0)
        0
        (some file)
        packets
        []
      ≡ ok s)
    × IsLoaded small blank statements s.cpu.imem
init-IsLoaded_example =
    init-IsLoaded log (err undefined) queue_port small blank (replicate 64 0) 0 statements file
      packets [] file-AreLines (tt, (tt, tt)) (omega arith) (omega arith)
