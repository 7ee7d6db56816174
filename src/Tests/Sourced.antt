-- ===== src/Tests/Sourced.antt =====
-- A program as the assembler prints it, from its text to what it computes.
use aias_lab.Prelude.{
  ℕ, ◌≡◌, refl, arith, ◌==◌, not, false, All, Option, get_elem?, some, none, List, [], ◌∷◌, ◌++◌,
  replicate,
}
use aias_lab.Prelude.Word.{add32}
use aias_lab.Prelude.Result.{Result, ok, err, undefined}
use aias_lab.Instr.{addi, hcf, Instr, fresh_imem}
use aias_lab.Isa.{Arch, step}
use aias_lab.Memory.Bytes.{alloc, memcpy}
use aias_lab.Cpu.Execute.{execute}
use aias_lab.Cpu.Commit.{Soc, new_cpu, exec_one_instr, fetch_instr}
use aias_lab.Cpu.Machine.{soc_view}
use aias_lab.Emulator.Text.{codes, streq}
use aias_lab.Emulator.Lines.{
  parse, parse_line, label_line, statement, instr_line, parse_assembler_directive,
  parse_data_element,
}
use aias_lab.Emulator.Tokens.{strtok, tokens}
use aias_lab.Emulator.Operands.{parse_instr, parse_plain, split_operands, fill, fill_immediate}
use aias_lab.Emulator.Pseudo.{parse_pseudoinstructions, put_entry}
use aias_lab.Emulator.Source.{append_source, format_hex}
use aias_lab.Emulator.Labels.{
  normalize_labels, normalize_instr, operands, first_operand, second_operand, third_operand,
}
use aias_lab.Emulator.Numbers.{parse_imm, signextend}
use aias_lab.Emulator.Opcode.{parse_op, instr_to_string}
use aias_lab.Emulator.Registers.{parse_reg}
use aias_lab.Emulator.Forms.{Values, immediate, bare, IsWritable}
use aias_lab.Emulator.Listing.{Statement, AreLines}
use aias_lab.Emulator.Meant.{source_run}
use aias_lab.Emulator.Permitted.{AllPermitted}
use aias_lab.Top.Boot.{init, sim_init, register_modules, parse_path}
use aias_lab.Top.System.{Issue, System, moving, connect, Trace, fresh, event}
use aias_lab.Top.Computes.{boot_arch}
use aias_lab.Top.Sourced.{init-source_run}
use aias_lab.Tests.Framework.{queue_port, queue_sim, latches}
use aias_lab.Tests.Soc.{packets, soc}
use aias_lab.Tests.Boot.{log, small, blank, or_else, or_unimpl, small-IsLayout}
use aias_lab.Tests.System.{latch}

abbrev answer : Values
answer = record { r1 = 5; r2 = 0; r3 = 0; imm = 0xfff; label = codes "a" }

abbrev program : List Statement
program = record { op = addi; values = answer } ∷ record { op = hcf; values = answer } ∷ []

abbrev text : List (List ℕ)
text = (codes "ADDI x05, x00, 0x00000FFF" ++ 10 ∷ []) ∷ (codes "hcf " ++ 10 ∷ []) ∷ []

immediate-IsWritable : IsWritable immediate answer
immediate-IsWritable = record {
  reg1 = omega arith;
  reg2 = omega arith;
  reg3 = omega arith;
  width = omega arith;
  token = (refl, tt);
  short = omega arith;
}

bare-IsWritable : IsWritable bare answer
bare-IsWritable = record {
  reg1 = omega arith;
  reg2 = omega arith;
  reg3 = omega arith;
  width = omega arith;
  token = (refl, tt);
  short = omega arith;
}

text-AreLines : AreLines program text
unfolding instr_to_string format_hex
text-AreLines = ((refl, immediate-IsWritable), ((refl, bare-IsWritable), tt))

abbrev booting : Result (Soc queue_port)
booting = init log (err undefined) queue_port small blank (replicate 64 0) 0 (some text) packets []

unfoldable loaded : (s : Soc queue_port) × (booting ≡ ok s)
unfolding init sim_init parse_path register_modules new_cpu fresh_imem alloc memcpy parse parse_line
    label_line statement instr_line parse_assembler_directive parse_data_element strtok tokens
    parse_instr parse_plain split_operands fill fill_immediate parse_pseudoinstructions put_entry
    streq append_source normalize_labels normalize_instr operands first_operand second_operand
    third_operand parse_imm signextend parse_op parse_reg
loaded = (or_else booting soc, refl)

abbrev before : System queue_sim latches
before = connect queue_sim latches loaded.0 latch latch

before_event : before.soc.events ≡ record { id = 1; when = 1 } ∷ []
unfolding connect loaded
before_event = refl

abbrev call : Result (Soc queue_port)
call = exec_one_instr queue_port 1 3 (record before.soc { events = [] })

unfoldable done : (t : Soc queue_port) × (call ≡ ok t)
unfolding connect loaded exec_one_instr execute
done = (or_else call soc, refl)

abbrev first : Instr
first = or_unimpl (get_elem? before.soc.cpu.imem 0)

first_fetched : fetch_instr before.soc.cpu before.soc.cpu.pc ≡ ok first
unfolding connect loaded fetch_instr
first_fetched = refl

nothing_moves : moving queue_sim latches before ≡ []
unfolding connect loaded
nothing_moves = refl

three_is_free : All (λ (q : ℕ). (q == 3) ≡ false) (moving queue_sim latches before)
three_is_free = rw nothing_moves tt

abbrev issue : List Issue
issue =
    record {
      ptr = 3;
      inst = first;
      pc = before.soc.cpu.pc;
      taken = not (done.0.cpu.pc == add32 before.soc.cpu.pc 4);
    }
    ∷ []

traced : Trace queue_sim latches before issue (record before { soc = done.0 })
traced = event fresh 1 3 first _ [] before_event first_fetched three_is_free done.1

abbrev or_arch : Option Arch → Arch → Arch
or_arch (some a) d = a
or_arch none d = d

-- What the first statement makes of the start: x5 becomes -1.
abbrev after : Arch
after = or_arch (source_run program 1 (boot_arch loaded.0.mem)) (boot_arch [])

after_x5 : after.regs 5 ≡ 0xffff_ffff
unfolding source_run step
after_x5 = refl

first_meant : source_run program 1 (boot_arch loaded.0.mem) ≡ some after
unfolding source_run
first_meant = refl

first_permitted : AllPermitted program 16 1 (boot_arch loaded.0.mem)
unfolding source_run
first_permitted = (
  tt,
  λ i. (
    record { is_reg = record { nonneg = refl; below = omega arith }; ne_x0 = omega arith },
    record { nonneg = refl; below = omega arith },
  ),
)

init-source_run_example : soc_view queue_port done.0 ≡ after
init-source_run_example =
    init-source_run queue_sim latches log (err undefined) small blank (replicate 64 0) 0 program
      text packets [] latch latch text-AreLines (tt, (tt, tt)) (tt, (tt, tt)) (omega arith)
      (omega arith) small-IsLayout (λ k j. omega arith) refl loaded.1 traced first_permitted
      first_meant
