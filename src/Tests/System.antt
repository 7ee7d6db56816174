-- ===== src/Tests/System.antt =====
-- The whole simulator on the program of Tests/Boot.
use aias_lab.Prelude.{
  ℕ, ◌≡◌, refl, arith, ◌==◌, ◌≤◌, not, false, All, get_elem?, some, List, [], ◌∷◌, replicate,
}
use aias_lab.Prelude.Result.{Result, ok, err, undefined}
use aias_lab.Cpu.Execute.{execute}
use aias_lab.Cpu.Commit.{Soc, exec_one_instr, fetch_instr}
use aias_lab.Cpu.Sending.{tokens}
use aias_lab.Prelude.Word.{add32}
use aias_lab.Instr.{Instr}
use aias_lab.Stage.Steps.{if_step, if_handler, hazard_with, data_hazard, control_hazard}
use aias_lab.Top.Delivered.{active, AllDescribed, Trace-AllDescribed}
use aias_lab.Stage.Order.{act, step_if}
use aias_lab.Top.System.{
  Issue, pointers, moving, System, connect, pipeline_of, put_pipeline, Trace, fresh, event, stage,
}
use aias_lab.Top.Carried.{carried, IsCarried, init-IsCarried}
use aias_lab.Top.Alive.{IsAlive, IsRunning, Trace-IsAlive}
use aias_lab.Tests.Framework.{queue_port, queue_sim, latches, Latch}
use aias_lab.Tests.Soc.{packets, soc}
use aias_lab.Tests.Boot.{
  log, small, blank, file, or_else, or_unimpl, program_start, booted, small-IsLayout,
}

abbrev pub latch : Latch
latch = record { output = []; input = [] }

abbrev pub linked : System queue_sim latches
linked = connect queue_sim latches program_start latch latch

pub linked_event : linked.soc.events ≡ record { id = 1; when = 1 } ∷ []
unfolding connect booted
linked_event = refl

abbrev linked_call : Result (Soc queue_port)
linked_call = exec_one_instr queue_port 1 3 (record linked.soc { events = [] })

unfoldable pub linked_done : (t : Soc queue_port) × (linked_call ≡ ok t)
unfolding connect booted exec_one_instr execute
linked_done = (or_else linked_call soc, refl)

-- `addi` is executed, and its packet taken by the IF stage.
abbrev pub issued_one : System queue_sim latches
issued_one =
    put_pipeline queue_sim latches
      (act queue_sim latches step_if
        (pipeline_of queue_sim latches (record linked { soc = linked_done.0 })))
      (record linked { soc = linked_done.0 })

abbrev first : Instr
first = or_unimpl (get_elem? linked.soc.cpu.imem 0)

pub linked_fetch : fetch_instr linked.soc.cpu linked.soc.cpu.pc ≡ ok first
unfolding connect booted fetch_instr
linked_fetch = refl

nothing_moves : moving queue_sim latches linked ≡ []
unfolding connect booted
nothing_moves = refl

nothing_carried : carried queue_sim latches linked ≡ []
unfolding connect booted
nothing_carried = refl

linked_tokens : tokens queue_port linked.soc ≤ 1
unfolding connect booted
linked_tokens = omega arith

pub three_is_free : All (λ (q : ℕ). (q == 3) ≡ false) (moving queue_sim latches linked)
three_is_free = rw nothing_moves tt

abbrev pub one_issue : List Issue
one_issue =
    record {
      ptr = 3;
      inst = first;
      pc = linked.soc.cpu.pc;
      taken = not (linked_done.0.cpu.pc == add32 linked.soc.cpu.pc 4);
    }
    ∷ []

pub one_traced : Trace queue_sim latches linked one_issue issued_one
one_traced =
    stage (event fresh 1 3 first _ [] linked_event linked_fetch three_is_free linked_done.1) step_if

init-IsCarried_example : IsCarried queue_sim latches one_issue linked issued_one
init-IsCarried_example =
    init-IsCarried queue_sim latches log (err undefined) small blank (replicate 64 0) 0 (some file)
      packets [] latch latch small-IsLayout (λ k j. omega arith) refl refl refl booted.1 one_traced

no_error : issued_one.errors ≡ linked.errors
unfolding linked_done connect booted exec_one_instr execute if_step if_handler hazard_with
    data_hazard control_hazard
no_error = refl

Trace-AllDescribed_example :
    (pointers (active queue_sim latches one_issue issued_one) ≡ moving queue_sim latches issued_one)
    × AllDescribed queue_sim latches one_issue issued_one
Trace-AllDescribed_example =
    Trace-AllDescribed queue_sim latches linked linked_tokens nothing_carried one_traced no_error

linked-IsAlive : IsAlive queue_port linked.soc
unfolding connect booted
linked-IsAlive = record { token = refl; resumes = λ p h. absurd (cc) }

pub not_hcf : All IsRunning one_issue
unfolding connect booted
not_hcf = (refl, tt)

Trace-IsAlive_example : IsAlive queue_port issued_one.soc
Trace-IsAlive_example = Trace-IsAlive queue_sim latches linked linked-IsAlive not_hcf one_traced
