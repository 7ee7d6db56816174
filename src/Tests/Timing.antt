-- ===== src/Tests/Timing.antt =====
-- The stages on a short queue of packets.
use aias_lab.Prelude.{
  ℕ, suc, ◌*◌, ◌≤◌, ◌≡◌, refl, ◌⊎◌, ◌↔◌, true, false, none, some, List, [], ◌∷◌, if◌then◌else◌,
  ◌==◌,
}
use aias_lab.Instr.{add, addi, sub}
use aias_lab.Packet.{Store}
use aias_lab.Stage.Hazard.{get_dest_reg, check_data_hazard}
use aias_lab.Stage.Independent.{is_listed, DependsOn, check_data_hazard_iff, get_dest_reg_unlisted}
use aias_lab.Stage.Steps.{
  Pipeline, hazard_with, data_hazard, control_hazard, if_handler, if_step, exe_handler, exe_step,
  wb_handler, wb_step, run_sync_pipe_register,
}
use aias_lab.Stage.Cases.{hazard}
use aias_lab.Stage.Order.{
  Action, step_if, step_exe, step_wb, synchronise, in_flight, run, in_flight-run,
}
use aias_lab.Stage.Stall.{iterate, IsIssued, stall_bound, issue-independent}
use aias_lab.Tests.Data.{instr}
use aias_lab.Tests.Framework.{Latch, queue_sim, latches}

-- Packet 1 is `addi x5, x0, 1`, packet 2 is `add x6, x5, x5`, any other `add x7, x1, x2`.
abbrev packets : Store
packets p = record {
  inst =
      if p == 1
      then instr addi 5 0 0 1
      else if p == 2
      then instr add 6 5 5 0
      else instr add 7 1 2 0;
  str = [];
  pc = 4 * p;
  is_taken_branch = false;
}

abbrev empty : Latch
empty = record { output = []; input = [] }

-- Packet 1 is in EXE, and packet 2, which depends on it, waits in the port.
abbrev waiting : Pipeline queue_sim latches
waiting = record {
  packets = packets;
  port = 2 ∷ 3 ∷ [];
  exe_inst_packet = some 1;
  wb_inst_packet = none;
  if_exe = record { output = []; input = 1 ∷ [] };
  exe_wb = empty;
  exe_stage_wb = none;
  recycled = [];
  forced = 0;
  errors = 0;
}

abbrev acts : List Action
acts = step_if ∷ synchronise ∷ step_exe ∷ synchronise ∷ step_wb ∷ step_if ∷ step_if ∷ []

recycles_one : (run queue_sim latches acts waiting).recycled ≡ 1 ∷ []
unfolding if_step hazard_with data_hazard control_hazard if_handler exe_step exe_handler wb_step
    wb_handler run_sync_pipe_register check_data_hazard get_dest_reg
recycles_one = refl

no_errors : (run queue_sim latches acts waiting).errors ≡ 0
unfolding if_step hazard_with data_hazard control_hazard if_handler exe_step exe_handler wb_step
    wb_handler run_sync_pipe_register check_data_hazard get_dest_reg
no_errors = refl

in_flight-run_example :
    in_flight queue_sim latches (run queue_sim latches acts waiting) ≡ 1 ∷ 2 ∷ 3 ∷ []
in_flight-run_example = in_flight-run queue_sim latches acts waiting no_errors

stall_bound_example :
    (n : ℕ) × (n ≤ 2)
    × ((iterate queue_sim latches n waiting).port ≡ 2 ∷ 3 ∷ [])
    × IsIssued queue_sim latches (2 ∷ 3 ∷ []) (iterate queue_sim latches (suc n) waiting)
stall_bound_example = stall_bound queue_sim latches waiting refl

-- Packet 3 is issued behind packet 1.
abbrev clear_front : Pipeline queue_sim latches
clear_front = record waiting { port = 3 ∷ [] }

issues_three : (if_step queue_sim latches clear_front).exe_inst_packet ≡ some 3
unfolding if_step hazard_with data_hazard control_hazard if_handler check_data_hazard get_dest_reg
issues_three = refl

issue-independent_example :
    (◌≡◌ {A = ℕ} 3 3)
    × ((e : ℕ)
        → (clear_front.exe_inst_packet ≡ some e) ⊎ (clear_front.wb_inst_packet ≡ some e)
        → is_listed (packets e).inst.op ≡ true
        → is_listed (packets 3).inst.op ≡ true
        → ¬ DependsOn (packets e).inst (packets 3).inst)
    × ((e : ℕ) → clear_front.exe_inst_packet ≡ some e → (packets e).is_taken_branch ≡ false)
issue-independent_example = issue-independent queue_sim latches clear_front 3 refl issues_three

no_hazard : hazard queue_sim latches clear_front ≡ false
unfolding hazard_with data_hazard control_hazard check_data_hazard get_dest_reg
no_hazard = refl

check_data_hazard_iff_example :
    (check_data_hazard (get_dest_reg (instr addi 5 0 0 1)) (instr add 6 5 5 0) ≡ true)
    ↔ DependsOn (instr addi 5 0 0 1) (instr add 6 5 5 0)
check_data_hazard_iff_example =
    check_data_hazard_iff (instr addi 5 0 0 1) (instr add 6 5 5 0) refl refl

get_dest_reg_unlisted_example :
    check_data_hazard (get_dest_reg (instr sub 5 1 2 0)) (instr add 6 5 5 0) ≡ false
get_dest_reg_unlisted_example = get_dest_reg_unlisted (instr sub 5 1 2 0) (instr add 6 5 5 0) refl
