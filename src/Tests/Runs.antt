-- ===== src/Tests/Runs.antt =====
-- The simulator on the program of Tests/Boot, beside the manual's machine on it.
use aias_lab.Prelude.{◌≡◌, refl, arith, some, [], Option, replicate}
use aias_lab.Prelude.Result.{err, undefined}
use aias_lab.Isa.{step}
use aias_lab.Cpu.Program.{IsaRun, isa_run, AllAllowed}
use aias_lab.Cpu.Machine.{soc_view}
use aias_lab.Top.System.{Trace, event, fresh}
use aias_lab.Top.Sequential.{entries, run_of, Trace-independent}
use aias_lab.Top.Computes.{boot_arch, init-isa_run}
use aias_lab.Top.Progress.{Goes, init-Goes}
use aias_lab.Tests.Framework.{queue_port, queue_sim, latches}
use aias_lab.Tests.Soc.{packets}
use aias_lab.Tests.Boot.{log, small, blank, file, program_start, booted, small-IsLayout}
use aias_lab.Tests.System.{
  linked, linked_done, issued_one, one_issue, one_traced, linked_event, linked_fetch, three_is_free,
  latch, not_hcf,
}

-- The same event with no step of a stage behind it.
unstaged : Trace queue_sim latches linked one_issue (record linked { soc = linked_done.0 })
unstaged = event fresh 1 3 _ _ [] linked_event linked_fetch three_is_free linked_done.1

Trace-independent_example :
    run_of queue_sim latches one_issue issued_one
    ≡ run_of queue_sim latches one_issue (record linked { soc = linked_done.0 })
Trace-independent_example = Trace-independent queue_sim latches linked one_traced unstaged refl

both_allowed : AllAllowed program_start.cpu.imem 16 2 (boot_arch program_start.mem)
unfolding isa_run booted step
both_allowed = (
  (
    tt,
    (
      record { is_reg = record { nonneg = refl; below = omega arith }; ne_x0 = omega arith },
      record { nonneg = refl; below = omega arith },
    ),
  ),
  tt,
)

init-isa_run_example :
    isa_run program_start.cpu.imem 1 (boot_arch program_start.mem)
    ≡ some (record { arch = soc_view queue_port issued_one.soc; log = entries one_issue })
init-isa_run_example =
    init-isa_run queue_sim latches log (err undefined) small blank (replicate 64 0) 0 (some file)
      packets [] latch latch small-IsLayout (λ k j. omega arith) refl booted.1 one_traced
      both_allowed.0

-- The state of the manual's machine after both instructions.
abbrev or_run : Option IsaRun → IsaRun → IsaRun
or_run (some r) d = r
or_run _ d = d

abbrev both : IsaRun
both =
    or_run (isa_run program_start.cpu.imem 2 (boot_arch program_start.mem))
      (record { arch = boot_arch []; log = [] })

both_run : isa_run program_start.cpu.imem 2 (boot_arch program_start.mem) ≡ some both
unfolding isa_run booted step
both_run = refl

init-Goes_example : Goes queue_port 2 4 both.arch issued_one.soc
init-Goes_example =
    init-Goes queue_sim latches log (err undefined) small blank (replicate 64 0) 0 (some file)
      packets [] latch latch 2 4 small-IsLayout (λ k j. omega arith) refl booted.1 one_traced
      not_hcf (omega arith) both_allowed both_run
