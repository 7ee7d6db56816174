-- ===== src/Stage/Cases.antt =====
-- The three outcomes of a tick of the IF stage.
use aias_lab.Prelude.{◌+◌, ◌≡◌, refl, Bool, true, false, not, ◌&&◌, ◌||◌, none}
use aias_lab.Port.{SimPort}
use aias_lab.Pipe.{PipeRegister}
use aias_lab.Stage.Steps.{Pipeline, data_hazard, control_hazard, if_handler, if_step}

module _ (ports : SimPort) (regs : PipeRegister) where
  abbrev pub hazard : Pipeline ports regs → Bool
  hazard s = data_hazard ports regs s || control_hazard ports regs s

  abbrev pub stalled : Pipeline ports regs → Pipeline ports regs
  stalled s = record s {
    wb_inst_packet = s.exe_inst_packet;
    exe_inst_packet = none;
    forced = s.forced + 1;
  }

  abbrev pub issued : Pipeline ports regs → Pipeline ports regs
  issued s = if_handler ports regs (ports.pop s.port).0 (record s { port = (ports.pop s.port).1 })

  pub if_step_idle :
      (s : Pipeline ports regs) → ports.is_pop_valid s.port ≡ false → if_step ports regs s ≡ s
  unfolding if_step
  if_step_idle s empty = rw (empty, if_step)

  pub if_step_stall :
      (s : Pipeline ports regs)
      → ports.is_pop_valid s.port ≡ true
      → hazard s ≡ true
      → if_step ports regs s ≡ stalled s
  unfolding if_step
  if_step_stall s valid h = rw valid (rw (either _ _ h))
    where
      either : (a b : Bool) → (a || b) ≡ true → (not a && not b) ≡ false
      either true b h = refl
      either false true h = refl
      either false false h = absurd (cc)

  pub if_step_issue :
      (s : Pipeline ports regs)
      → ports.is_pop_valid s.port ≡ true
      → hazard s ≡ false
      → if_step ports regs s ≡ issued s
  unfolding if_step
  if_step_issue s valid h = rw valid (rw (neither _ _ h))
    where
      neither : (a b : Bool) → (a || b) ≡ false → (not a && not b) ≡ true
      neither true b h = absurd (cc)
      neither false true h = absurd (cc)
      neither false false h = refl
