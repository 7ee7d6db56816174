-- ===== src/Stage/Order.antt =====
-- The order of packets along the port, the two pipe registers and the recycle container.
use aias_lab.Prelude.{
  ℕ, ◌≤◌, ◌≡◌, refl, sym, ap, ◌∙◌, inl, inr, arith, Bool, true, false, not, ◌&&◌, List, [], ◌∷◌,
  ◌++◌, Bool-cases,
}
use mathlib.Core.Path.{ap₂}
use mathlib.Core.List.{append_assoc}
use aias_lab.Port.{SimPort}
use aias_lab.Pipe.{PipeRegister}
use aias_lab.Stage.Cases.{hazard, if_step_idle, if_step_stall, if_step_issue}
use aias_lab.Stage.Steps.{
  Pipeline, if_handler, if_step, exe_handler, exe_step, wb_handler, wb_step, run_sync_pipe_register,
}

-- What may happen in the timing model, in any order.
pub data Action : Type 0 where
  step_if step_exe step_wb synchronise : Action

and-left : (a b : Bool) → (a && b) ≡ true → a ≡ true
and-left true b h = refl
and-left false b h = cc

module _ (ports : SimPort) (regs : PipeRegister) where
  open ports use {contents, is_pop_valid}
  open regs use {held}

  -- The packets from the oldest, already recycled, to those still in the port.
  abbrev pub in_flight : Pipeline ports regs → List ℕ
  in_flight s = s.recycled ++ (held s.exe_wb ++ (held s.if_exe ++ contents s.port))

  abbrev pub act : Action → Pipeline ports regs → Pipeline ports regs
  act step_if s = if_step ports regs s
  act step_exe s = exe_step ports regs s
  act step_wb s = wb_step ports regs s
  act synchronise s = run_sync_pipe_register ports regs s

  abbrev pub run : List Action → Pipeline ports regs → Pipeline ports regs
  run [] s = s
  run (a ∷ as') s = run as' (act a s)

  -- No message can be withdrawn, and without a new one all packets are where they were, in order.
  pub record IsMoved (s t : Pipeline ports regs) : Type 0 where
    pub errors_le : s.errors ≤ t.errors
    pub same_order : t.errors ≡ s.errors → in_flight t ≡ in_flight s

  -- The handlers: an accepted packet is appended to the next register, a refused one reported.
  if_handler-IsMoved :
      (s : Pipeline ports regs) (p : ℕ) (port' : ports.Port)
      → contents s.port ≡ p ∷ contents port'
      → IsMoved s (if_handler ports regs p (record s { port = port' }))
  unfolding if_handler
  if_handler-IsMoved s p port' e = elim (Bool-cases (regs.push s.if_exe p).0) [
    | inl done ↦ rw done (record {
      errors_le = omega arith;
      same_order = λ _.
          ap (λ (l : List ℕ). s.recycled ++ (held s.exe_wb ++ l))
            (ap (λ (l : List ℕ). l ++ contents port') (regs.push_accepted s.if_exe p done)
              ∙ append_assoc (held s.if_exe) (p ∷ []) (contents port')
              ∙ ap (λ (l : List ℕ). held s.if_exe ++ l) (sym e));
    })
    | inr refused ↦
        rw refused (record { errors_le = omega arith; same_order = λ h. absurd (omega arith) })
  ]

  if_step-IsMoved : (s : Pipeline ports regs) → IsMoved s (if_step ports regs s)
  if_step-IsMoved s = elim (Bool-cases (is_pop_valid s.port)) [
    | inl valid ↦ elim (Bool-cases (hazard ports regs s)) [
      | inl h ↦
          rw (if_step_stall ports regs s valid h)
            (record { errors_le = omega arith; same_order = λ _. refl })
      | inr h ↦
          rw (if_step_issue ports regs s valid h)
            (if_handler-IsMoved s _ _ (ports.pop_valid s.port valid))
    ]
    | inr empty ↦
        rw (if_step_idle ports regs s empty)
          (record { errors_le = omega arith; same_order = λ _. refl })
  ]

  exe_handler-IsMoved :
      (s : Pipeline ports regs) (p : ℕ) (r : regs.Reg)
      → held s.if_exe ≡ p ∷ held r
      → IsMoved s (exe_handler ports regs p (record s { if_exe = r }))
  unfolding exe_handler
  exe_handler-IsMoved s p r e = elim (Bool-cases (regs.push s.exe_wb p).0) [
    | inl done ↦ rw done (record {
      errors_le = omega arith;
      same_order = λ _.
          ap (λ (l : List ℕ). s.recycled ++ l)
            (ap (λ (l : List ℕ). l ++ (held r ++ contents s.port))
                (regs.push_accepted s.exe_wb p done)
              ∙ append_assoc (held s.exe_wb) (p ∷ []) (held r ++ contents s.port)
              ∙ ap (λ (l : List ℕ). held s.exe_wb ++ (l ++ contents s.port)) (sym e));
    })
    | inr refused ↦
        rw refused (record { errors_le = omega arith; same_order = λ h. absurd (omega arith) })
  ]

  exe_step-IsMoved : (s : Pipeline ports regs) → IsMoved s (exe_step ports regs s)
  unfolding exe_step
  exe_step-IsMoved s =
      elim (Bool-cases (regs.is_valid s.if_exe && not (regs.is_stalled s.exe_wb))) [
        | inl go ↦ rw go (exe_handler-IsMoved s _ _ (regs.pop_valid s.if_exe (and-left _ _ go)))
        | inr stay ↦ rw stay (record { errors_le = omega arith; same_order = λ _. refl })
      ]

  wb_step-IsMoved : (s : Pipeline ports regs) → IsMoved s (wb_step ports regs s)
  unfolding wb_step wb_handler
  wb_step-IsMoved s = elim (Bool-cases (regs.is_valid s.exe_wb)) [
    | inl valid ↦ rw valid (record {
      errors_le = omega arith;
      same_order = λ _.
          append_assoc s.recycled _ _
          ∙ ap (λ (l : List ℕ). s.recycled ++ (l ++ (held s.if_exe ++ contents s.port)))
              (sym (regs.pop_valid s.exe_wb valid));
    })
    | inr empty ↦ rw empty (record { errors_le = omega arith; same_order = λ _. refl })
  ]

  sync-IsMoved : (s : Pipeline ports regs) → IsMoved s (run_sync_pipe_register ports regs s)
  unfolding run_sync_pipe_register
  sync-IsMoved s = record {
    errors_le = omega arith;
    same_order = λ _.
        ap₂ (λ (a b : List ℕ). s.recycled ++ (a ++ (b ++ contents s.port)))
          (regs.held-clear_stall_flag (regs.sync s.exe_wb) ∙ regs.held-sync s.exe_wb)
          (regs.held-clear_stall_flag (regs.sync s.if_exe) ∙ regs.held-sync s.if_exe);
  }

  pub act-IsMoved : (a : Action) (s : Pipeline ports regs) → IsMoved s (act a s)
  act-IsMoved step_if s = if_step-IsMoved s
  act-IsMoved step_exe s = exe_step-IsMoved s
  act-IsMoved step_wb s = wb_step-IsMoved s
  act-IsMoved synchronise s = sync-IsMoved s

  run-IsMoved : (as' : List Action) (s : Pipeline ports regs) → IsMoved s (run as' s)
  run-IsMoved [] s = record { errors_le = omega arith; same_order = λ _. refl }
  run-IsMoved (a ∷ as') s =
      let one = act-IsMoved a s in
      let more = run-IsMoved as' (act a s) in
      record {
        errors_le = omega (arith, one.errors_le, more.errors_le);
        same_order = λ h.
            more.same_order (omega (arith, one.errors_le, more.errors_le))
            ∙ one.same_order (omega (arith, one.errors_le, more.errors_le));
      }

  -- Whatever the stages and the synchronisation do, in any order: as long as no CLASS_ERROR is
  -- reported, the packets recycled, in prEXE2WB, in prIF2EXE and in the port are together the same
  -- sequence, so none is lost, doubled or overtaken.
  pub in_flight-run :
      (as' : List Action) (s : Pipeline ports regs)
      → (run as' s).errors ≡ s.errors
      → in_flight (run as' s) ≡ in_flight s
  in_flight-run as' s = (run-IsMoved as' s).same_order
