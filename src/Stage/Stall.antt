-- ===== src/Stage/Stall.antt =====
-- When the IF stage issues a packet, and how long it can hold one back.
use aias_lab.Prelude.{
  ℕ, zero, suc, ◌≤◌, ◌≡◌, refl, sym, ap, ◌∙◌, ◌⊎◌, inl, inr, arith, Bool, true, false, ◌||◌, Option,
  none, some, Bool-cases, eq_of_some,
}
use aias_lab.Packet.{Store}
use aias_lab.Port.{SimPort}
use aias_lab.Pipe.{PipeRegister}
use aias_lab.Stage.Hazard.{get_dest_reg, check_data_hazard}
use aias_lab.Stage.Independent.{is_listed, DependsOn, check_data_hazard_iff}
use aias_lab.Stage.Steps.{Pipeline, hazard_with, data_hazard, control_hazard, if_handler, if_step}
use aias_lab.Stage.Cases.{hazard, stalled, issued, if_step_stall, if_step_issue}

or-left : (a b : Bool) → (a || b) ≡ false → a ≡ false
or-left true b h = cc
or-left false b h = refl

or-right : (a b : Bool) → (a || b) ≡ false → b ≡ false
or-right true b h = absurd (cc)
or-right false b h = h

module _ (ports : SimPort) (regs : PipeRegister) where
  open ports use {Port, is_pop_valid, pop}

  -- `n` ticks of the IF stage.
  abbrev pub iterate : ℕ → Pipeline ports regs → Pipeline ports regs
  iterate zero s = s
  iterate (suc n) s = if_step ports regs (iterate n s)

  hazard-none :
      (s : Pipeline ports regs)
      → s.exe_inst_packet ≡ none
      → s.wb_inst_packet ≡ none
      → hazard ports regs s ≡ false
  unfolding data_hazard control_hazard
  hazard-none s e w = ground arith

  -- The packet in front has left the port for EXE.
  pub record IsIssued (p : Port) (t : Pipeline ports regs) : Type 0 where
    pub packet : t.exe_inst_packet ≡ some (pop p).0
    pub port : t.port ≡ (pop p).1

  issued-IsIssued : (s : Pipeline ports regs) → IsIssued s.port (issued ports regs s)
  unfolding if_handler
  issued-IsIssued s = record { packet = refl; port = refl }

  issue_now :
      (s : Pipeline ports regs)
      → is_pop_valid s.port ≡ true
      → hazard ports regs s ≡ false
      → IsIssued s.port (if_step ports regs s)
  issue_now s valid h = rw (if_step_issue ports regs s valid h) (issued-IsIssued s)

  -- A packet in front of the IF stage is issued after at most two stalls, through which it stays
  -- in the port.
  pub stall_bound :
      (s : Pipeline ports regs)
      → is_pop_valid s.port ≡ true
      → (n : ℕ) × (n ≤ 2) × ((iterate n s).port ≡ s.port) × IsIssued s.port (iterate (suc n) s)
  stall_bound s valid = elim (Bool-cases (hazard ports regs s)) [
    | inr h ↦ (0, omega arith, refl, issue_now s valid h)
    | inl h ↦
        let one : if_step ports regs s ≡ stalled ports regs s =
          if_step_stall ports regs s valid h in
        let s1 = stalled ports regs s in
        elim (Bool-cases (hazard ports regs s1)) [
          | inr h1 ↦ (1, omega arith, rw one, rw one (issue_now s1 valid h1))
          | inl h1 ↦
              let two : if_step ports regs s1 ≡ stalled ports regs s1 =
                if_step_stall ports regs s1 valid h1 in
              let s2 = stalled ports regs s1 in
              (
                2,
                omega arith,
                rw one (rw two refl),
                rw one (rw two (issue_now s2 valid (hazard-none s2 refl refl))),
              )
        ]
  ]

  data_hazard_lem :
      (s : Pipeline ports regs)
      → is_pop_valid s.port ≡ true
      → data_hazard ports regs s ≡ (
          hazard_with s.packets s.exe_inst_packet (pop s.port).0
          || hazard_with s.packets s.wb_inst_packet (pop s.port).0)
  unfolding data_hazard
  data_hazard_lem s valid = rw (valid, data_hazard) (rw (ports.front_valid s.port valid))

  -- No dependence between listed instructions where `hazard_with` answers false.
  hazard_with-independent :
      (store : Store) (o : Option ℕ) (e q : ℕ)
      → o ≡ some e
      → hazard_with store o q ≡ false
      → is_listed (store e).inst.op ≡ true
      → is_listed (store q).inst.op ≡ true
      → ¬ DependsOn (store e).inst (store q).inst
  unfolding hazard_with
  hazard_with-independent store none e q same h le lq d = absurd (cc)
  hazard_with-independent store (some e') e q same h le lq d =
      let found = (check_data_hazard_iff (store e).inst (store q).inst le lq).1 d in
      let here : e' ≡ e = eq_of_some same in
      absurd (
        cc (
          ap (λ (t : ℕ). check_data_hazard (get_dest_reg (store t).inst) (store q).inst) here,
          found,
          h,
        ))

  control_hazard_lem :
      (s : Pipeline ports regs) (e : ℕ)
      → s.exe_inst_packet ≡ some e
      → control_hazard ports regs s ≡ (s.packets e).is_taken_branch
  unfolding control_hazard
  control_hazard_lem s e h = rw (h, control_hazard)

  -- A packet that the IF stage issues is the one in front; among the listed instructions it reads
  -- no register, other than x0, that the instruction in EXE or in WB writes, and the instruction
  -- in EXE is no taken branch.
  pub issue-independent :
      (s : Pipeline ports regs) (q : ℕ)
      → is_pop_valid s.port ≡ true
      → (if_step ports regs s).exe_inst_packet ≡ some q
      → (q ≡ (pop s.port).0)
        × ((e : ℕ)
            → (s.exe_inst_packet ≡ some e) ⊎ (s.wb_inst_packet ≡ some e)
            → is_listed (s.packets e).inst.op ≡ true
            → is_listed (s.packets q).inst.op ≡ true
            → ¬ DependsOn (s.packets e).inst (s.packets q).inst)
        × ((e : ℕ) → s.exe_inst_packet ≡ some e → (s.packets e).is_taken_branch ≡ false)
  issue-independent s q valid h = elim (Bool-cases (hazard ports regs s)) [
    | inl bad ↦
        let stall = if_step_stall ports regs s valid bad in
        absurd (cc (ap (λ (t : Pipeline ports regs). t.exe_inst_packet) stall))
    | inr clear ↦
        let front : q ≡ (pop s.port).0 = eq_of_some (sym h ∙ (issue_now s valid clear).packet) in
        let split = sym (data_hazard_lem s valid) ∙ or-left _ _ clear in
        (
          front,
          λ e old le lq. elim old [
            | inl x ↦
                hazard_with-independent s.packets s.exe_inst_packet e q x
                  (rw front (or-left _ _ split)) le lq
            | inr w ↦
                hazard_with-independent s.packets s.wb_inst_packet e q w
                  (rw front (or-right _ _ split)) le lq
          ],
          λ e x. sym (control_hazard_lem s e x) ∙ or-right _ _ clear,
        )
  ]
