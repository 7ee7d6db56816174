-- ===== src/Cpu/Halt.antt =====
-- What may follow the event that executes HCF, whether its packet is sent at once or waits for a
-- retry.
use aias_lab.Prelude.{
  ℕ, ◌≡◌, refl, sym, ap, ◌∙◌, arith, Bool, true, none, some, List, [], ◌==◌, if◌then◌else◌,
}
use mathlib.Core.Path.{subst}
use mathlib.Core.Option.{some_inj}
use aias_lab.Prelude.Result.{ok, bind-eq-ok, ok-injective}
use aias_lab.Prelude.Word.{add32}
use aias_lab.Instr.{Instr}
use aias_lab.Packet.{Store, renew, set_pc, set_taken}
use aias_lab.Port.{MasterPort}
use aias_lab.Cpu.Execute.{Exec, execute}
use aias_lab.Cpu.Cases.{commit_instr-cases, retry-cases}
use aias_lab.Cpu.Commit.{
  increment_inst_count, schedule, Soc, is_hcf, commit_instr, process_instr, exec_one_instr,
  fetch_instr, retry_send_inst_packet,
}
use aias_lab.Cpu.Protocol.{Run, start, exec, retry, take}

-- Writing the branch flag leaves every packet's instruction.
set_taken-inst :
    (b : Bool) (store : Store) (p q : ℕ)
    → ((if b then store else set_taken store p) q).inst ≡ (store q).inst
set_taken-inst b store p q = ground arith

module _ (ports : MasterPort) where
  open ports use {push}

  -- No event is left, and a packet that waits is that of HCF.
  pub record IsHalted (s : Soc ports) : Type 0 where
    pub done : s.events ≡ []
    pub last : (p : ℕ) → s.cpu.pending_inst_packet ≡ some p → is_hcf (s.packets p).inst.op ≡ true

  commit_instr-IsHalted :
      (tick : ℕ) (i : Instr) (p : ℕ) (s : Soc ports)
      → s.events ≡ []
      → s.cpu.pending_inst_packet ≡ none
      → is_hcf i.op ≡ true
      → (s.packets p).inst ≡ i
      → IsHalted (commit_instr ports tick i p s)
  unfolding schedule
  commit_instr-IsHalted tick i p s e n halt same =
      commit_instr-cases ports IsHalted tick i p s
        (λ _. record {
          done = e;
          last = λ q h.
              subst (λ (x : ℕ). is_hcf (s.packets x).inst.op ≡ true) (some_inj.0 h)
                (ap (λ (j : Instr). is_hcf j.op) same ∙ halt);
        })
        (λ _ _. record { done = e; last = λ q h. absurd (cc) }) (λ _ more. absurd (cc))

  process_instr-IsHalted :
      (tick : ℕ) (i : Instr) (p : ℕ) (s : Soc ports) {t : Soc ports}
      → s.events ≡ []
      → s.cpu.pending_inst_packet ≡ none
      → is_hcf i.op ≡ true
      → (s.packets p).inst ≡ i
      → process_instr ports tick i p s ≡ ok t
      → IsHalted t
  unfolding process_instr
  process_instr-IsHalted tick i p s e n halt same h =
      let before : Exec = record {
        rf = s.cpu.rf;
        mem = s.mem;
        pc = s.cpu.pc;
        pc_next = add32 s.cpu.pc 4;
      } in
      let (count, _, h0) = bind-eq-ok (increment_inst_count s.cpu.inst_cnt) _ h in
      let (x, executed, h1) = bind-eq-ok (execute i.op i before) _ h0 in
      let cpu' = record s.cpu { rf = x.rf; inst_cnt = count } in
      let u = commit_instr ports tick i p (record s { cpu = cpu'; mem = x.mem }) in
      let c = commit_instr-IsHalted tick i p (record s { cpu = cpu'; mem = x.mem }) e n halt same in
      subst IsHalted (ok-injective h1) (record {
        done = c.done;
        last = λ q w.
            ap (λ (j : Instr). is_hcf j.op)
              (set_taken-inst (x.pc_next == add32 s.cpu.pc 4) u.packets p q)
            ∙ c.last q w;
      })

  exec_one_instr-IsHalted :
      (tick p : ℕ) (i : Instr) (s : Soc ports) {t : Soc ports}
      → s.events ≡ []
      → s.cpu.pending_inst_packet ≡ none
      → fetch_instr s.cpu s.cpu.pc ≡ ok i
      → is_hcf i.op ≡ true
      → exec_one_instr ports tick p s ≡ ok t
      → IsHalted t
  unfolding exec_one_instr renew
  exec_one_instr-IsHalted tick p i s e n fetched halt h =
      let (j, fetched', h1) = bind-eq-ok (fetch_instr s.cpu s.cpu.pc) _ h in
      let same : j ≡ i = ok-injective (sym fetched' ∙ fetched) in
      process_instr-IsHalted tick j p
        (record s { packets = set_pc (renew s.packets p j) p s.cpu.pc }) e n (rw same halt)
        (ground arith) h1

  retry-IsHalted :
      (tick : ℕ) (s : Soc ports) → IsHalted s → IsHalted (retry_send_inst_packet ports tick s)
  unfolding schedule
  retry-IsHalted tick s k =
      retry-cases ports IsHalted tick s k (λ _ _. record { done = k.done; last = k.last })
        (λ _ _ _. record { done = k.done; last = λ q h. absurd (cc) })
        (λ p n more. absurd (cc (k.last p n, more)))

  Run-IsHalted :
      {s : Soc ports} {issued taken : List ℕ} {t : Soc ports}
      → IsHalted s
      → Run ports s issued taken t
      → (issued ≡ []) × IsHalted t
  Run-IsHalted k start = (refl, k)
  Run-IsHalted k (exec r tick p e rest eq h) =
      let (_, kt) = Run-IsHalted k r in absurd (cc (kt.done, eq))
  Run-IsHalted k (retry r tick) =
      let (nil, kt) = Run-IsHalted k r in (nil, retry-IsHalted tick _ kt)
  Run-IsHalted k (take r x port' eq) =
      let (nil, kt) = Run-IsHalted k r in (nil, record { done = kt.done; last = kt.last })

  -- Once an event has executed HCF, with nothing else on its way, no sequence of events, retries and
  -- takes executes another instruction; no event is left, and a packet that waits is that of HCF.
  pub hcf-halts :
      (tick p : ℕ) (i : Instr) (s : Soc ports) {t u : Soc ports} {issued taken : List ℕ}
      → s.events ≡ []
      → s.cpu.pending_inst_packet ≡ none
      → fetch_instr s.cpu s.cpu.pc ≡ ok i
      → is_hcf i.op ≡ true
      → exec_one_instr ports tick p s ≡ ok t
      → Run ports t issued taken u
      → (issued ≡ []) × IsHalted u
  hcf-halts tick p i s e n fetched halt h r =
      Run-IsHalted (exec_one_instr-IsHalted tick p i s e n fetched halt h) r
