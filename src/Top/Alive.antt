-- ===== src/Top/Alive.antt =====
-- Between the CPU's events: the next event, or the packet whose retry schedules it.
use aias_lab.Prelude.{
  ℕ, ◌≡◌, refl, sym, ap, ◌∙◌, arith, false, none, some, List, ◌∷◌, All, All-last,
}
use mathlib.Core.Path.{subst}
use mathlib.Core.Option.{some_inj}
use aias_lab.Prelude.Result.{ok, bind-eq-ok, ok-injective}
use aias_lab.Prelude.Word.{add32}
use aias_lab.Instr.{Instr}
use aias_lab.Packet.{Store, renew, set_pc}
use aias_lab.Port.{SimPort, MasterPort}
use aias_lab.Pipe.{PipeRegister}
use aias_lab.Cpu.Execute.{Exec, execute}
use aias_lab.Cpu.Cases.{commit_instr-cases, retry-cases}
use aias_lab.Cpu.Commit.{
  increment_inst_count, schedule, ExecOneInstrEvent, Soc, is_hcf, fetch_instr, commit_instr,
  process_instr, exec_one_instr, retry_send_inst_packet,
}
use aias_lab.Cpu.Sending.{tokens, exec_one_instr-IsSent, none_pending, no_events}
use aias_lab.Cpu.Machine.{exec_one_instr-IsPosted}
use aias_lab.Top.Cases.{master_port_retry-cases}
use aias_lab.Top.Boot.{master_port_retry}
use aias_lab.Top.System.{System, pipeline_of, Issue, Trace, fresh, event, port_retry, stage}
use aias_lab.Top.Delivered.{act-IsRead}

-- Exactly one event is scheduled or one packet waits for a retry, and that packet is not HCF's, so
-- that sending it schedules the next event.
pub record IsAlive (ports : MasterPort) (s : Soc ports) : Type 0 where
  pub token : tokens ports s ≡ 1
  pub resumes : (p : ℕ) → s.cpu.pending_inst_packet ≡ some p → is_hcf (s.packets p).inst.op ≡ false

-- An executed instruction other than HCF.
abbrev pub IsRunning : Issue → Type 0
IsRunning x = is_hcf x.inst.op ≡ false

module _ (ports : MasterPort) where
  open ports use {push}

  -- Only the packet of the event can become pending.
  commit_instr-pending :
      (tick : ℕ) (i : Instr) (p : ℕ) (s : Soc ports)
      → s.cpu.pending_inst_packet ≡ none
      → (q : ℕ) → (commit_instr ports tick i p s).cpu.pending_inst_packet ≡ some q
      → q ≡ p
  unfolding schedule
  commit_instr-pending tick i p s n =
      commit_instr-cases ports
        (λ (t : Soc ports). (q : ℕ) → t.cpu.pending_inst_packet ≡ some q → q ≡ p) tick i p s
        (λ _ q h. sym (some_inj.0 h)) (λ _ _ q h. absurd (cc)) (λ _ _ q h. absurd (cc))

  exec_one_instr-pending :
      (tick p : ℕ) (s : Soc ports) {t : Soc ports}
      → s.cpu.pending_inst_packet ≡ none
      → exec_one_instr ports tick p s ≡ ok t
      → (q : ℕ) → t.cpu.pending_inst_packet ≡ some q
      → q ≡ p
  unfolding exec_one_instr process_instr
  exec_one_instr-pending tick p s {t} n h =
      let (i, _, h1) = bind-eq-ok (fetch_instr s.cpu s.cpu.pc) _ h in
      let before : Exec = record {
        rf = s.cpu.rf;
        mem = s.mem;
        pc = s.cpu.pc;
        pc_next = add32 s.cpu.pc 4;
      } in
      let (count, _, h0) = bind-eq-ok (increment_inst_count s.cpu.inst_cnt) _ h1 in
      let (x, _, h2) = bind-eq-ok (execute i.op i before) _ h0 in
      let c = record s {
        cpu = record s.cpu { rf = x.rf; inst_cnt = count };
        mem = x.mem;
        packets = set_pc (renew s.packets p i) p s.cpu.pc;
      } in
      subst (λ (u : Soc ports). (q : ℕ) → u.cpu.pending_inst_packet ≡ some q → q ≡ p)
        (ok-injective h2) (commit_instr-pending tick i p c n)

  exec-IsAlive :
      (tick p : ℕ) (i : Instr) (s : Soc ports) {t : Soc ports} (e : ExecOneInstrEvent)
      (rest : List ExecOneInstrEvent)
      → s.events ≡ e ∷ rest
      → fetch_instr s.cpu s.cpu.pc ≡ ok i
      → is_hcf i.op ≡ false
      → IsAlive ports s
      → exec_one_instr ports tick p (record s { events = rest }) ≡ ok t
      → IsAlive ports t
  exec-IsAlive tick p i s {t} e rest eq fetched more a h =
      let (nil, idle) = none_pending ports s eq (omega (arith, a.token)) in
      let (j, fetched', c) =
        exec_one_instr-IsSent ports tick p (record s { events = rest }) nil idle h in
      let same : j ≡ i = ok-injective (sym fetched' ∙ fetched) in
      let posted = exec_one_instr-IsPosted ports tick p i (record s { events = rest }) fetched h in
      record {
        token = c.token ∙ rw (same, more) refl;
        resumes = λ q w.
            subst (λ (x : ℕ). is_hcf (t.packets x).inst.op ≡ false)
              (sym (exec_one_instr-pending tick p (record s { events = rest }) idle h q w))
              (ap (λ (k : Instr). is_hcf k.op) posted.inst ∙ more);
      }

  retry-IsAlive :
      (tick : ℕ) (s : Soc ports)
      → IsAlive ports s
      → IsAlive ports (retry_send_inst_packet ports tick s)
  unfolding schedule
  retry-IsAlive tick s a =
      retry-cases ports (IsAlive ports) tick s a
        (λ p n. record { token = a.token; resumes = a.resumes })
        (λ p n halt. absurd (cc (a.resumes p n, halt)))
        (λ p n _. record {
          token = rw (no_events ports s p n (omega (arith, a.token))) refl;
          resumes = λ q h. absurd (cc);
        })

  master_port_retry-IsAlive :
      (tick : ℕ) (port_name : List ℕ) (s : Soc ports)
      → IsAlive ports s
      → IsAlive ports (master_port_retry ports tick port_name s)
  master_port_retry-IsAlive tick port_name s a =
      master_port_retry-cases ports (IsAlive ports) tick port_name s (retry-IsAlive tick s a) a

module _ (ports : SimPort) (regs : PipeRegister) where
  -- From a state with exactly one event or pending packet, which is not HCF's, whatever the kernel
  -- does: as long as HCF is not executed, exactly one event is scheduled or one packet waits, and the
  -- packet that waits is not HCF's.
  pub Trace-IsAlive :
      (s : System ports regs) {issued : List Issue} {t : System ports regs}
      → IsAlive ports.master s.soc
      → All IsRunning issued
      → Trace ports regs s issued t
      → IsAlive ports.master t.soc
  Trace-IsAlive s a running fresh = a
  Trace-IsAlive s a running (event {issued} {t} r tick p i e rest eq fetched free h) =
      let (before, last) = All-last IsRunning issued _ running in
      exec-IsAlive ports.master tick p i t.soc e rest eq fetched last (Trace-IsAlive s a before r) h
  Trace-IsAlive s a running (port_retry {issued} {t} r tick port_name) =
      master_port_retry-IsAlive ports.master tick port_name t.soc (Trace-IsAlive s a running r)
  Trace-IsAlive s a running (stage {issued} {t} r x) =
      let k = Trace-IsAlive s a running r in
      let read = act-IsRead ports regs x (pipeline_of ports regs t) in
      record {
        token = k.token;
        resumes =
            λ p w. ap (λ (store : Store). is_hcf (store p).inst.op) read.packets ∙ k.resumes p w;
      }
