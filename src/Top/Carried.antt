-- ===== src/Top/Carried.antt =====
-- The packets from the CPU to write-back, through the port and the pipe registers.
use aias_lab.Prelude.{
  ℕ, ◌≤◌, ◌≡◌, refl, sym, ap, ◌∙◌, inl, inr, arith, Option, List, [], ◌∷◌, ◌++◌, Option-cases,
}
use mathlib.Core.Path.{subst}
use mathlib.Core.List.{append-nil, append_assoc}
use aias_lab.Prelude.Result.{Result, ok}
use aias_lab.Prelude.Word.{IsWord}
use aias_lab.Instr.{Operand}
use aias_lab.Packet.{Store}
use aias_lab.Port.{SimPort, MasterPort}
use aias_lab.Pipe.{PipeRegister}
use aias_lab.Cpu.Commit.{ExecOneInstrEvent, Soc, exec_one_instr, retry_send_inst_packet, is_hcf}
use aias_lab.Cpu.Sending.{
  tokens, waiting, pending_list, exec_one_instr-IsSent, one_left, none_pending, no_events,
  retry_some, retry_none,
}
use aias_lab.Emulator.Text.{Reporter}
use aias_lab.Emulator.Lines.{Config}
use aias_lab.Stage.Order.{Action, act, in_flight, IsMoved, act-IsMoved}
use aias_lab.Top.Cases.{master_port_retry-cases}
use aias_lab.Top.Boot.{master_port_retry, init}
use aias_lab.Top.Ready.{IsLayout, init-IsReady}
use aias_lab.Top.System.{
  System, connect, pipeline_of, Issue, pointers, Trace, fresh, event, port_retry, stage,
}

pub pointers-append :
    (xs : List Issue) (x : Issue) → pointers (xs ++ x ∷ []) ≡ pointers xs ++ x.ptr ∷ []
pointers-append [] x = refl
pointers-append (y ∷ xs) x = ap (λ (l : List ℕ). y.ptr ∷ l) (pointers-append xs x)

-- The SOC's packets and tokens before and after something that executes `new`.
record IsPassed (ports : MasterPort) (new : List ℕ) (s t : Soc ports) : Type 0 where
  token : tokens ports t ≤ 1
  passed :
      ports.contents t.port ++ waiting ports t ≡ ports.contents s.port ++ (waiting ports s ++ new)

module _ (ports : MasterPort) where
  exec-IsPassed :
      (tick p : ℕ) (s : Soc ports) {t : Soc ports} (e : ExecOneInstrEvent)
      (rest : List ExecOneInstrEvent)
      → s.events ≡ e ∷ rest
      → tokens ports s ≤ 1
      → exec_one_instr ports tick p (record s { events = rest }) ≡ ok t
      → IsPassed ports (p ∷ []) s t
  exec-IsPassed tick p s {t} e rest eq one h =
      let (nil, idle) = none_pending ports s eq one in
      let (i, _, c) = exec_one_instr-IsSent ports tick p (record s { events = rest }) nil idle h in
      record {
        token = one_left ports (is_hcf i.op) t c.token;
        passed =
            c.sent
            ∙ ap (λ (o : Option ℕ). ports.contents s.port ++ (pending_list o ++ p ∷ [])) (sym idle);
      }

  retry-IsPassed :
      (tick : ℕ) (s : Soc ports)
      → tokens ports s ≤ 1
      → IsPassed ports [] s (retry_send_inst_packet ports tick s)
  retry-IsPassed tick s one = elim (Option-cases s.cpu.pending_inst_packet) [
    | inl n ↦ subst (IsPassed ports [] s) (sym (retry_none ports tick s n)) (record {
      token = one;
      passed = ap (λ (l : List ℕ). ports.contents s.port ++ l) (sym (append-nil (waiting ports s)));
    })
    | inr (p, n) ↦
        let r = retry_some ports tick s p (no_events ports s p n one) n in
        record {
          token = r.token;
          passed =
              r.sent
              ∙ ap (λ (o : Option ℕ). ports.contents s.port ++ (pending_list o ++ [])) (sym n);
        }
  ]

  master_port_retry-IsPassed :
      (tick : ℕ) (port_name : List ℕ) (s : Soc ports)
      → tokens ports s ≤ 1
      → IsPassed ports [] s (master_port_retry ports tick port_name s)
  master_port_retry-IsPassed tick port_name s one =
      master_port_retry-cases ports (IsPassed ports [] s) tick port_name s
        (retry-IsPassed tick s one)
        (record {
          token = one;
          passed =
              ap (λ (l : List ℕ). ports.contents s.port ++ l) (sym (append-nil (waiting ports s)));
        })

module _ (ports : SimPort) (regs : PipeRegister) where
  -- Every packet on its way: in the registers, in the port, or pending in the CPU.
  abbrev pub carried : System ports regs → List ℕ
  carried s = in_flight ports regs (pipeline_of ports regs s) ++ waiting ports.master s.soc

  -- What holds after a trace, as long as the stages reported no error.
  pub record IsCarried (issued : List Issue) (s t : System ports regs) : Type 0 where
    pub one_token : tokens ports.master t.soc ≤ 1
    pub errors_le : s.errors ≤ t.errors
    pub in_order : t.errors ≡ s.errors → pointers issued ≡ carried t

  pub split : (r w i c l : List ℕ) → (r ++ (w ++ (i ++ c))) ++ l ≡ r ++ (w ++ (i ++ (c ++ l)))
  split r w i c l =
      append_assoc r (w ++ (i ++ c)) l
      ∙ ap (λ (x : List ℕ). r ++ x)
          (append_assoc w (i ++ c) l ∙ ap (λ (x : List ℕ). w ++ x) (append_assoc i c l))

  -- What the SOC hands on is carried behind the rest.
  passed-carried :
      (new : List ℕ) (t : System ports regs) {soc' : Soc ports.master}
      → IsPassed ports.master new t.soc soc'
      → carried (record t { soc = soc' }) ≡ carried t ++ new
  passed-carried new t {soc'} k =
      let front = λ (x : List ℕ). t.recycled ++ (regs.held t.exe_wb ++ (regs.held t.if_exe ++ x)) in
      split t.recycled (regs.held t.exe_wb) (regs.held t.if_exe) (ports.contents soc'.port)
        (waiting ports.master soc')
      ∙ ap front k.passed
      ∙ sym (
          append_assoc (in_flight ports regs (pipeline_of ports regs t))
            (waiting ports.master t.soc) new
          ∙ split t.recycled (regs.held t.exe_wb) (regs.held t.if_exe) (ports.contents t.soc.port)
              (waiting ports.master t.soc ++ new))

  stage-carried :
      (a : Action) (t : System ports regs)
      → IsMoved ports regs (pipeline_of ports regs t) (act ports regs a (pipeline_of ports regs t))
  stage-carried a t = act-IsMoved ports regs a (pipeline_of ports regs t)

  pub Trace-IsCarried :
      (s : System ports regs) {issued : List Issue} {t : System ports regs}
      → tokens ports.master s.soc ≤ 1
      → carried s ≡ []
      → Trace ports regs s issued t
      → IsCarried issued s t
  Trace-IsCarried s one none' fresh = record {
    one_token = one;
    errors_le = omega arith;
    in_order = λ _. sym none';
  }
  Trace-IsCarried s one none' (event {issued} {t} {soc'} r tick p i e rest eq fetched free h) =
      let k = Trace-IsCarried s one none' r in
      let m = exec-IsPassed ports.master tick p t.soc e rest eq k.one_token h in
      record {
        one_token = m.token;
        errors_le = k.errors_le;
        in_order = λ same.
            pointers-append issued (_)
            ∙ ap (λ (l : List ℕ). l ++ p ∷ []) (k.in_order same)
            ∙ sym (passed-carried (p ∷ []) t m);
      }
  Trace-IsCarried s one none' (port_retry {issued} {t} r tick port_name) =
      let k = Trace-IsCarried s one none' r in
      let m = master_port_retry-IsPassed ports.master tick port_name t.soc k.one_token in
      record {
        one_token = m.token;
        errors_le = k.errors_le;
        in_order = λ same. k.in_order same ∙ sym (passed-carried [] t m ∙ append-nil (carried t));
      }
  Trace-IsCarried s one none' (stage {issued} {t} r a) =
      let k = Trace-IsCarried s one none' r in
      let m = act-IsMoved ports regs a (pipeline_of ports regs t) in
      record {
        one_token = k.one_token;
        errors_le = omega (arith, k.errors_le, m.errors_le);
        in_order = λ same.
            k.in_order (omega (arith, k.errors_le, m.errors_le))
            ∙ ap (λ (l : List ℕ). l ++ waiting ports.master t.soc)
                (sym (m.same_order (omega (arith, k.errors_le, m.errors_le))));
      }

-- From an initialised program, with an empty port and empty pipe registers, whatever the kernel
-- does next: at most one instruction is on its way in the CPU, and as long as no stage reports an
-- error the packets executed are, in this order, those recycled, those in prEXE2WB, in prIF2EXE and
-- in the port, and the pending one.
pub init-IsCarried :
    (ports : SimPort) (regs : PipeRegister) (report : Reporter) (missing : Result (Unit {0}))
    (cfg : Config) (o : ℕ → ℕ → Operand) (buffer : List ℕ) (tick : ℕ)
    (file : Option (List (List ℕ))) (packets : Store) (port : ports.Port) (if_exe exe_wb : regs.Reg)
    {s : Soc ports.master} {t : System ports regs} {issued : List Issue}
    → IsLayout cfg
    → ((k j : ℕ) → IsWord (o k j).imm)
    → ports.contents port ≡ []
    → regs.held if_exe ≡ []
    → regs.held exe_wb ≡ []
    → init report missing ports.master cfg o buffer tick file packets port ≡ ok s
    → Trace ports regs (connect ports regs s if_exe exe_wb) issued t
    → IsCarried ports regs issued (connect ports regs s if_exe exe_wb) t
unfolding connect
init-IsCarried ports regs report missing cfg o buffer tick file packets port if_exe exe_wb {s} fits
      w empty e1 e2 booted r =
    let ready =
      (init-IsReady report missing cfg fits ports.master o buffer tick file packets port w empty).at
        s booted in
    Trace-IsCarried ports regs (connect ports regs s if_exe exe_wb) (omega (arith, ready.one_token))
      (split ports regs [] (regs.held exe_wb) (regs.held if_exe) (ports.contents s.port)
          (waiting ports.master s)
        ∙ rw (e1, e2) ready.nothing_sent)
      r
