-- ===== src/Cpu/Sending.antt =====
-- How an executed instruction is handed on: what `commitInstr` and `retrySendInstPacket` do to the
-- port, the pending packet and the events.
use aias_lab.Prelude.{
  ℕ, suc, ◌+◌, ◌≤◌, ◌≡◌, refl, ap, ◌∙◌, arith, Bool, true, false, Option, none, some, List, [], ◌∷◌,
  ◌++◌, if◌then◌else◌, length,
}
use mathlib.Core.Path.{subst}
use mathlib.Core.List.{append-nil}
use aias_lab.Prelude.Result.{ok, bind-eq-ok, ok-injective}
use aias_lab.Prelude.Word.{add32}
use aias_lab.Instr.{Instr}
use aias_lab.Packet.{renew, set_pc}
use aias_lab.Port.{MasterPort}
use aias_lab.Cpu.Execute.{Exec, execute}
use aias_lab.Cpu.Cases.{commit_instr-cases, retry_some-cases}
use aias_lab.Cpu.Commit.{
  increment_inst_count, schedule, ExecOneInstrEvent, Soc, is_hcf, commit_instr, process_instr,
  exec_one_instr, fetch_instr, retry_send_inst_packet,
}

abbrev pub pending_list : Option ℕ → List ℕ
pending_list none = []
pending_list (some p) = p ∷ []

nil-of_length {ℓ} : {A : Type ℓ} (xs : List A) → length xs ≤ 0 → xs ≡ []
nil-of_length [] h = refl
nil-of_length (x ∷ xs) h = absurd (omega arith)

singleton-of_length {ℓ} : {A : Type ℓ} (xs : List A) → length xs ≡ 1 → (x : A) × (xs ≡ x ∷ [])
singleton-of_length [] h = absurd (omega arith)
singleton-of_length (x ∷ xs) h = (x, ap (λ l. x ∷ l) (nil-of_length xs (omega arith)))

waiting_le : (o : Option ℕ) → length (pending_list o) ≤ 1
waiting_le none = omega arith
waiting_le (some p) = omega arith

none-of_length : (o : Option ℕ) → length (pending_list o) ≤ 0 → o ≡ none
none-of_length none h = refl
none-of_length (some p) h = absurd (omega arith)

module _ (ports : MasterPort) where
  open ports use {Port, contents, push, push_accepted, push_refused}

  abbrev pub waiting : Soc ports → List ℕ
  waiting s = pending_list s.cpu.pending_inst_packet

  -- The events scheduled and the packets that wait for a retry.
  abbrev pub tokens : Soc ports → ℕ
  tokens s = length s.events + length (waiting s)

  -- What `commitInstr` does to the token and to the packets, when nothing else was on its way.
  pub record IsSent (p : ℕ) (halt : Bool) (s t : Soc ports) : Type 0 where
    pub sent : contents t.port ++ waiting t ≡ contents s.port ++ p ∷ []
    pub token : tokens t ≡ (if halt then length (waiting t) else 1)

  commit_instr-IsSent :
      (tick : ℕ) (i : Instr) (p : ℕ) (s : Soc ports)
      → s.events ≡ []
      → s.cpu.pending_inst_packet ≡ none
      → IsSent p (is_hcf i.op) s (commit_instr ports tick i p s)
  unfolding schedule
  commit_instr-IsSent tick i p s e n =
      let accepted = λ (h : (push s.port p).0 ≡ true).
        ap (λ (o : Option ℕ). contents (push s.port p).1 ++ pending_list o) n
        ∙ append-nil (contents (push s.port p).1)
        ∙ push_accepted s.port p h in
      commit_instr-cases ports (IsSent p (is_hcf i.op) s) tick i p s
        (λ no'. record {
          sent = rw (push_refused s.port p no');
          token = rw e (one_token (is_hcf i.op));
        })
        (λ yes' halt. record { sent = accepted yes'; token = rw (halt, e, n) refl })
        (λ yes' more. record { sent = accepted yes'; token = rw (more, e, n) refl })
    where
      one_token : (halt : Bool) → ◌≡◌ {A = ℕ} 1 (if halt then 1 else 1)
      one_token true = refl
      one_token false = refl

  process_instr-IsSent :
      (tick : ℕ) (i : Instr) (p : ℕ) (s : Soc ports) {t : Soc ports}
      → s.events ≡ []
      → s.cpu.pending_inst_packet ≡ none
      → process_instr ports tick i p s ≡ ok t
      → IsSent p (is_hcf i.op) s t
  unfolding process_instr
  process_instr-IsSent tick i p s e n h =
      let before : Exec = record {
        rf = s.cpu.rf;
        mem = s.mem;
        pc = s.cpu.pc;
        pc_next = add32 s.cpu.pc 4;
      } in
      let (count, _, h0) = bind-eq-ok (increment_inst_count s.cpu.inst_cnt) _ h in
      let (x, executed, h1) = bind-eq-ok (execute i.op i before) _ h0 in
      let cpu' = record s.cpu { rf = x.rf; inst_cnt = count } in
      let c = commit_instr-IsSent tick i p (record s { cpu = cpu'; mem = x.mem }) e n in
      subst (IsSent p (is_hcf i.op) s) (ok-injective h1) (record { sent = c.sent; token = c.token })

  pub one_left :
      (halt : Bool) (t : Soc ports)
      → tokens t ≡ (if halt then length (waiting t) else 1)
      → tokens t ≤ 1
  one_left true t e = omega (arith, waiting_le t.cpu.pending_inst_packet)
  one_left false t e = omega arith

  -- `execOneInstr` with nothing else on its way hands its packet on, behind the earlier ones. The
  -- token is passed on by a next event or a pending packet, and given up only when HCF is sent.
  pub exec_one_instr-IsSent :
      (tick p : ℕ) (s : Soc ports) {t : Soc ports}
      → s.events ≡ []
      → s.cpu.pending_inst_packet ≡ none
      → exec_one_instr ports tick p s ≡ ok t
      → (i : Instr) × (fetch_instr s.cpu s.cpu.pc ≡ ok i) × IsSent p (is_hcf i.op) s t
  unfolding exec_one_instr
  exec_one_instr-IsSent tick p s e n h =
      let (i, fetched, h1) = bind-eq-ok (fetch_instr s.cpu s.cpu.pc) _ h in
      let s' = record s { packets = set_pc (renew s.packets p i) p s.cpu.pc } in
      let c = process_instr-IsSent tick i p s' e n h1 in
      (i, fetched, record { sent = c.sent; token = c.token })

  -- A retry is idle with nothing pending. Otherwise it hands the packet on, and schedules the next
  -- instruction unless the packet is HCF's; a refused packet stays pending.
  pub record IsRetried (p : ℕ) (s t : Soc ports) : Type 0 where
    pub sent : contents t.port ++ waiting t ≡ contents s.port ++ p ∷ []
    pub token : tokens t ≤ 1

  pub retry_some :
      (tick : ℕ) (s : Soc ports) (p : ℕ)
      → s.events ≡ []
      → s.cpu.pending_inst_packet ≡ some p
      → IsRetried p s (retry_send_inst_packet ports tick s)
  unfolding schedule
  retry_some tick s p e n =
      let accepted = λ (h : (push s.port p).0 ≡ true).
        append-nil (contents (push s.port p).1) ∙ push_accepted s.port p h in
      retry_some-cases ports (IsRetried p s) tick p s n
        (λ no'. record {
          sent = rw (n, push_refused s.port p no');
          token = rw (e, n) (omega arith);
        })
        (λ yes' _. record { sent = accepted yes'; token = rw e (omega arith) })
        (λ yes' _. record { sent = accepted yes'; token = rw e (omega arith) })

  pub retry_none :
      (tick : ℕ) (s : Soc ports)
      → s.cpu.pending_inst_packet ≡ none
      → retry_send_inst_packet ports tick s ≡ s
  unfolding retry_send_inst_packet
  retry_none tick s n = ground arith

  pub no_events :
      (s : Soc ports) (p : ℕ) → s.cpu.pending_inst_packet ≡ some p → tokens s ≤ 1 → s.events ≡ []
  no_events s p n one =
      nil-of_length s.events (omega (arith, ap (λ (o : Option ℕ). length (pending_list o)) n))

  pub one_event :
      (s : Soc ports)
      → s.cpu.pending_inst_packet ≡ none
      → tokens s ≡ 1
      → (e : ExecOneInstrEvent) × (s.events ≡ e ∷ [])
  one_event s idle one =
      singleton-of_length s.events
        (omega (arith, one, ap (λ (o : Option ℕ). length (pending_list o)) idle))

  pub none_pending :
      (s : Soc ports) {e : ExecOneInstrEvent} {rest : List ExecOneInstrEvent}
      → s.events ≡ e ∷ rest
      → tokens s ≤ 1
      → (rest ≡ []) × (s.cpu.pending_inst_packet ≡ none)
  none_pending s {rest = rest} eq one =
      let len : length s.events ≡ suc (length rest) = ap length eq in
      (nil-of_length rest (omega arith), none-of_length s.cpu.pending_inst_packet (omega arith))
