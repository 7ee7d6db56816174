-- ===== src/Cpu/Protocol.antt =====
-- How the CPU's methods are called: the simulator processes a scheduled event by `execOneInstr`,
-- calls `masterPortRetry` at any time, and the IF stage takes packets from the port.
use aias_lab.Prelude.{
  ℕ, ◌≤◌, ◌≡◌, sym, ap, ◌∙◌, inl, inr, Option, List, [], ◌∷◌, ◌++◌, Option-cases,
}
use mathlib.Core.List.{append-nil, append_assoc}
use aias_lab.Prelude.Result.{ok}
use aias_lab.Port.{MasterPort}
use aias_lab.Cpu.Commit.{ExecOneInstrEvent, Soc, is_hcf, exec_one_instr, retry_send_inst_packet}
use aias_lab.Cpu.Sending.{
  pending_list, waiting, tokens, exec_one_instr-IsSent, one_left, none_pending, no_events,
  retry_some, retry_none,
}

module _ (ports : MasterPort) where
  open ports use {Port, contents, push, push_accepted, push_refused}

  -- The packets executed and the packets taken from the port, each oldest first.
  pub data Run (s : Soc ports) : List ℕ → List ℕ → Soc ports → Type 0 where
    start : Run s [] [] s
    exec :
        {issued taken : List ℕ} {t u : Soc ports}
        → Run s issued taken t
        → (tick p : ℕ) (e : ExecOneInstrEvent) (rest : List ExecOneInstrEvent) → t.events ≡ e ∷ rest
        → exec_one_instr ports tick p (record t { events = rest }) ≡ ok u
        → Run s (issued ++ p ∷ []) taken u
    retry :
        {issued taken : List ℕ} {t : Soc ports}
        → Run s issued taken t
        → (tick : ℕ) → Run s issued taken (retry_send_inst_packet ports tick t)
    take :
        {issued taken : List ℕ} {t : Soc ports}
        → Run s issued taken t
        → (x : ℕ) (port' : Port) → contents t.port ≡ x ∷ contents port'
        → Run s issued (taken ++ x ∷ []) (record t { port = port' })

  -- At most one instruction is on its way, and every packet executed is taken, in the port or
  -- pending, in the order of execution.
  pub record IsOrdered (issued taken : List ℕ) (s : Soc ports) : Type 0 where
    pub one_token : tokens ports s ≤ 1
    pub in_order : issued ≡ taken ++ (contents s.port ++ waiting ports s)

  retry-IsOrdered :
      {issued taken : List ℕ} (tick : ℕ) (s : Soc ports)
      → IsOrdered issued taken s
      → IsOrdered issued taken (retry_send_inst_packet ports tick s)
  retry-IsOrdered {taken = taken} tick s o = elim (Option-cases s.cpu.pending_inst_packet) [
    | inl n ↦ rw (retry_none ports tick s n) o
    | inr (p, n) ↦
        let r = retry_some ports tick s p (no_events ports s p n o.one_token) n in
        record {
          one_token = r.token;
          in_order =
              o.in_order
              ∙ ap (λ (l : List ℕ). taken ++ l)
                  (ap (λ (w : Option ℕ). contents s.port ++ pending_list w) n ∙ sym r.sent);
        }
  ]

  exec-IsOrdered :
      {issued taken : List ℕ} (tick p : ℕ) (s : Soc ports) {t : Soc ports} (e : ExecOneInstrEvent)
      (rest : List ExecOneInstrEvent)
      → s.events ≡ e ∷ rest
      → IsOrdered issued taken s
      → exec_one_instr ports tick p (record s { events = rest }) ≡ ok t
      → IsOrdered (issued ++ p ∷ []) taken t
  exec-IsOrdered {issued} {taken} tick p s {t} e rest eq o h =
      let (nil, idle) = none_pending ports s eq o.one_token in
      let (i, _, c) = exec_one_instr-IsSent ports tick p (record s { events = rest }) nil idle h in
      let empty : waiting ports s ≡ [] = ap pending_list idle in
      record {
        one_token = one_left ports (is_hcf i.op) t c.token;
        in_order =
            ap (λ (l : List ℕ). l ++ p ∷ [])
              (o.in_order
                ∙ ap (λ (w : List ℕ). taken ++ (contents s.port ++ w)) empty
                ∙ ap (λ (l : List ℕ). taken ++ l) (append-nil (contents s.port)))
            ∙ append_assoc taken (contents s.port) (p ∷ [])
            ∙ ap (λ (l : List ℕ). taken ++ l) (sym c.sent);
      }

  take-IsOrdered :
      {issued taken : List ℕ} (s : Soc ports) (x : ℕ) (port' : Port)
      → contents s.port ≡ x ∷ contents port'
      → IsOrdered issued taken s
      → IsOrdered issued (taken ++ x ∷ []) (record s { port = port' })
  take-IsOrdered {taken = taken} s x port' eq o = record {
    one_token = o.one_token;
    in_order =
        o.in_order
        ∙ ap (λ (l : List ℕ). taken ++ (l ++ waiting ports s)) eq
        ∙ sym (append_assoc taken (x ∷ []) (contents port' ++ waiting ports s));
  }

  -- From a state with one event and nothing in the port, every sequence of events, retries and
  -- takes keeps at most one instruction on its way, and the packets executed are, in their order,
  -- those taken, then those in the port, then the pending one.
  pub Run-IsOrdered :
      (s : Soc ports) {issued taken : List ℕ} {t : Soc ports}
      → tokens ports s ≤ 1
      → contents s.port ++ waiting ports s ≡ []
      → Run s issued taken t
      → IsOrdered issued taken t
  Run-IsOrdered s one idle start = record { one_token = one; in_order = sym idle }
  Run-IsOrdered s one idle (exec r tick p e rest eq h) =
      exec-IsOrdered tick p _ e rest eq (Run-IsOrdered s one idle r) h
  Run-IsOrdered s one idle (retry r tick) = retry-IsOrdered tick _ (Run-IsOrdered s one idle r)
  Run-IsOrdered s one idle (take r x port' eq) =
      take-IsOrdered _ x port' eq (Run-IsOrdered s one idle r)
