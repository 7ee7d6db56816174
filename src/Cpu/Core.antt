-- ===== src/Cpu/Core.antt =====
-- The part of the SOC that its events compute with: the program, the registers, the data memory,
-- the pc and the count, without the port, the packets and the events; and `execOneInstr` on it.
use aias_lab.Prelude.{
  ℕ, zero, suc, ◌+◌, ◌/◌, ◌^◌, ◌<◌, ◌≡◌, refl, sym, ap, ◌∙◌, not, List, [], ◌∷◌, ◌++◌, ◌==◌,
  get_elem?, arith,
}
use aias_lab.Prelude.Result.{Result, ok, undefined, from_option, ◌>>=◌, bind-eq-ok, ok-injective}
use aias_lab.Prelude.Word.{add32}
use aias_lab.Instr.{Instr}
use aias_lab.Packet.{renew, set_pc}
use aias_lab.Port.{MasterPort}
use aias_lab.Cpu.Execute.{Exec, execute}
use aias_lab.Cpu.Cases.{retry-cases}
use aias_lab.Cpu.Commit.{
  schedule, Soc, fetch_instr, increment_inst_count, process_instr, exec_one_instr,
  retry_send_inst_packet,
}
use aias_lab.Cpu.Machine.{
  exec_of, increment_inst_count-ok, commit_instr-IsKept, retired, exec_one_instr-retired,
}
use aias_lab.Cpu.Program.{Entry}

pub record Core : Type 0 where
  pub imem : List Instr
  pub rf : List ℕ
  pub mem : List ℕ
  pub pc : ℕ
  pub inst_cnt : ℕ

-- A core and the instructions that led to it.
pub record CoreRun : Type 0 where
  pub core : Core
  pub log : List Entry

abbrev pub core_exec : Core → Exec
core_exec c = record { rf = c.rf; mem = c.mem; pc = c.pc; pc_next = add32 c.pc 4 }

abbrev pub core_executed : Core → Exec → Core
core_executed c e = record {
  imem = c.imem;
  rf = e.rf;
  mem = e.mem;
  pc = e.pc_next;
  inst_cnt = c.inst_cnt + 1;
}

abbrev pub core_logged : Instr → CoreRun → Exec → CoreRun
core_logged i r e = record {
  core = core_executed r.core e;
  log =
      r.log
      ++ record { inst = i; pc = r.core.pc; taken = not (e.pc_next == add32 r.core.pc 4) } ∷ [];
}

-- Fetch, execute and count, and nothing else. The count has no bound here.
unfoldable pub core_next : CoreRun → Result CoreRun
core_next r = do
  i ← from_option undefined (get_elem? r.core.imem (r.core.pc / 4))
  e ← execute i.op i (core_exec r.core)
  ok (core_logged i r e)

unfoldable pub core_run : ℕ → Core → Result CoreRun
core_run zero c = ok (record { core = c; log = [] })
core_run (suc n) c = core_run n c >>= core_next

pub core_run-inst_cnt :
    (n : ℕ) (c : Core) {r : CoreRun} → core_run n c ≡ ok r → r.core.inst_cnt ≡ c.inst_cnt + n
unfolding core_run core_next
core_run-inst_cnt zero c h =
    ap (λ (r : CoreRun). r.core.inst_cnt) (sym (ok-injective h)) ∙ omega arith
core_run-inst_cnt (suc n) c h =
    let (r, ran, h0) = bind-eq-ok (core_run n c) core_next h in
    let (i, _, h1) =
      bind-eq-ok (from_option undefined (get_elem? r.core.imem (r.core.pc / 4))) _ h0 in
    let (e, _, h2) = bind-eq-ok (execute i.op i (core_exec r.core)) _ h1 in
    ap (λ (t : CoreRun). t.core.inst_cnt) (sym (ok-injective h2))
    ∙ omega (arith, core_run-inst_cnt n c ran)

module _ (ports : MasterPort) where
  abbrev pub core : Soc ports → Core
  core s = record {
    imem = s.cpu.imem;
    rf = s.cpu.rf;
    mem = s.mem;
    pc = s.cpu.pc;
    inst_cnt = s.cpu.inst_cnt;
  }

  process_instr-core :
      (tick p : ℕ) (i : Instr) (s : Soc ports) {t : Soc ports}
      → process_instr ports tick i p s ≡ ok t
      → (e : Exec) × (execute i.op i (exec_of ports s) ≡ ok e) × (core t ≡ core_executed (core s) e)
  unfolding process_instr
  process_instr-core tick p i s h =
      let (count, counted, h0) = bind-eq-ok (increment_inst_count s.cpu.inst_cnt) _ h in
      let (e, runs, h1) = bind-eq-ok (execute i.op i (exec_of ports s)) _ h0 in
      let c = record s { cpu = record s.cpu { rf = e.rf; inst_cnt = count }; mem = e.mem } in
      let kept = commit_instr-IsKept ports tick i p c in
      (
        e,
        runs,
        sym (ap core (ok-injective h1)) ∙ λ j. record {
          imem = kept.imem j;
          rf = kept.rf j;
          mem = kept.mem j;
          pc = e.pc_next;
          inst_cnt = (kept.inst_cnt ∙ (increment_inst_count-ok s.cpu.inst_cnt counted).0) j;
        },
      )

  -- An event computes on the core alone.
  pub exec_one_instr-core_next :
      (tick p : ℕ) (i : Instr) (s : Soc ports) {t : Soc ports} (log : List Entry)
      → fetch_instr s.cpu s.cpu.pc ≡ ok i
      → exec_one_instr ports tick p s ≡ ok t
      → core_next (record { core = core s; log = log })
        ≡ ok (record {
          core = core t;
          log =
              log
              ++ record { inst = i; pc = s.cpu.pc; taken = not (t.cpu.pc == add32 s.cpu.pc 4) }
                ∷ [];
        })
  unfolding exec_one_instr core_next fetch_instr
  exec_one_instr-core_next tick p i s {t} log at_pc h =
      let (e, runs, same) =
        process_instr-core tick p i (record s { packets = set_pc (renew s.packets p i) p s.cpu.pc })
          (rw at_pc at h) in
      let behind : Core → Result CoreRun = λ c. ok (record {
        core = c;
        log =
            log ++ record { inst = i; pc = s.cpu.pc; taken = not (c.pc == add32 s.cpu.pc 4) } ∷ [];
      }) in
      rw (at_pc, runs) (ap behind (sym same))

  -- Where the core goes on, so does the event, if the count stays an int.
  pub core_next-exec_one_instr :
      (tick p : ℕ) (s : Soc ports) (log : List Entry) {r : CoreRun}
      → s.cpu.inst_cnt + 1 < 2 ^ 31
      → core_next (record { core = core s; log = log }) ≡ ok r
      → (i : Instr) × (t : Soc ports) × (fetch_instr s.cpu s.cpu.pc ≡ ok i)
        × (exec_one_instr ports tick p s ≡ ok t)
  unfolding core_next fetch_instr
  core_next-exec_one_instr tick p s log counts h =
      let (i, at_pc, h1) =
        bind-eq-ok (from_option undefined (get_elem? s.cpu.imem (s.cpu.pc / 4))) _ h in
      let (e, runs, _) = bind-eq-ok (execute i.op i (exec_of ports s)) _ h1 in
      (
        i,
        retired ports tick p i e s,
        at_pc,
        exec_one_instr-retired ports tick p i e s counts at_pc runs,
      )

  pub retry-core : (tick : ℕ) (s : Soc ports) → core (retry_send_inst_packet ports tick s) ≡ core s
  unfolding schedule
  retry-core tick s =
      retry-cases ports (λ (t : Soc ports). core t ≡ core s) tick s refl (λ _ _. refl)
        (λ _ _ _. refl) (λ _ _ _. refl)
