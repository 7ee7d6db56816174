-- ===== src/Cpu/Machine.antt =====
-- One event of the CPU as a whole: `execOneInstr` fetches, executes and commits, against one step
-- of the abstract machine.
use aias_lab.Prelude.{
  ℕ, ◌+◌, ◌^◌, ◌<◌, ◌≡◌, refl, ap, sym, ◌∙◌, arith, false, not, List, ◌==◌, if◌then◌else◌, get_or,
  Option,
}
use mathlib.Core.Path.{subst}
use aias_lab.Prelude.Result.{ok, bind-eq-ok, ok-injective}
use aias_lab.Prelude.Word.{add32}
use aias_lab.Instr.{Instr}
use aias_lab.Isa.{Arch, step}
use aias_lab.Packet.{Store, renew, set_pc, set_taken}
use aias_lab.Port.{MasterPort}
use aias_lab.Cpu.Execute.{Exec, execute}
use aias_lab.Cpu.Invariant.{IsInstr}
use aias_lab.Cpu.View.{view_next, fields, IsLegal}
use aias_lab.Cpu.Shapes.{IsStart}
use aias_lab.Cpu.Refines.{execute-step}
use aias_lab.Cpu.Cases.{commit_instr-cases}
use aias_lab.Cpu.Commit.{
  schedule, ExecOneInstrEvent, Soc, increment_inst_count, fetch_instr, commit_instr, process_instr,
  exec_one_instr,
}

-- A count below the largest int is incremented, and no other.
pub increment_inst_count-ok :
    (n : ℕ) {m : ℕ} → increment_inst_count n ≡ ok m → (m ≡ n + 1) × (n + 1 < 2 ^ 31)
unfolding increment_inst_count
increment_inst_count-ok n h = (ground arith, ground arith)

pub increment_inst_count-lt : (n : ℕ) → n + 1 < 2 ^ 31 → increment_inst_count n ≡ ok (n + 1)
unfolding increment_inst_count
increment_inst_count-lt n h = ground arith

module _ (ports : MasterPort) where
  -- The state that the switch starts from.
  abbrev pub exec_of : Soc ports → Exec
  exec_of s = record { rf = s.cpu.rf; mem = s.mem; pc = s.cpu.pc; pc_next = add32 s.cpu.pc 4 }

  abbrev pub soc_view : Soc ports → Arch
  soc_view s = record {
    regs = λ r. get_or s.cpu.rf r 0;
    bytes = λ j. get_or s.mem j 0;
    pc = s.cpu.pc;
  }

  -- What one event leaves behind: the state of the abstract machine, one more instruction counted,
  -- and a packet with the instruction, its pc and whether it jumped; other packets are untouched.
  pub record IsRetired (p : ℕ) (i : Instr) (s t : Soc ports) : Type 0 where
    pub arch : soc_view t ≡ step i.op (fields i.op i) (soc_view s)
    pub counted : t.cpu.inst_cnt ≡ s.cpu.inst_cnt + 1
    pub program : t.cpu.imem ≡ s.cpu.imem
    pub inst : (t.packets p).inst ≡ i
    pub pc : (t.packets p).pc ≡ s.cpu.pc
    pub taken : (t.packets p).is_taken_branch ≡ not (t.cpu.pc == add32 s.cpu.pc 4)
    pub others : (q : ℕ) → (q == p) ≡ false → t.packets q ≡ s.packets q

  -- The parts of the state that `commitInstr` leaves alone.
  pub record IsKept (s t : Soc ports) : Type 0 where
    pub rf : t.cpu.rf ≡ s.cpu.rf
    pub imem : t.cpu.imem ≡ s.cpu.imem
    pub inst_cnt : t.cpu.inst_cnt ≡ s.cpu.inst_cnt
    pub mem : t.mem ≡ s.mem
    pub packets : t.packets ≡ s.packets

  pub commit_instr-IsKept :
      (tick : ℕ) (i : Instr) (p : ℕ) (s : Soc ports) → IsKept s (commit_instr ports tick i p s)
  unfolding schedule
  commit_instr-IsKept tick i p s =
      commit_instr-cases ports (IsKept s) tick i p s (λ _. kept) (λ _ _. kept) (λ _ _. kept)
    where
      kept :
          {port' : ports.Port} {events' : List ExecOneInstrEvent} {pending : Option ℕ}
          → IsKept s (record s {
            cpu = record s.cpu { pending_inst_packet = pending };
            port = port';
            events = events';
          })
      kept = record { rf = refl; imem = refl; inst_cnt = refl; mem = refl; packets = refl }

  -- The state in which `processInstr` calls `commitInstr`.
  committing : ℕ → Instr → Exec → Soc ports → Soc ports
  committing p i e s = record s {
    cpu = record s.cpu { rf = e.rf; inst_cnt = s.cpu.inst_cnt + 1 };
    mem = e.mem;
    packets = set_pc (renew s.packets p i) p s.cpu.pc;
  }

  flagged : ℕ → ℕ → ℕ → Store → Store
  flagged p v w store = if v == w then store else set_taken store p

  pub retired : ℕ → ℕ → Instr → Exec → Soc ports → Soc ports
  unfolding committing flagged
  retired tick p i e s =
      let u = commit_instr ports tick i p (committing p i e s) in
      record u {
        cpu = record u.cpu { pc = e.pc_next };
        packets = flagged p e.pc_next (add32 s.cpu.pc 4) u.packets;
      }

  pub exec_one_instr-retired :
      (tick p : ℕ) (i : Instr) (e : Exec) (s : Soc ports)
      → s.cpu.inst_cnt + 1 < 2 ^ 31
      → fetch_instr s.cpu s.cpu.pc ≡ ok i
      → execute i.op i (exec_of s) ≡ ok e
      → exec_one_instr ports tick p s ≡ ok (retired tick p i e s)
  unfolding exec_one_instr process_instr retired
  exec_one_instr-retired tick p i e s counts fetched runs =
      rw fetched (rw (increment_inst_count-lt s.cpu.inst_cnt counts) (rw runs refl))

  flagged_lem :
      (p q v w : ℕ) (store : Store)
      → ((flagged p v w store p).inst ≡ (store p).inst)
        × ((flagged p v w store p).pc ≡ (store p).pc)
        × ((store p).is_taken_branch ≡ false
            → (flagged p v w store p).is_taken_branch ≡ not (v == w))
        × ((q == p) ≡ false → flagged p v w store q ≡ store q)
  unfolding flagged
  flagged_lem p q v w store = (ground arith, ground arith, λ h. ground arith, λ h. ground arith)

  -- The packet before the flag: freshly renewed.
  committing-packet :
      (p q : ℕ) (i : Instr) (e : Exec) (s : Soc ports)
      → (((committing p i e s).packets p).inst ≡ i)
        × (((committing p i e s).packets p).pc ≡ s.cpu.pc)
        × (((committing p i e s).packets p).is_taken_branch ≡ false)
        × ((q == p) ≡ false → (committing p i e s).packets q ≡ s.packets q)
  unfolding committing renew
  committing-packet p q i e s = (ground arith, ground arith, ground arith, λ h. ground arith)

  -- The packet of an event, with the next pc of the CPU, and the packets that it leaves alone.
  pub record IsPosted (p : ℕ) (i : Instr) (s t : Soc ports) : Type 0 where
    pub inst : (t.packets p).inst ≡ i
    pub pc : (t.packets p).pc ≡ s.cpu.pc
    pub taken : (t.packets p).is_taken_branch ≡ not (t.cpu.pc == add32 s.cpu.pc 4)
    pub others : (q : ℕ) → (q == p) ≡ false → t.packets q ≡ s.packets q

  retired-IsPosted :
      (tick p : ℕ) (i : Instr) (e : Exec) (s : Soc ports) → IsPosted p i s (retired tick p i e s)
  unfolding retired
  retired-IsPosted tick p i e s =
      let c = committing p i e s in
      let u = commit_instr ports tick i p c in
      let k = commit_instr-IsKept tick i p c in
      let at = λ (q : ℕ). flagged_lem p q e.pc_next (add32 s.cpu.pc 4) u.packets in
      let new = λ (q : ℕ). committing-packet p q i e s in
      record {
        inst = (at p).0 ∙ ap (λ (store : Store). (store p).inst) k.packets ∙ (new p).0;
        pc = (at p).1 ∙ ap (λ (store : Store). (store p).pc) k.packets ∙ (new p).1;
        taken = (at p).2 (ap (λ (store : Store). (store p).is_taken_branch) k.packets ∙ (new p).2);
        others = λ q ne. (at q).3 ne ∙ ap (λ (store : Store). store q) k.packets ∙ (new q).3 ne;
      }

  -- Whatever the instruction, if the event succeeds.
  pub exec_one_instr-IsPosted :
      (tick p : ℕ) (i : Instr) (s : Soc ports) {t : Soc ports}
      → fetch_instr s.cpu s.cpu.pc ≡ ok i
      → exec_one_instr ports tick p s ≡ ok t
      → IsPosted p i s t
  unfolding exec_one_instr process_instr
  exec_one_instr-IsPosted tick p i s {t} fetched h =
      let (j, fetched', h1) = bind-eq-ok (fetch_instr s.cpu s.cpu.pc) _ h in
      let same : j ≡ i = ok-injective (sym fetched' ∙ fetched) in
      let (count, counted, h0) = bind-eq-ok (increment_inst_count s.cpu.inst_cnt) _ h1 in
      let counts = (increment_inst_count-ok s.cpu.inst_cnt counted).1 in
      let (e, runs, _) = bind-eq-ok (execute j.op j (exec_of s)) _ h0 in
      let is_retired =
        ok-injective (sym (exec_one_instr-retired tick p j e s counts fetched' runs) ∙ h) in
      subst (λ (k : Instr). IsPosted p k s t) same
        (subst (IsPosted p j s) is_retired (retired-IsPosted tick p j e s))

  pub exec_one_instr-IsRetired :
      {size : ℕ} (tick p : ℕ) (i : Instr) (s : Soc ports)
      → s.cpu.inst_cnt + 1 < 2 ^ 31
      → fetch_instr s.cpu s.cpu.pc ≡ ok i
      → IsStart size (exec_of s)
      → IsInstr i
      → IsLegal i.op i (exec_of s)
      → (t : Soc ports) × (exec_one_instr ports tick p s ≡ ok t) × IsRetired p i s t
  unfolding retired
  exec_one_instr-IsRetired tick p i s counts fetched st enc legal =
      let y = execute-step i.op i (exec_of s) st enc legal in
      let e = y.next in
      let k = commit_instr-IsKept tick i p (committing p i e s) in
      let posted = retired-IsPosted tick p i e s in
      let seen : soc_view (retired tick p i e s) ≡ view_next e = λ j. record {
        regs = λ r. get_or (k.rf j) r 0;
        bytes = λ b. get_or (k.mem j) b 0;
        pc = e.pc_next;
      } in
      (
        retired tick p i e s,
        exec_one_instr-retired tick p i e s counts fetched y.runs,
        record {
          arch = seen ∙ y.agrees;
          counted = k.inst_cnt;
          program = k.imem;
          inst = posted.inst;
          pc = posted.pc;
          taken = posted.taken;
          others = posted.others;
        },
      )
