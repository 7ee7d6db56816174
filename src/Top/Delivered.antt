-- ===== src/Top/Delivered.antt =====
-- What the packets on their way to write-back hold, against the instructions executed.
use aias_lab.Prelude.{
  ℕ, ◌≤◌, ◌≡◌, refl, sym, ap, ◌∙◌, inl, inr, arith, false, not, ◌&&◌, List, [], ◌∷◌, ◌++◌, ◌==◌,
  Bool-cases, zero, suc, length, length-append, drop, All, All-both, All-drop, All-drop_le,
  All-drop_append, drop-append_self,
}
use mathlib.Core.Path.{subst}
use aias_lab.Packet.{InstPacket, Store}
use aias_lab.Port.{SimPort, MasterPort}
use aias_lab.Pipe.{PipeRegister}
use aias_lab.Cpu.Cases.{retry-cases}
use aias_lab.Cpu.Commit.{schedule, Soc, retry_send_inst_packet}
use aias_lab.Cpu.Sending.{tokens, waiting}
use aias_lab.Cpu.Machine.{exec_one_instr-IsPosted}
use aias_lab.Stage.Order.{Action, step_if, step_exe, step_wb, synchronise, act, act-IsMoved}
use aias_lab.Stage.Cases.{hazard, if_step_idle, if_step_stall, if_step_issue}
use aias_lab.Stage.Steps.{
  Pipeline, if_handler, if_step, exe_handler, exe_step, wb_handler, wb_step, run_sync_pipe_register,
}
use aias_lab.Top.Cases.{master_port_retry-cases}
use aias_lab.Top.Boot.{master_port_retry}
use aias_lab.Top.System.{
  System, pipeline_of, put_pipeline, moving, Issue, pointers, Trace, fresh, event, port_retry,
  stage,
}
use aias_lab.Top.Carried.{Trace-IsCarried, carried, split}

-- The packet of an issue holds its instruction, its pc and its branch flag.
pub record IsDescribed (packets : Store) (x : Issue) : Type 0 where
  pub inst : (packets x.ptr).inst ≡ x.inst
  pub pc : (packets x.ptr).pc ≡ x.pc
  pub taken : (packets x.ptr).is_taken_branch ≡ x.taken

drop-pointers : (n : ℕ) (xs : List Issue) → pointers (drop n xs) ≡ drop n (pointers xs)
drop-pointers zero xs = refl
drop-pointers (suc n) [] = refl
drop-pointers (suc n) (x ∷ xs) = drop-pointers n xs

-- A statement about the pointers of some issues, issue by issue.
All-pointers :
    (P : ℕ → Type 0) (xs : List Issue) → All P (pointers xs) → All (λ (x : Issue). P x.ptr) xs
All-pointers P [] a = tt
All-pointers P (x ∷ xs) a = (a.0, All-pointers P xs a.1)

module _ (ports : MasterPort) where
  retry-packets :
      (tick : ℕ) (s : Soc ports) → (retry_send_inst_packet ports tick s).packets ≡ s.packets
  unfolding schedule
  retry-packets tick s =
      retry-cases ports (λ (t : Soc ports). t.packets ≡ s.packets) tick s refl (λ _ _. refl)
        (λ _ _ _. refl) (λ _ _ _. refl)

  pub master_port_retry-packets :
      (tick : ℕ) (port_name : List ℕ) (s : Soc ports)
      → (master_port_retry ports tick port_name s).packets ≡ s.packets
  master_port_retry-packets tick port_name s =
      master_port_retry-cases ports (λ (t : Soc ports). t.packets ≡ s.packets) tick port_name s
        (retry-packets tick s) refl

module _ (ports : SimPort) (regs : PipeRegister) where
  -- The stages read packets and never write them, and recycled packets stay so.
  pub record IsRead (s t : Pipeline ports regs) : Type 0 where
    pub packets : t.packets ≡ s.packets
    pub more : length s.recycled ≤ length t.recycled

  if_step-IsRead : (s : Pipeline ports regs) → IsRead s (if_step ports regs s)
  unfolding if_handler
  if_step-IsRead s = elim (Bool-cases (ports.is_pop_valid s.port)) [
    | inl valid ↦ elim (Bool-cases (hazard ports regs s)) [
      | inl h ↦
          rw (if_step_stall ports regs s valid h) (record { packets = refl; more = omega arith })
      | inr h ↦
          rw (if_step_issue ports regs s valid h) (record { packets = refl; more = omega arith })
    ]
    | inr empty ↦
        rw (if_step_idle ports regs s empty) (record { packets = refl; more = omega arith })
  ]

  exe_step-IsRead : (s : Pipeline ports regs) → IsRead s (exe_step ports regs s)
  unfolding exe_step exe_handler
  exe_step-IsRead s = elim (Bool-cases (regs.is_valid s.if_exe && not (regs.is_stalled s.exe_wb))) [
    | inl go ↦ rw go (record { packets = refl; more = omega arith })
    | inr stay ↦ rw stay (record { packets = refl; more = omega arith })
  ]

  wb_step-IsRead : (s : Pipeline ports regs) → IsRead s (wb_step ports regs s)
  unfolding wb_step wb_handler
  wb_step-IsRead s = elim (Bool-cases (regs.is_valid s.exe_wb)) [
    | inl valid ↦ rw valid (record {
      packets = refl;
      more = omega (arith, length-append s.recycled ((regs.pop s.exe_wb).0 ∷ []));
    })
    | inr empty ↦ rw empty (record { packets = refl; more = omega arith })
  ]

  pub act-IsRead : (a : Action) (s : Pipeline ports regs) → IsRead s (act ports regs a s)
  unfolding run_sync_pipe_register
  act-IsRead step_if s = if_step-IsRead s
  act-IsRead step_exe s = exe_step-IsRead s
  act-IsRead step_wb s = wb_step-IsRead s
  act-IsRead synchronise s = record { packets = refl; more = omega arith }

  -- The issues whose packets are not yet recycled.
  abbrev pub active : List Issue → System ports regs → List Issue
  active issued t = drop (length t.recycled) issued

  abbrev pub AllDescribed : List Issue → System ports regs → Type 0
  AllDescribed issued t = All (IsDescribed t.soc.packets) (active issued t)

  -- Their packets are those on their way.
  active-pointers :
      (issued : List Issue) (t : System ports regs)
      → pointers issued ≡ carried ports regs t
      → pointers (active issued t) ≡ moving ports regs t
  active-pointers issued t e =
      drop-pointers (length t.recycled) issued
      ∙ ap (λ (l : List ℕ). drop (length t.recycled) l)
          (e
            ∙ split ports regs t.recycled (regs.held t.exe_wb) (regs.held t.if_exe)
                (ports.contents t.soc.port) (waiting ports.master t.soc))
      ∙ drop-append_self t.recycled (moving ports regs t)

  -- Writing a packet that is not among them leaves what the others describe.
  event-described :
      (issued : List Issue) (t : System ports regs) (soc' : Soc ports.master) (p : ℕ) (x : Issue)
      → All (λ (q : ℕ). (q == p) ≡ false) (pointers (active issued t))
      → ((q : ℕ) → (q == p) ≡ false → soc'.packets q ≡ t.soc.packets q)
      → IsDescribed soc'.packets x
      → AllDescribed issued t
      → AllDescribed (issued ++ x ∷ []) (record t { soc = soc' })
  event-described issued t soc' p x free others new old =
      All-drop_append (IsDescribed soc'.packets) (length t.recycled) issued x
        (All-both (active issued t)
          (λ y ne d. record {
            inst = ap (λ (k : InstPacket). k.inst) (others y.ptr ne) ∙ d.inst;
            pc = ap (λ (k : InstPacket). k.pc) (others y.ptr ne) ∙ d.pc;
            taken = ap (λ (k : InstPacket). k.is_taken_branch) (others y.ptr ne) ∙ d.taken;
          })
          (All-pointers (λ (q : ℕ). (q == p) ≡ false) (active issued t) free) old)
        new

  stage-described :
      (issued : List Issue) (t : System ports regs) (a : Action)
      → AllDescribed issued t
      → AllDescribed issued
          (put_pipeline ports regs (act ports regs a (pipeline_of ports regs t)) t)
  stage-described issued t a d =
      let k = act-IsRead a (pipeline_of ports regs t) in
      let next = act ports regs a (pipeline_of ports regs t) in
      All-drop_le (IsDescribed next.packets) (length t.recycled) (length next.recycled) issued
        k.more
        (subst (λ (store : Store). All (IsDescribed store) (active issued t)) (sym k.packets) d)

  -- From a state with at most one event or pending packet and nothing on its way, whatever the
  -- kernel does, as long as no stage reports an error: the packets on their way are those of the
  -- issues that are not yet recycled, in order, and each holds the instruction that was executed,
  -- the pc at which it was fetched, and whether the CPU jumped.
  pub Trace-AllDescribed :
      (s : System ports regs) {issued : List Issue} {t : System ports regs}
      → tokens ports.master s.soc ≤ 1
      → carried ports regs s ≡ []
      → Trace ports regs s issued t
      → t.errors ≡ s.errors
      → (pointers (active issued t) ≡ moving ports regs t) × AllDescribed issued t
  Trace-AllDescribed s {issued} {t} one none' r same = (
    active-pointers issued t ((Trace-IsCarried ports regs s one none' r).in_order same),
    described r same,
  )
    where
      described :
          {issued : List Issue} {t : System ports regs}
          → Trace ports regs s issued t
          → t.errors ≡ s.errors
          → AllDescribed issued t
      described fresh same = All-drop (IsDescribed s.soc.packets) (length s.recycled) [] tt
      described (event {issued} {t} {soc'} r tick p i e rest eq fetched free h) same =
          let d = described r same in
          let posted =
            exec_one_instr-IsPosted ports.master tick p i (record t.soc { events = rest }) fetched
              h in
          let order =
            active-pointers issued t ((Trace-IsCarried ports regs s one none' r).in_order same) in
          event-described issued t soc' p _
            (subst (All (λ (q : ℕ). (q == p) ≡ false)) (sym order) free) posted.others
            (record { inst = posted.inst; pc = posted.pc; taken = posted.taken }) d
      described (port_retry {issued} {t} r tick port_name) same =
          subst (λ (store : Store). All (IsDescribed store) (active issued t))
            (sym (master_port_retry-packets ports.master tick port_name t.soc)) (described r same)
      described (stage {issued} {t} r a) same =
          let k = Trace-IsCarried ports regs s one none' r in
          let m = act-IsMoved ports regs a (pipeline_of ports regs t) in
          stage-described issued t a (described r (omega (arith, k.errors_le, m.errors_le)))
