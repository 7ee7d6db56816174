-- ===== src/Cpu/Commit.antt =====
-- The rest of CPU.cc: `execOneInstr`, `processInstr`, `commitInstr` and `retrySendInstPacket`.
-- What they send to the simulator, the events to schedule and the CLASS_ERROR messages, is
-- recorded in the state.
use aias_lab.Prelude.{
  ℕ, ◌+◌, ◌/◌, ◌^◌, ltb, Bool, true, false, not, Option, none, some, List, [], ◌∷◌, ◌++◌, ◌==◌,
  if◌then◌else◌, get_elem?, replicate,
}
use aias_lab.Prelude.Result.{undefined, Result, ok, err, from_option, ◌>>=◌}
use aias_lab.Prelude.Word.{add32}
use aias_lab.Instr.{InstrType, hcf, Operand, Instr, fresh_imem}
use aias_lab.Packet.{Store, renew, set_pc, set_taken}
use aias_lab.Port.{MasterPort}
use aias_lab.Cpu.Execute.{execute}

-- `op == HCF`.
abbrev pub is_hcf : InstrType → Bool
is_hcf hcf = true
is_hcf _ = false

-- An ExecOneInstrEvent: the id that `renew` is given, and ignores, and the tick for which it is
-- scheduled.
pub record ExecOneInstrEvent : Type 0 where
  pub id : ℕ
  pub when : ℕ

-- The fields of `CPU`. `inst_cnt` is an int that starts at 0 and only grows.
pub record Cpu : Type 0 where
  pub imem : List Instr
  pub rf : List ℕ
  pub pc : ℕ
  pub inst_cnt : ℕ
  pub pending_inst_packet : Option ℕ

-- The constructor; `o` gives what it leaves uninitialised in each entry.
unfoldable pub new_cpu : ℕ → (ℕ → ℕ → Operand) → Cpu
unfolding fresh_imem
new_cpu data_offset o = record {
  imem = fresh_imem o 0 (data_offset / 4);
  rf = replicate 32 0;
  pc = 0;
  inst_cnt = 0;
  pending_inst_packet = none;
}

-- `fetchInstr`.
unfoldable pub fetch_instr : Cpu → ℕ → Result Instr
fetch_instr c pc = from_option undefined (get_elem? c.imem (pc / 4))

-- `incrementInstCount`, which is undefined at the largest int.
unfoldable pub increment_inst_count : ℕ → Result ℕ
increment_inst_count n = if ltb (n + 1) (2 ^ 31) then ok (n + 1) else err undefined

module _ (ports : MasterPort) where
  open ports use {Port, push}

  -- What the CPU's methods read and write: the CPU, the data memory, the packets, the master port,
  -- the events scheduled, and the number of CLASS_ERROR messages.
  pub record Soc : Type 0 where
    pub cpu : Cpu
    pub mem : List ℕ
    pub packets : Store
    pub port : Port
    pub events : List ExecOneInstrEvent
    pub errors : ℕ

  -- `scheduleEvent` of a renewed event, for the next tick.
  unfoldable pub schedule : ℕ → Soc → Soc
  schedule tick s = record s {
    events = s.events ++ record { id = s.cpu.inst_cnt; when = tick + 1 } ∷ [];
  }

  abbrev pub set_pending : Option ℕ → Soc → Soc
  set_pending o s = record s { cpu = record s.cpu { pending_inst_packet = o } }

  -- `commitInstr`, on the answer of `push`.
  unfoldable pub commit_instr : ℕ → Instr → ℕ → Soc → Soc
  unfolding schedule
  commit_instr tick i p s =
      let (sent, port') = push s.port p in
      let s' = record s { port = port' } in
      if is_hcf i.op
      then if not sent then set_pending (some p) s' else s'
      else if sent
      then schedule tick s'
      else set_pending (some p) s'

  -- `processInstr`. The flag is written through the pointer, after the packet was sent.
  unfoldable pub process_instr : ℕ → Instr → ℕ → Soc → Result Soc
  unfolding commit_instr increment_inst_count
  process_instr tick i p s = do
    let c = s.cpu
    count ← increment_inst_count c.inst_cnt
    let pc_next = add32 c.pc 4
    e ← execute i.op i (record { rf = c.rf; mem = s.mem; pc = c.pc; pc_next = pc_next })
    let t = record s { cpu = record c { rf = e.rf; inst_cnt = count }; mem = e.mem }
    let u = commit_instr tick i p t
    let store = if e.pc_next == pc_next then u.packets else set_taken u.packets p
    ok (record u { cpu = record u.cpu { pc = e.pc_next }; packets = store })

  -- `execOneInstr`, with the packet `p` that the recycle container hands out.
  unfoldable pub exec_one_instr : ℕ → ℕ → Soc → Result Soc
  unfolding fetch_instr process_instr renew
  exec_one_instr tick p s = do
    i ← fetch_instr s.cpu s.cpu.pc
    process_instr tick i p (record s { packets = set_pc (renew s.packets p i) p s.cpu.pc })

  -- `retrySendInstPacket`, which `SOC::masterPortRetry` calls for the port "sIF-m".
  unfoldable pub retry_send_inst_packet : ℕ → Soc → Soc
  unfolding schedule
  retry_send_inst_packet tick s = elim s.cpu.pending_inst_packet [
    | none ↦ s
    | some p ↦
        let (sent, port') = push s.port p in
        let s' = record s { port = port' } in
        if sent
        then if is_hcf (s.packets p).inst.op
          then set_pending none s'
          else set_pending none (schedule tick s')
        else record s' { errors = s.errors + 1 }
  ]
