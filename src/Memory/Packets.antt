-- ===== src/Memory/Packets.antt =====
-- src/riscv/include/MemPacket.hh, libs/MemPacket.cc and libs/event/MemReqEvent.cc: the packets of
-- memory requests, and what visiting a module or a simulator does with them. A packet's pointer is a
-- number; a `std::function` is the number of its target, and none for nullptr.
use aias_lab.Prelude.{ℕ, ◌+◌, Option, List, [], ◌∷◌}
use aias_lab.Prelude.Result.{Result, ok, ◌>>=◌}
use aias_lab.Instr.{InstrType, Operand, Instr}
use aias_lab.Memory.Handlers.{mem_read_req_handler, mem_write_req_handler}

-- `MemReadReqPacket`.
pub record MemReadReqPacket : Type 0 where
  pub i : Instr
  pub op : InstrType
  pub addr : ℕ
  pub a1 : Operand
  pub callback : Option ℕ

-- `MemWriteReqPacket`.
pub record MemWriteReqPacket : Type 0 where
  pub i : Instr
  pub op : InstrType
  pub addr : ℕ
  pub data_word : ℕ
  pub callback : Option ℕ

-- `MemReadRespPacket`.
pub record MemReadRespPacket : Type 0 where
  pub i : Instr
  pub op : InstrType
  pub data_word : ℕ
  pub a1 : Operand

-- `MemWriteRespPacket`.
pub record MemWriteRespPacket : Type 0 where
  pub i : Instr

-- `renew` of each class, which sets every member.
abbrev pub renew_read_req : Option ℕ → Instr → InstrType → ℕ → Operand → MemReadReqPacket
renew_read_req callback i op addr a1 = record {
  i = i;
  op = op;
  addr = addr;
  a1 = a1;
  callback = callback;
}

abbrev pub renew_write_req : Option ℕ → Instr → InstrType → ℕ → ℕ → MemWriteReqPacket
renew_write_req callback i op addr v = record {
  i = i;
  op = op;
  addr = addr;
  data_word = v;
  callback = callback;
}

abbrev pub renew_read_resp : Instr → InstrType → ℕ → Operand → MemReadRespPacket
renew_read_resp i op v a1 = record { i = i; op = op; data_word = v; a1 = a1 }

abbrev pub renew_write_resp : Instr → MemWriteRespPacket
renew_write_resp i = record { i = i }

-- A packet of any of the classes.
pub data MemPacket : Type 0 where
  read_req : MemReadReqPacket → MemPacket
  write_req : MemWriteReqPacket → MemPacket
  read_resp : MemReadRespPacket → MemPacket
  write_resp : MemWriteRespPacket → MemPacket

-- `memReadReqHandler` on the packet at `p`: the value it returns, and the packets it recycles.
unfoldable pub serve_read : ℕ → MemReadReqPacket → List ℕ → Result (ℕ × List ℕ)
serve_read p k mem = do v ← mem_read_req_handler mem k.op k.addr; ok (v, p ∷ [])

-- `memWriteReqHandler`: the memory that it leaves, and the packets it recycles.
unfoldable pub serve_write : ℕ → MemWriteReqPacket → List ℕ → Result (List ℕ × List ℕ)
serve_write p k mem = do mem' ← mem_write_req_handler mem k.op k.addr k.data_word; ok (mem', p ∷ [])

-- What the dynamic_cast of `visit` tells apart.
pub data SimModule : Type 0 where
  data_memory : List ℕ → SimModule
  other_module : SimModule

-- The module after the visit, the packets recycled by the handler, and the CLASS_ERROR messages.
pub record Outcome : Type 0 where
  pub target : SimModule
  pub recycled : List ℕ
  pub errors : ℕ

-- `visit` of a module, for the packet at `p`.
unfoldable pub visit_module : ℕ → MemPacket → SimModule → Result Outcome
unfolding serve_read serve_write
visit_module p (read_req k) (data_memory mem) = do
  x ← serve_read p k mem
  ok (record { target = data_memory mem; recycled = x.1; errors = 0 })
visit_module p (write_req k) (data_memory mem) = do
  x ← serve_write p k mem
  ok (record { target = data_memory x.0; recycled = x.1; errors = 0 })
visit_module p (read_req k) other_module =
    ok (record { target = other_module; recycled = []; errors = 1 })
visit_module p (write_req k) other_module =
    ok (record { target = other_module; recycled = []; errors = 1 })
visit_module p (read_resp k) m = ok (record { target = m; recycled = []; errors = 1 })
visit_module p (write_resp k) m = ok (record { target = m; recycled = []; errors = 1 })

-- `visit` of a simulator: every class only reports an error. The messages so far are given.
abbrev pub visit_simulator : MemPacket → ℕ → ℕ
visit_simulator (read_req _) errors = errors + 1
visit_simulator (write_req _) errors = errors + 1
visit_simulator (read_resp _) errors = errors + 1
visit_simulator (write_resp _) errors = errors + 1

-- `MemReqEvent`: the module to call, and the packet with its pointer.
pub record MemReqEvent : Type 0 where
  pub callee : SimModule
  pub mem_req_pkt : ℕ × MemPacket

abbrev pub renew_event : SimModule → ℕ × MemPacket → MemReqEvent
renew_event callee pkt = record { callee = callee; mem_req_pkt = pkt }

-- `process`, by `accept` of the framework.
abbrev pub process : (ℕ → MemPacket → SimModule → Result Outcome) → MemReqEvent → Result Outcome
process accept e = accept e.mem_req_pkt.0 e.mem_req_pkt.1 e.callee
