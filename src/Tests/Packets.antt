-- ===== src/Tests/Packets.antt =====
-- Packets of memory requests, and a visitor that behaves as the framework's.
use aias_lab.Prelude.{ℕ, ◌≡◌, refl, none, [], ◌∷◌}
use aias_lab.Prelude.Result.{Result, ok, ◌>>=◌}
use aias_lab.Instr.{sw, Instr}
use aias_lab.Memory.Bytes.{memcpy, write_data}
use aias_lab.Memory.Handlers.{mem_write_req_handler}
use aias_lab.Memory.Packets.{
  MemPacket, read_resp, write_req, renew_read_resp, renew_write_req, renew_event, SimModule,
  data_memory, Outcome, visit_module, visit_simulator, process,
}
use aias_lab.Cpu.Execute.{Exec, mem_write}
use aias_lab.Cpu.Requests.{send_mem_write}
use aias_lab.Tests.Data.{instr, regs, bytes}

abbrev store : Instr
store = instr sw 6 1 0 4

abbrev request : MemPacket
request = write_req (renew_write_req none store sw 4 7)

abbrev state : Exec
state = record { rf = regs; mem = bytes; pc = 0; pc_next = 4 }

-- `accept` calls `visit`.
abbrev accept : ℕ → MemPacket → SimModule → Result Outcome
accept p k m = visit_module p k m

misdirected : visit_simulator (read_resp (renew_read_resp store sw 7 store.a1)) 2 ≡ 3
misdirected = refl

event_visits :
    process accept (renew_event (data_memory bytes) (3, request))
    ≡ visit_module 3 request (data_memory bytes)
event_visits = refl

request_recycled : visit_module 3 request (data_memory bytes) ≡ (
    mem_write_req_handler bytes sw 4 7 >>= λ mem'.
    ok (record { target = data_memory mem'; recycled = 3 ∷ []; errors = 0 }))
unfolding visit_module mem_write_req_handler write_data memcpy
request_recycled = refl

write_sent : send_mem_write accept 3 sw store state ≡ mem_write sw store state
unfolding send_mem_write mem_write visit_module mem_write_req_handler write_data memcpy
write_sent = refl
