-- ===== src/Cpu/Requests.antt =====
-- `CPU::memWrite` by `accept`, which belongs to the framework and calls the packet's `visit`.
use aias_lab.Prelude.{ℕ, ◌≡◌, refl, ◌∙◌, ap, none, List, [], ◌∷◌}
use aias_lab.Prelude.Result.{Result, ok, err, undefined, ◌>>=◌}
use aias_lab.Prelude.Word.{add32}
use aias_lab.Instr.{InstrType, Instr}
use aias_lab.Memory.Handlers.{mem_write_req_handler}
use aias_lab.Memory.Packets.{
  serve_write, MemPacket, write_req, renew_write_req, SimModule, data_memory, other_module, Outcome,
  visit_module,
}
use aias_lab.Cpu.Execute.{Exec, reg, mem_write}

-- The bytes behind `getDownStream("DSDmem")`.
abbrev pub memory_of : SimModule → Result (List ℕ)
memory_of (data_memory mem) = ok mem
memory_of other_module = err undefined

module _ (accept : ℕ → MemPacket → SimModule → Result Outcome) where
  -- With the packet `p` that the recycle container hands out.
  unfoldable pub send_mem_write : ℕ → InstrType → Instr → Exec → Result Exec
  send_mem_write p op i s = do
    base ← reg s.rf i.a2.reg
    v ← reg s.rf i.a1.reg
    o ← accept p (write_req (renew_write_req none i op (add32 base i.a3.imm) v)) (data_memory s.mem)
    mem' ← memory_of o.target
    ok (record s { mem = mem' })

bind-cong :
    {A B : Type 0} (m : Result A) (f g : A → Result B)
    → ((a : A) → f a ≡ g a)
    → (m >>= f) ≡ (m >>= g)
bind-cong (ok a) f g h = h a
bind-cong (err fault) f g h = refl

served_lem :
    (m : Result (List ℕ)) (p : ℕ) (next : List ℕ → Result Exec)
    → ((m >>= (λ mem'. ok (mem', p ∷ [])) >>= λ (x : List ℕ × List ℕ).
          ok (record { target = data_memory x.0; recycled = x.1; errors = 0 }))
        >>= λ (o : Outcome). memory_of o.target >>= next)
      ≡ (m >>= next)
served_lem (ok mem') p next = refl
served_lem (err fault) p next = refl

-- If `accept` calls the packet's `visit`, this is the write of the switch.
send_mem_write-mem_write :
    (accept : ℕ → MemPacket → SimModule → Result Outcome) (p : ℕ) (op : InstrType) (i : Instr)
    (s : Exec)
    → ((q : ℕ) (k : MemPacket) (m : SimModule) → accept q k m ≡ visit_module q k m)
    → send_mem_write accept p op i s ≡ mem_write op i s
unfolding send_mem_write mem_write visit_module serve_write
send_mem_write-mem_write accept p op i s accepts = bind-cong (reg s.rf i.a2.reg) _ _ (λ base.
    bind-cong (reg s.rf i.a1.reg) _ _ (λ v.
      ap
        (λ (m : Result Outcome).
          m >>= λ o. memory_of o.target >>= λ mem'. ok (record s { mem = mem' }))
        (accepts p (write_req (renew_write_req none i op (add32 base i.a3.imm) v))
          (data_memory s.mem))
      ∙ served_lem (mem_write_req_handler s.mem op (add32 base i.a3.imm) v) p
          (λ mem'. ok (record s { mem = mem' }))))
