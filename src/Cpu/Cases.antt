-- ===== src/Cpu/Cases.antt =====
-- What `commitInstr` and `retrySendInstPacket` leave behind, one case for each way through them.
use aias_lab.Prelude.{ℕ, ◌+◌, ◌≡◌, inl, inr, true, false, none, some, Bool-cases, Option-cases}
use aias_lab.Instr.{Instr}
use aias_lab.Port.{MasterPort}
use aias_lab.Cpu.Commit.{Soc, schedule, set_pending, is_hcf, commit_instr, retry_send_inst_packet}

module _ (ports : MasterPort) where
  open ports use {push}

  -- The state after an attempt to push `p`.
  abbrev pub pushed : ℕ → Soc ports → Soc ports
  pushed p s = record s { port = (push s.port p).1 }

  module _ (P : Soc ports → Type 0) (tick : ℕ) where
    -- The packet is refused and waits, or it is sent, and the next event scheduled but for HCF.
    pub commit_instr-cases :
        (i : Instr) (p : ℕ) (s : Soc ports)
        → ((push s.port p).0 ≡ false → P (set_pending ports (some p) (pushed p s)))
        → ((push s.port p).0 ≡ true → is_hcf i.op ≡ true → P (pushed p s))
        → ((push s.port p).0 ≡ true → is_hcf i.op ≡ false → P (schedule ports tick (pushed p s)))
        → P (commit_instr ports tick i p s)
    unfolding commit_instr
    commit_instr-cases i p s refused last more = elim (Bool-cases (is_hcf i.op)) [
      | inl halt ↦ elim (Bool-cases (push s.port p).0) [
        | inl sent ↦ rw (halt, sent) (last sent halt)
        | inr kept ↦ rw (halt, kept) (refused kept)
      ]
      | inr goes ↦ elim (Bool-cases (push s.port p).0) [
        | inl sent ↦ rw (goes, sent) (more sent goes)
        | inr kept ↦ rw (goes, kept) (refused kept)
      ]
    ]

    -- The packet that waits is refused again, or it is sent.
    pub retry_some-cases :
        (p : ℕ) (s : Soc ports)
        → s.cpu.pending_inst_packet ≡ some p
        → ((push s.port p).0 ≡ false → P (record (pushed p s) { errors = s.errors + 1 }))
        → ((push s.port p).0 ≡ true
            → is_hcf (s.packets p).inst.op ≡ true
            → P (set_pending ports none (pushed p s)))
        → ((push s.port p).0 ≡ true
            → is_hcf (s.packets p).inst.op ≡ false
            → P (set_pending ports none (schedule ports tick (pushed p s))))
        → P (retry_send_inst_packet ports tick s)
    unfolding retry_send_inst_packet
    retry_some-cases p s n refused last more =
        rw (n, retry_send_inst_packet)
          (elim (Bool-cases (push s.port p).0) [
            | inl sent ↦ elim (Bool-cases (is_hcf (s.packets p).inst.op)) [
              | inl halt ↦ rw (sent, halt) (last sent halt)
              | inr goes ↦ rw (sent, goes) (more sent goes)
            ]
            | inr kept ↦ rw kept (refused kept)
          ])

    -- With nothing waiting, a retry changes nothing.
    pub retry-cases :
        (s : Soc ports)
        → P s
        → ((p : ℕ)
            → s.cpu.pending_inst_packet ≡ some p
            → P (record (pushed p s) { errors = s.errors + 1 }))
        → ((p : ℕ)
            → s.cpu.pending_inst_packet ≡ some p
            → is_hcf (s.packets p).inst.op ≡ true
            → P (set_pending ports none (pushed p s)))
        → ((p : ℕ)
            → s.cpu.pending_inst_packet ≡ some p
            → is_hcf (s.packets p).inst.op ≡ false
            → P (set_pending ports none (schedule ports tick (pushed p s))))
        → P (retry_send_inst_packet ports tick s)
    unfolding retry_send_inst_packet
    retry-cases s idle refused last more = elim (Option-cases s.cpu.pending_inst_packet) [
      | inl n ↦ rw (n, retry_send_inst_packet) idle
      | inr (p, n) ↦
          retry_some-cases p s n (λ _. refused p n) (λ _ halt. last p n halt)
            (λ _ goes. more p n goes)
    ]
