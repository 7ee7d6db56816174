-- ===== src/Top/Cases.antt =====
-- The two ways through `SOC::masterPortRetry`.
use aias_lab.Prelude.{ℕ, List, inl, inr, Bool-cases}
use aias_lab.Port.{MasterPort}
use aias_lab.Cpu.Commit.{Soc, retry_send_inst_packet}
use aias_lab.Emulator.Text.{codes, streq}
use aias_lab.Top.Boot.{master_port_retry}

-- The CPU is called for its port, and nothing happens for another.
pub master_port_retry-cases :
    (ports : MasterPort) (P : Soc ports → Type 0) (tick : ℕ) (port_name : List ℕ) (s : Soc ports)
    → P (retry_send_inst_packet ports tick s)
    → P s
    → P (master_port_retry ports tick port_name s)
unfolding master_port_retry
master_port_retry-cases ports P tick port_name s own other =
    elim (Bool-cases (streq port_name (codes "sIF-m"))) [
      | inl same ↦ rw same own
      | inr differs ↦ rw differs other
    ]
