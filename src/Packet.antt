-- ===== src/Packet.antt =====
-- src/riscv/include/InstPacket.hh: the packet of one executed instruction. Packets are shared by
-- pointer between the CPU, the ports and the stages, so they live in a store; a pointer is a
-- number.
use aias_lab.Prelude.{ℕ, Bool, true, false, List, ◌==◌, if◌then◌else◌}
use aias_lab.Instr.{Instr}

-- `InstPacket`.
pub record InstPacket : Type 0 where
  pub inst : Instr
  pub str : List ℕ
  pub pc : ℕ
  pub is_taken_branch : Bool

abbrev pub Store : Type 0
Store = ℕ → InstPacket

-- A write through the pointer `p`.
abbrev pub update : Store → ℕ → InstPacket → Store
update store p packet q = if q == p then packet else store q

-- `renew`: the instruction is copied and the branch flag cleared; `str` and `pc` stay.
unfoldable pub renew : Store → ℕ → Instr → Store
renew store p i = update store p (record (store p) { inst = i; is_taken_branch = false })

-- `instPacket->pc = pc`.
abbrev pub set_pc : Store → ℕ → ℕ → Store
set_pc store p v = update store p (record (store p) { pc = v })

-- `instPacket->isTakenBranch = true`.
abbrev pub set_taken : Store → ℕ → Store
set_taken store p = update store p (record (store p) { is_taken_branch = true })
