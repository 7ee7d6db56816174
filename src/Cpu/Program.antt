-- ===== src/Cpu/Program.antt =====
-- The manual's machine on a whole program: instructions are fetched where the program counter
-- points, one after the other, and a log of them is kept. The simulator is held to it in
-- Top/Computes.antt.
use aias_lab.Prelude.{
  ℕ, zero, suc, ◌/◌, ◌≡◌, arith, Bool, not, ◌==◌, Option, none, some, List, [], ◌∷◌, ◌++◌,
  get_elem?,
}
use aias_lab.Prelude.Int.{pos, ◌+ℤ◌}
use aias_lab.Instr.{InstrType, hcf, Instr}
use aias_lab.Isa.{Arch, Fields, step, wrap}
use aias_lab.Cpu.View.{fields, IsAllowed}

-- An instruction that was executed, with the pc at which it was fetched and whether it jumped.
pub record Entry : Type 0 where
  pub inst : Instr
  pub pc : ℕ
  pub taken : Bool

pub record IsaRun : Type 0 where
  pub arch : Arch
  pub log : List Entry

abbrev pub retire : Instr → IsaRun → IsaRun
retire i r =
    let a = step i.op (fields i.op i) r.arch in
    record {
      arch = a;
      log =
          r.log
          ++ record {
            inst = i;
            pc = r.arch.pc;
            taken = not (a.pc == wrap (pos r.arch.pc +ℤ pos 4));
          }
            ∷ [];
    }

-- One instruction; there is none outside the program.
abbrev pub fetched : Option Instr → IsaRun → Option IsaRun
fetched none r = none
fetched (some i) r = some (retire i r)

abbrev pub isa_next : List Instr → Option IsaRun → Option IsaRun
isa_next program none = none
isa_next program (some r) = fetched (get_elem? program (r.arch.pc / 4)) r

-- The first `n` instructions from a state.
unfoldable pub isa_run : List Instr → ℕ → Arch → Option IsaRun
isa_run program zero a = some (record { arch = a; log = [] })
isa_run program (suc n) a = isa_next program (isa_run program n a)

-- The instruction that comes next, if there is one, is allowed in a memory of `size` bytes.
abbrev pub IsAllowedHere : ℕ → Arch → Option Instr → Type 0
IsAllowedHere size a none = Unit
IsAllowedHere size a (some i) = IsAllowed i.op i size a

abbrev pub IsAllowedNext : List Instr → ℕ → Option IsaRun → Type 0
IsAllowedNext program size none = Unit
IsAllowedNext program size (some r) = IsAllowedHere size r.arch (get_elem? program (r.arch.pc / 4))

-- So are the first `n`.
abbrev pub AllAllowed : List Instr → ℕ → ℕ → Arch → Type 0
AllAllowed program size zero a = Unit
AllAllowed program size (suc n) a =
    AllAllowed program size n a × IsAllowedNext program size (isa_run program n a)

pub step-x0 : (op : InstrType) (f : Fields) (a : Arch) → a.regs 0 ≡ 0 → (step op f a).regs 0 ≡ 0
unfolding step
step-x0 hcf f a h = h
step-x0 _ f a h = ground arith
