-- ===== src/Cpu/Shapes.antt =====
-- One lemma for each shape of instruction: the switch's helper succeeds on a legal instruction,
-- and its effect, seen through `view_next`, is the manual's.
use aias_lab.Prelude.{
  ℕ, ◌<◌, ◌≡◌, refl, sym, ◌∙◌, fun_ext, arith, Bool, true, false, List, if◌then◌else◌, lt→ltb,
  get_or, set, All-get_or,
}
use aias_lab.Prelude.Result.{Result, ok, ◌>>=◌}
use aias_lab.Prelude.Word.{IsWord, add32}
use aias_lab.Instr.{InstrType, Operand, Instr}
use aias_lab.Isa.{Arch, write, advance, jump_if}
use aias_lab.Memory.Handlers.{mem_read_req_handler, mem_write_req_handler}
use aias_lab.Cpu.Execute.{
  Exec, reg, put, reg_reg, reg_imm, shift_reg, shift_imm, branch, mem_read, mem_write,
}
use aias_lab.Cpu.Invariant.{IsExec}
use aias_lab.Cpu.Arith.{wrap-add_pos}
use aias_lab.Cpu.View.{view, view_next, num, val, target, IsReg, IsDest, reg-ok, put-ok, regs-set}

-- The state at the head of the switch: well formed, x0 zero, and pc_next the following pc.
pub record IsStart (size : ℕ) (s : Exec) : Type 0 where
  pub exec : IsExec size s
  pub x0_zero : get_or s.rf 0 0 ≡ 0
  pub follows : s.pc_next ≡ add32 s.pc 4

-- `m` succeeds, and leaves the abstract machine in `a`.
pub record Yields (m : Result Exec) (a : Arch) : Type 0 where
  pub next : Exec
  pub runs : m ≡ ok next
  pub agrees : view_next next ≡ a

pub Yields-subst : {m : Result Exec} {a b : Arch} → a ≡ b → Yields m a → Yields m b
Yields-subst e y = record { next = y.next; runs = y.runs; agrees = y.agrees ∙ e }

module _ {size : ℕ} (s : Exec) (st : IsStart size s) where
  pub val-IsWord : (o : Operand) → IsWord (val s o)
  val-IsWord o = All-get_or IsWord s.rf (num o) 0 st.exec.words (omega arith)

  reg-val : (o : Operand) → IsReg o → reg s.rf o.reg ≡ ok (val s o)
  reg-val o h = reg-ok s.rf o h st.exec.registers

  abbrev written : Operand → ℕ → Exec
  written o v = record s { rf = set s.rf (num o) v }

  view-written :
      (o : Operand) (v : ℕ)
      → IsDest o
      → view_next (written o v) ≡ advance (write (num o) v (view s))
  view-written o v d = λ i. record {
    regs =
        fun_ext
          (λ r.
            regs-set s (num o) v r d.ne_x0 (omega (arith, st.exec.registers, d.is_reg.below))
              st.x0_zero)
          i;
    bytes = λ j. get_or s.mem j 0;
    pc = (st.follows ∙ sym (wrap-add_pos s.pc 4)) i;
  }

  view_same : view_next s ≡ advance (view s)
  view_same = λ i. record {
    regs = λ r. get_or s.rf r 0;
    bytes = λ j. get_or s.mem j 0;
    pc = (st.follows ∙ sym (wrap-add_pos s.pc 4)) i;
  }

  pub nop-Yields : Yields (ok s) (advance (view s))
  nop-Yields = record { next = s; runs = refl; agrees = view_same }

  pub put-Yields :
      (o : Operand) (v : ℕ) → IsDest o → Yields (put s o.reg v) (advance (write (num o) v (view s)))
  put-Yields o v d = record {
    next = written o v;
    runs = put-ok s o v d.is_reg st.exec.registers;
    agrees = view-written o v d;
  }

  module _ (i : Instr) where
    pub reg_reg-Yields :
        (f : ℕ → ℕ → ℕ)
        → IsDest i.a1
        → IsReg i.a2
        → IsReg i.a3
        → Yields (reg_reg i s f) (advance (write (num i.a1) (f (val s i.a2) (val s i.a3)) (view s)))
    unfolding reg_reg
    reg_reg-Yields f d x y =
        rw (reg-val i.a2 x) (rw (reg-val i.a3 y) (put-Yields i.a1 (f (val s i.a2) (val s i.a3)) d))

    pub reg_imm-Yields :
        (f : ℕ → ℕ → ℕ)
        → IsDest i.a1
        → IsReg i.a2
        → Yields (reg_imm i s f) (advance (write (num i.a1) (f (val s i.a2) i.a3.imm) (view s)))
    unfolding reg_imm
    reg_imm-Yields f d x = rw (reg-val i.a2 x) (put-Yields i.a1 (f (val s i.a2) i.a3.imm) d)

    pub shift_reg-Yields :
        (f : ℕ → ℕ → ℕ)
        → IsDest i.a1
        → IsReg i.a2
        → IsReg i.a3
        → val s i.a3 < 32
        → Yields
            (shift_reg i s f)
            (advance (write (num i.a1) (f (val s i.a2) (val s i.a3)) (view s)))
    unfolding shift_reg
    shift_reg-Yields f d x y n = rw (reg-val i.a2 x) (
        rw (reg-val i.a3 y)
          (rw (lt→ltb (val s i.a3) 32 n) (put-Yields i.a1 (f (val s i.a2) (val s i.a3)) d)))

    pub shift_imm-Yields :
        (f : ℕ → ℕ → ℕ)
        → IsDest i.a1
        → IsReg i.a2
        → i.a3.imm < 32
        → Yields (shift_imm i s f) (advance (write (num i.a1) (f (val s i.a2) i.a3.imm) (view s)))
    unfolding shift_imm
    shift_imm-Yields f d x n =
        rw (reg-val i.a2 x)
          (rw (lt→ltb i.a3.imm 32 n) (put-Yields i.a1 (f (val s i.a2) i.a3.imm) d))

    branched :
        (b : Bool)
        → Yields
            (ok (if b then record s { pc_next = i.a3.imm } else s))
            (jump_if b i.a3.imm (view s))
    branched true = record { next = record s { pc_next = i.a3.imm }; runs = refl; agrees = refl }
    branched false = nop-Yields

    pub branch-Yields :
        (test : ℕ → ℕ → Bool)
        → IsReg i.a1
        → IsReg i.a2
        → Yields (branch i s test) (jump_if (test (val s i.a1) (val s i.a2)) i.a3.imm (view s))
    unfolding branch
    branch-Yields test x y =
        rw (reg-val i.a1 x) (rw (reg-val i.a2 y) (branched (test (val s i.a1) (val s i.a2))))

    pub jal-Yields :
        (k : Exec → Result Exec) (to : ℕ)
        → IsDest i.a1
        → k (written i.a1 (add32 s.pc 4))
          ≡ ok (record (written i.a1 (add32 s.pc 4)) { pc_next = to })
        → Yields
            (put s i.a1.reg (add32 s.pc 4) >>= k)
            (record (write (num i.a1) (add32 s.pc 4) (view s)) { pc = to })
    jal-Yields k to d e = rw (put-ok s i.a1 (add32 s.pc 4) d.is_reg st.exec.registers) (record {
      next = record (written i.a1 (add32 s.pc 4)) { pc_next = to };
      runs = e;
      agrees = λ j. record {
        regs = (view-written i.a1 (add32 s.pc 4) d j).regs;
        bytes = λ b. get_or s.mem b 0;
        pc = to;
      };
    })

    pub mem_read-Yields :
        (op : InstrType) (v : ℕ)
        → IsDest i.a1
        → IsReg i.a2
        → mem_read_req_handler s.mem op (target i s) ≡ ok v
        → Yields (mem_read op i s) (advance (write (num i.a1) v (view s)))
    unfolding mem_read
    mem_read-Yields op v d x e = rw (reg-val i.a2 x) (rw e (put-Yields i.a1 v d))

    pub mem_write-Yields :
        (op : InstrType) (mem' : List ℕ) (g : ℕ → ℕ)
        → IsReg i.a1
        → IsReg i.a2
        → mem_write_req_handler s.mem op (target i s) (val s i.a1) ≡ ok mem'
        → ((j : ℕ) → get_or mem' j 0 ≡ g j)
        → Yields (mem_write op i s) (advance (record (view s) { bytes = g }))
    unfolding mem_write
    mem_write-Yields op mem' g x y e same = rw (reg-val i.a2 y) (
        rw (reg-val i.a1 x) (
          rw e (record {
            next = record s { mem = mem' };
            runs = refl;
            agrees = λ j. record {
              regs = λ r. get_or s.rf r 0;
              bytes = fun_ext same j;
              pc = (view_same j).pc;
            };
          })))
