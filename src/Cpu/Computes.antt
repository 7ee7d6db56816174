-- ===== src/Cpu/Computes.antt =====
-- The program's sequential execution, `core_run`, against the manual's machine, `isa_run`.
use aias_lab.Prelude.{
  ℕ, zero, suc, ◌/◌, ◌≡◌, refl, sym, ap, ◌∙◌, inl, inr, arith, not, Option, none, some, List, [],
  ◌∷◌, ◌++◌, ◌==◌, get_elem?, get_or, All, All-get_elem?, Option-cases,
}
use mathlib.Core.Path.{subst}
use mathlib.Core.Option.{some-injective}
use aias_lab.Prelude.Result.{Result, ok, err, undefined, ◌>>=◌}
use aias_lab.Prelude.Ensures.{Ensures, Ensures-ok, Ensures-err}
use aias_lab.Prelude.Int.{pos, ◌+ℤ◌}
use aias_lab.Instr.{Instr}
use aias_lab.Isa.{Arch, wrap}
use aias_lab.Cpu.Arith.{wrap-add_pos}
use aias_lab.Cpu.Execute.{execute}
use aias_lab.Cpu.Invariant.{IsExec, IsInstr, execute-IsExec}
use aias_lab.Cpu.View.{view, view_next, fields, IsAllowed}
use aias_lab.Cpu.Refines.{execute-step}
use aias_lab.Cpu.Program.{
  IsaRun, retire, isa_next, isa_run, IsAllowedHere, IsAllowedNext, AllAllowed, step-x0,
}
use aias_lab.Cpu.Core.{Core, CoreRun, core_exec, core_logged, core_next, core_run}

-- A run as the manual's machine sees it.
abbrev pub seen_run : CoreRun → IsaRun
seen_run r = record { arch = view (core_exec r.core); log = r.log }

abbrev pub seen : Result CoreRun → Option IsaRun
seen (ok r) = some (seen_run r)
seen (err e) = none

-- A well-formed state with the program in the instruction memory.
pub record IsCore (size : ℕ) (program : List Instr) (c : Core) : Type 0 where
  pub exec : IsExec size (core_exec c)
  pub x0_zero : get_or c.rf 0 0 ≡ 0
  pub imem : c.imem ≡ program

-- `m` is the manual's `o`, in a well-formed state.
record IsSeen (size : ℕ) (program : List Instr) (m : Result CoreRun) (o : Option IsaRun)
    : Type 0 where
  same : seen m ≡ o
  kept : Ensures (λ (r : CoreRun). IsCore size program r.core) m

-- The manual's machine goes on only where the sequential execution does.
pub seen-some :
    (m : Result CoreRun) {w : IsaRun}
    → seen m ≡ some w
    → (r : CoreRun) × (m ≡ ok r) × (seen_run r ≡ w)
seen-some (ok r) h = (r, refl, some-injective _ _ h)
seen-some (err e) h = absurd (cc)

module _ {size : ℕ} (program : List Instr) (words : All IsInstr program) where
  execute-IsSeen :
      (i : Instr) (r : CoreRun)
      → IsCore size program r.core
      → IsInstr i
      → IsAllowed i.op i size (view (core_exec r.core))
      → IsSeen size program
          (execute i.op i (core_exec r.core) >>= λ e. ok (core_logged i r e))
          (some (retire i (seen_run r)))
  execute-IsSeen i r k w allowed =
      let c = core_exec r.core in
      let legal =
        subst (λ (n : ℕ). IsAllowed i.op i n (view c)) (sym k.exec.memory.sized) allowed in
      let y =
        execute-step i.op i c (record { exec = k.exec; x0_zero = k.x0_zero; follows = refl }) w
          legal in
      let v = execute-IsExec i.op i c k.exec w y.runs in
      let behind : Arch → ℕ → Option IsaRun = λ a n. some (record {
        arch = a;
        log = r.log ++ record { inst = i; pc = c.pc; taken = not (a.pc == n) } ∷ [];
      }) in
      rw y.runs (record {
        same =
            ap (behind (view_next y.next)) (sym (wrap-add_pos c.pc 4))
            ∙ ap (λ (a : Arch). behind a (wrap (pos c.pc +ℤ pos 4))) y.agrees;
        kept = Ensures-ok (core_logged i r y.next) (record {
          exec = record {
            registers = v.registers;
            words = v.words;
            memory = v.memory;
            pc_word = v.pc_next_word;
            pc_next_word = omega arith;
          };
          x0_zero =
              ap (λ (a : Arch). a.regs 0) y.agrees
              ∙ step-x0 i.op (fields i.op i) (view c) k.x0_zero;
          imem = k.imem;
        });
      })

  core_next-IsSeen :
      (r : CoreRun)
      → IsCore size program r.core
      → IsAllowedNext program size (some (seen_run r))
      → IsSeen size program (core_next r) (isa_next program (some (seen_run r)))
  unfolding core_next
  core_next-IsSeen r k allowed =
      let slot = ap (λ (l : List Instr). get_elem? l (r.core.pc / 4)) k.imem in
      elim (Option-cases (get_elem? program (r.core.pc / 4))) [
        | inl n ↦ rw (slot ∙ n, n) (record { same = refl; kept = Ensures-err undefined })
        | inr (i, at_pc) ↦
            rw (slot ∙ at_pc, at_pc)
              (execute-IsSeen i r k (All-get_elem? IsInstr program (r.core.pc / 4) words at_pc)
                (subst (IsAllowedHere size (view (core_exec r.core))) at_pc allowed))
      ]

  core_bind-IsSeen :
      (m : Result CoreRun) (o : Option IsaRun)
      → IsSeen size program m o
      → IsAllowedNext program size o
      → IsSeen size program (m >>= core_next) (isa_next program o)
  core_bind-IsSeen (ok r) o k allowed =
      subst (λ (o : Option IsaRun). IsSeen size program (core_next r) (isa_next program o)) k.same
        (core_next-IsSeen r (k.kept.at r refl)
          (subst (IsAllowedNext program size) (sym k.same) allowed))
  core_bind-IsSeen (err e) o k allowed =
      subst (λ (o : Option IsaRun). IsSeen size program (err e) (isa_next program o)) k.same
        (record { same = refl; kept = Ensures-err e })

  core_run-IsSeen :
      (n : ℕ) (c : Core)
      → IsCore size program c
      → AllAllowed program size n (view (core_exec c))
      → IsSeen size program (core_run n c) (isa_run program n (view (core_exec c)))
  unfolding core_run isa_run
  core_run-IsSeen zero c k allowed = record {
    same = refl;
    kept = Ensures-ok (record { core = c; log = [] }) k;
  }
  core_run-IsSeen (suc n) c k allowed =
      core_bind-IsSeen (core_run n c) (isa_run program n (view (core_exec c)))
        (core_run-IsSeen n c k allowed.0) allowed.1

  -- The sequential execution of a program is that of the manual's machine, for as many instructions
  -- as are allowed: the same registers, memory, pc and log, and a fetch outside the program where
  -- the other has one.
  pub core_run-isa_run :
      (n : ℕ) (c : Core)
      → IsCore size program c
      → AllAllowed program size n (view (core_exec c))
      → seen (core_run n c) ≡ isa_run program n (view (core_exec c))
  core_run-isa_run n c k allowed = (core_run-IsSeen n c k allowed).same
