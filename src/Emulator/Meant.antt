-- ===== src/Emulator/Meant.antt =====
-- What an ordinary instruction without a label means in its source line, and what the manual's
-- machine does on a list of them.
use aias_lab.Prelude.{
  ℕ, zero, suc, ◌+◌, ◌/◌, ◌≡◌, refl, sym, ap, ◌∙◌, inl, inr, arith, Option, none, some, List, [],
  ◌∷◌, get_elem?, Option-cases,
}
use mathlib.Core.Option.{some-injective}
use mathlib.Core.Path.{subst}
use aias_lab.Prelude.Int.{pos}
use aias_lab.Instr.{InstrType, beq, bge, bgeu, blt, bltu, bne, jal, Instr}
use aias_lab.Isa.{Arch, Fields, step}
use aias_lab.Cpu.View.{fields, IsAllowed}
use aias_lab.Cpu.Program.{IsaRun, retire, fetched, isa_next, isa_run}
use aias_lab.Emulator.Field.{
  form_fields, filled_fields, filled_fields-form_fields, IsInField, AllInField,
}
use aias_lab.Emulator.Forms.{Form, registers, form_of, Values, filled}
use aias_lab.Emulator.Appended.{name_of}
use aias_lab.Emulator.Listing.{Statement, AreEntries}
use aias_lab.Emulator.Plain.{IsPlain, AllPlain}

abbrev pub meaning : Statement → Arch → Arch
meaning x a = step x.op (form_fields (form_of x.op) x.values) a

-- The statement at the pc, if there is one.
abbrev pub taken_up : Option Statement → Arch → Option Arch
taken_up none a = none
taken_up (some x) a = some (meaning x a)

abbrev pub source_next : List Statement → Option Arch → Option Arch
source_next xs none = none
source_next xs (some a) = taken_up (get_elem? xs (a.pc / 4)) a

-- The first `n` statements that are executed.
unfoldable pub source_run : List Statement → ℕ → Arch → Option Arch
source_run xs zero a = some a
source_run xs (suc n) a = source_next xs (source_run xs n a)

step-filled :
    (op : InstrType) (v : Values) (i : Instr) (a : Arch)
    → IsPlain (form_of op)
    → step op (fields op (filled (form_of op) v i)) a ≡ step op (filled_fields (form_of op) v) a
unfolding step
step-filled beq v i a p = absurd p
step-filled bge v i a p = absurd p
step-filled bgeu v i a p = absurd p
step-filled blt v i a p = absurd p
step-filled bltu v i a p = absurd p
step-filled bne v i a p = absurd p
step-filled jal v i a p = absurd p
step-filled _ v i a p = refl

-- Its instruction is allowed, whatever its text and its line are.
abbrev pub IsPermitted : Statement → ℕ → Arch → Type 0
IsPermitted x size a = (i : Instr) → IsAllowed x.op (filled (form_of x.op) x.values i) size a

filled-op : (f : Form) (v : Values) (i : Instr) → (filled f v i).op ≡ i.op
filled-op registers v i = refl
filled-op _ v i = refl

-- The instruction in a slot does what the statement there means, and is allowed where that is.
pub record Means (x : Statement) (i : Instr) : Type 0 where
  pub allowed : (size : ℕ) (a : Arch) → IsPermitted x size a → IsAllowed i.op i size a
  pub at : (a : Arch) → step i.op (fields i.op i) a ≡ meaning x a

filled-Means :
    (x : Statement) (i : Instr)
    → IsPlain (form_of x.op)
    → IsInField (form_of x.op) x.values
    → i.op ≡ x.op
    → Means x (filled (form_of x.op) x.values i)
filled-Means x i p q e = record {
  allowed = λ size a h.
      let j = filled (form_of x.op) x.values i in
      subst (λ (op : InstrType). IsAllowed op j size a)
        (sym (filled-op (form_of x.op) x.values i ∙ e)) (h i);
  at = λ a.
      let j = filled (form_of x.op) x.values i in
      ap (λ (op : InstrType). step op (fields op j) a) (filled-op (form_of x.op) x.values i ∙ e)
      ∙ step-filled x.op x.values i a p
      ∙ ap (λ (f : Fields). step x.op f a) (filled_fields-form_fields (form_of x.op) x.values q);
}

pub AreEntries-Means :
    (line : ℕ) (xs : List Statement) (n k : ℕ) (old new : List Instr) {x : Statement}
    → AllPlain xs
    → AllInField xs
    → AreEntries line xs n old new
    → get_elem? xs k ≡ some x
    → (i : Instr) × (get_elem? new (n + k) ≡ some i) × Means x i
AreEntries-Means line [] n k old new p q a h = absurd (cc)
AreEntries-Means line (y ∷ ys) n zero old new {x} p q (e, a) h =
    let before = record e.before {
      str = name_of y.op;
      op = y.op;
      orig_line = pos line;
      psrc = e.psrc;
    } in
    let j = filled (form_of y.op) y.values before in
    (
      j,
      ap (get_elem? new) (omega arith) ∙ e.now,
      subst (λ (z : Statement). Means z j) (some-injective _ _ h)
          (filled-Means y before p.0 q.0 refl),
    )
AreEntries-Means line (y ∷ ys) n (suc k) old new p q (e, a) h =
    let (i, slot, m) = AreEntries-Means (line + 1) ys (n + 1) k old new p.1 q.1 a h in
    (i, ap (get_elem? new) (omega arith) ∙ slot, m)

-- The machine on the memory that was loaded does what the statements mean.
AreEntries-retire :
    (line : ℕ) (xs : List Statement) (old imem : List Instr) (r : IsaRun) {b : Arch}
    → AllPlain xs
    → AllInField xs
    → AreEntries line xs 0 old imem
    → source_next xs (some r.arch) ≡ some b
    → (w : IsaRun) × (isa_next imem (some r) ≡ some w) × (w.arch ≡ b)
AreEntries-retire line xs old imem r {b} plain q a h =
    let k = r.arch.pc / 4 in
    elim (Option-cases (get_elem? xs k)) [
      | inl absent ↦ absurd (cc)
      | inr (x, slot) ↦
          let (i, at, m) = AreEntries-Means line xs 0 k old imem plain q a slot in
          let here : get_elem? imem k ≡ get_elem? imem (0 + k) =
            ap (get_elem? imem) (omega arith) in
          (
            retire i r,
            ap (λ (o : Option Instr). fetched o r) (here ∙ at),
            m.at r.arch
                ∙ some-injective _ _
                    (ap (λ (o : Option Statement). taken_up o r.arch) (sym slot) ∙ h),
          )
    ]

pub source_run-isa_run :
    (line : ℕ) (xs : List Statement) (old imem : List Instr) (n : ℕ) (a : Arch) {b : Arch}
    → AllPlain xs
    → AllInField xs
    → AreEntries line xs 0 old imem
    → source_run xs n a ≡ some b
    → (w : IsaRun) × (isa_run imem n a ≡ some w) × (w.arch ≡ b)
unfolding source_run isa_run
source_run-isa_run line xs old imem zero a plain q e h =
    (record { arch = a; log = [] }, refl, some-injective _ _ h)
source_run-isa_run line xs old imem (suc n) a {b} plain q e h =
    elim (Option-cases (source_run xs n a)) [
      | inl absent ↦ absurd (cc)
      | inr (c, before) ↦
          let (r, ran, same) = source_run-isa_run line xs old imem n a plain q e before in
          let (w, next, end) = AreEntries-retire line xs old imem r plain q e (
            ap (λ (z : Arch). source_next xs (some z)) same
            ∙ ap (source_next xs) (sym before)
            ∙ h) in
          (w, ap (isa_next imem) ran ∙ next, end)
    ]
