-- ===== src/Emulator/Plain.antt =====
-- Instructions without labels, from the source to the end of the assembler's work.
use aias_lab.Prelude.{
  ℕ, suc, ◌+◌, ◌≤◌, ◌<◌, ◌≡◌, refl, sym, ap, ◌∙◌, arith, ◌⊎◌, ◌==◌, Bool-cases, inl, inr, some,
  List, [], ◌∷◌, length, get_elem?, All,
}
use mathlib.Core.Path.{subst}
use mathlib.Core.Option.{some-injective}
use aias_lab.Prelude.Result.{ok}
use aias_lab.Instr.{InstrType, unimpl, Instr}
use aias_lab.Emulator.Text.{Reporter}
use aias_lab.Emulator.Source.{Source}
use aias_lab.Emulator.Labels.{
  LabelLoc, first_operand, second_operand, third_operand, operands, normalize_instr,
  normalize_labels,
}
use aias_lab.Emulator.Resolved.{NoLabels}
use aias_lab.Emulator.Forms.{
  Form, registers, immediate, memory, branch, upper, jump, bare, form_of, Values, filled,
}
use aias_lab.Emulator.Listing.{Statement, AreEntries}

-- A form without a label.
abbrev pub IsPlain : Form → Type 0
IsPlain branch = ⊥
IsPlain jump = ⊥
IsPlain _ = Unit

abbrev pub AllPlain : List Statement → Type 0
AllPlain [] = Unit
AllPlain (x ∷ xs) = IsPlain (form_of x.op) × AllPlain xs

filled-NoLabels :
    (f : Form) (v : Values) (i : Instr) → IsPlain f → NoLabels i → NoLabels (filled f v i)
filled-NoLabels registers v i p k = record { a1 = k.a1; a2 = k.a2; a3 = k.a3 }
filled-NoLabels immediate v i p k = record { a1 = k.a1; a2 = k.a2; a3 = k.a3 }
filled-NoLabels memory v i p k = record { a1 = k.a1; a2 = k.a2; a3 = k.a3 }
filled-NoLabels branch v i p k = absurd p
filled-NoLabels upper v i p k = record { a1 = k.a1; a2 = k.a2; a3 = k.a3 }
filled-NoLabels jump v i p k = absurd p
filled-NoLabels bare v i p k = k

-- A statement about every entry.
pub All-of_get_elem? :
    (P : Instr → Type 0) (imem : List Instr)
    → ((m : ℕ) (i : Instr) → get_elem? imem m ≡ some i → P i)
    → All P imem
All-of_get_elem? P [] h = tt
All-of_get_elem? P (i ∷ imem) h = (h 0 i refl, All-of_get_elem? P imem (λ m j. h (suc m) j))

le-cases : (n m : ℕ) → n ≤ m → (n ≡ m) ⊎ (n + 1 ≤ m)
le-cases n m le = elim (Bool-cases (n == m)) [
  | inl same ↦ inl (ground arith)
  | inr other ↦ inr (ground arith)
]

pub AreEntries-NoLabels :
    (line : ℕ) (xs : List Statement) (n : ℕ) (old new : List Instr) (m : ℕ) (i : Instr)
    → AllPlain xs
    → ((k : ℕ) (j : Instr) → get_elem? old k ≡ some j → NoLabels j)
    → AreEntries line xs n old new
    → n ≤ m
    → m < n + length xs
    → get_elem? new m ≡ some i
    → NoLabels i
AreEntries-NoLabels line [] n old new m i p all a le lt h = absurd (omega arith)
AreEntries-NoLabels line (x ∷ xs) n old new m i p all (e, a) le lt h = elim (le-cases n m le) [
  | inl same ↦
      let now = ap (get_elem? new) same ∙ h in
      let k = all n e.before e.was in
      subst NoLabels (some-injective _ _ (sym e.now ∙ now))
        (filled-NoLabels (form_of x.op) x.values _ p.0 (record { a1 = k.a1; a2 = k.a2; a3 = k.a3 }))
  | inr next ↦ AreEntries-NoLabels (line + 1) xs (n + 1) old new m i p.1 all a next (omega arith) h
]

module _ (report : Reporter) (max_src_len : ℕ) (labels : List LabelLoc) where
  operands-NoLabels :
      (n : ℕ) (i : Instr) (s : Source)
      → NoLabels i
      → operands report max_src_len labels n i s ≡ ok (s, i)
  unfolding operands first_operand second_operand third_operand
  operands-NoLabels n i s k = rw (k.a1, k.a2, k.a3) refl

  normalize_instr-NoLabels :
      (op : InstrType) (n : ℕ) (i : Instr) (s : Source)
      → NoLabels i
      → normalize_instr report max_src_len labels op n i s ≡ ok (s, i)
  unfolding normalize_instr
  normalize_instr-NoLabels unimpl n i s k = refl
  normalize_instr-NoLabels _ n i s k = operands-NoLabels n i s k

  -- There is nothing to normalise.
  pub normalize_labels-NoLabels :
      (n : ℕ) (imem : List Instr) (s : Source)
      → All NoLabels imem
      → normalize_labels report max_src_len labels n imem s ≡ ok (s, imem)
  unfolding normalize_labels
  normalize_labels-NoLabels n [] s a = refl
  normalize_labels-NoLabels n (i ∷ imem) s a =
      rw (normalize_instr-NoLabels i.op n i s a.0, normalize_labels-NoLabels (n + 1) imem s a.1)
        refl
