-- ===== src/Emulator/Resolved.antt =====
-- What `normalize_labels` leaves in the instruction memory.
use aias_lab.Prelude.{
  ℕ, suc, ◌+◌, ◌-◌, ◌/◌, ◌^◌, bit_and, none, some, ◌≡◌, refl, sym, ap, ◌∙◌, ◌⊎◌, inl, inr, false,
  List, [], ◌∷◌, length, All, Bool-cases,
}
use mathlib.Core.Path.{subst}
use aias_lab.Prelude.Result.{Result, ok, bind-eq-ok, ok-injective, ◌>>◌, ◌>>=◌}
use aias_lab.Prelude.Int.{ℤ}
use aias_lab.Instr.{
  InstrType, unimpl, addi, beq, bge, bgeu, blt, bltu, bne, jal, lui, Operand, Instr,
}
use aias_lab.Emulator.Text.{codes, Reporter}
use aias_lab.Emulator.Source.{Source, format_reg, format_hex, append_source-keeps}
use aias_lab.Emulator.Labels.{
  LabelLoc, label_addr, is_label, after_second, after_third, first_operand, second_operand,
  third_operand, operands, resolve, normalize_instr, normalize_labels,
}

-- `j` is the instruction `i` with the same kinds of operands.
record IsLike (i j : Instr) : Type 0 where
  op : j.op ≡ i.op
  a1 : is_label j.a1.type ≡ is_label i.a1.type
  a2 : is_label j.a2.type ≡ is_label i.a2.type
  a3 : is_label j.a3.type ≡ is_label i.a3.type

IsLike-self : (i : Instr) → IsLike i i
IsLike-self i = record { op = refl; a1 = refl; a2 = refl; a3 = refl }

-- An instruction that is UNIMPL or has no label among its operands.
pub record NoLabels (i : Instr) : Type 0 where
  pub a1 : is_label i.a1.type ≡ false
  pub a2 : is_label i.a2.type ≡ false
  pub a3 : is_label i.a3.type ≡ false

abbrev pub IsResolved : Instr → Type 0
IsResolved i = (i.op ≡ unimpl) ⊎ NoLabels i

IsLike-eq :
    {i : Instr} {s s' : Source} {j : Instr}
    → ◌≡◌ {A = Result (Source × Instr)} (ok (s, i)) (ok (s', j))
    → IsLike i j
IsLike-eq {i} e =
    subst (IsLike i) (ap (λ (p : Source × Instr). p.1) (ok-injective e)) (IsLike-self i)

module _ (report : Reporter) (max_src_len : ℕ) (labels : List LabelLoc) where
  checked : {A : Type 0} (m : Result (Unit {0})) {a : Result A} {b : A} → (m >> a) ≡ ok b → a ≡ ok b
  checked m h = (bind-eq-ok m _ h).2

  after_second-IsLike :
      (op : InstrType) (n : ℕ) (i : Instr) (s : Source) {s' : Source} {j : Instr}
      → after_second report max_src_len labels op n i s ≡ ok (s', j)
      → IsLike i j
  unfolding after_second
  after_second-IsLike lui n i s h =
      let (areg, _, rest) = bind-eq-ok (format_reg i.a1.reg) _ h in
      let (p, same) =
        append_source-keeps max_src_len (some (codes "lui")) (some areg)
          (some (format_hex (i.a2.imm / 2 ^ 12))) none s
          (record i { a2 = record i.a2 { imm = i.a2.imm / 2 ^ 12 } }) rest in
      subst (IsLike i) same (record { op = refl; a1 = refl; a2 = refl; a3 = refl })
  after_second-IsLike jal n i s h = IsLike-eq (checked _ h)
  after_second-IsLike _ n i s h = IsLike-eq h

  after_third-IsLike :
      (op : InstrType) (n : ℕ) (i : Instr) (s : Source) {s' : Source} {j : Instr}
      → after_third report max_src_len labels op n i s ≡ ok (s', j)
      → IsLike i j
  unfolding after_third
  after_third-IsLike addi n i s h =
      let (a1reg, _, rest) = bind-eq-ok (format_reg i.a1.reg) _ h in
      let (a2reg, _, rest2) = bind-eq-ok (format_reg i.a2.reg) _ rest in
      let (p, same) =
        append_source-keeps max_src_len (some (codes "addi")) (some a1reg) (some a2reg)
          (some (format_hex (bit_and i.a3.imm (2 ^ 12 - 1)))) s
          (record i { a3 = record i.a3 { imm = bit_and i.a3.imm (2 ^ 12 - 1) } }) rest2 in
      subst (IsLike i) same (record { op = refl; a1 = refl; a2 = refl; a3 = refl })
  after_third-IsLike beq n i s h = IsLike-eq (checked _ h)
  after_third-IsLike bge n i s h = IsLike-eq (checked _ h)
  after_third-IsLike bgeu n i s h = IsLike-eq (checked _ h)
  after_third-IsLike blt n i s h = IsLike-eq (checked _ h)
  after_third-IsLike bltu n i s h = IsLike-eq (checked _ h)
  after_third-IsLike bne n i s h = IsLike-eq (checked _ h)
  after_third-IsLike _ n i s h = IsLike-eq h

  resolve-cleared :
      (o : Operand) (line : ℤ) {a : Operand}
      → resolve report max_src_len labels o line ≡ ok a
      → is_label a.type ≡ false
  resolve-cleared o line h =
      let (addr, _, same) = bind-eq-ok (label_addr report o.label labels line) _ h in
      ap (λ (b : Operand). is_label b.type) (sym (ok-injective same))

  first_operand-cleared :
      (i : Instr) {j : Instr}
      → first_operand report max_src_len labels i ≡ ok j
      → (j.op ≡ i.op) × (is_label j.a1.type ≡ false)
  unfolding first_operand
  first_operand-cleared i {j} h = elim (Bool-cases (is_label i.a1.type)) [
    | inl yes' ↦
        let h1 : (resolve report max_src_len labels i.a1 i.orig_line >>= λ a.
        ok (record i { a1 = a }))
            ≡ ok j =
          rw yes' at h in
        let (a, got, same) = bind-eq-ok (resolve report max_src_len labels i.a1 i.orig_line) _ h1 in
        (
          ap (λ (k : Instr). k.op) (sym (ok-injective same)),
          ap (λ (k : Instr). is_label k.a1.type) (sym (ok-injective same))
              ∙ resolve-cleared i.a1 i.orig_line got,
        )
    | inr no' ↦
        let same : i ≡ j = ok-injective (rw no' at h) in
        (
          ap (λ (k : Instr). k.op) (sym same),
          ap (λ (k : Instr). is_label k.a1.type) (sym same) ∙ no',
        )
  ]

  second_operand-cleared :
      (n : ℕ) (i : Instr) (s : Source) {s' : Source} {j : Instr}
      → second_operand report max_src_len labels n i s ≡ ok (s', j)
      → (j.op ≡ i.op) × (is_label j.a1.type ≡ is_label i.a1.type) × (is_label j.a2.type ≡ false)
  unfolding second_operand
  second_operand-cleared n i s {s'} {j} h = elim (Bool-cases (is_label i.a2.type)) [
    | inl yes' ↦
        let h1 : (resolve report max_src_len labels i.a2 i.orig_line >>= λ a.
        after_second report max_src_len labels i.op n (record i { a2 = a }) s)
            ≡ ok (s', j) =
          rw yes' at h in
        let (a, got, rest) = bind-eq-ok (resolve report max_src_len labels i.a2 i.orig_line) _ h1 in
        let l = after_second-IsLike i.op n (record i { a2 = a }) s rest in
        (l.op, l.a1, l.a2 ∙ resolve-cleared i.a2 i.orig_line got)
    | inr no' ↦ let l : IsLike i j = IsLike-eq (rw no' at h) in (l.op, l.a1, l.a2 ∙ no')
  ]

  third_operand-cleared :
      (n : ℕ) (i : Instr) (s : Source) {s' : Source} {j : Instr}
      → third_operand report max_src_len labels n i s ≡ ok (s', j)
      → (is_label j.a1.type ≡ is_label i.a1.type)
        × (is_label j.a2.type ≡ is_label i.a2.type)
        × (is_label j.a3.type ≡ false)
  unfolding third_operand
  third_operand-cleared n i s {s'} {j} h = elim (Bool-cases (is_label i.a3.type)) [
    | inl yes' ↦
        let h1 : (resolve report max_src_len labels i.a3 i.orig_line >>= λ a.
        after_third report max_src_len labels i.op n (record i { a3 = a }) s)
            ≡ ok (s', j) =
          rw yes' at h in
        let (a, got, rest) = bind-eq-ok (resolve report max_src_len labels i.a3 i.orig_line) _ h1 in
        let l = after_third-IsLike i.op n (record i { a3 = a }) s rest in
        (l.a1, l.a2, l.a3 ∙ resolve-cleared i.a3 i.orig_line got)
    | inr no' ↦ let l : IsLike i j = IsLike-eq (rw no' at h) in (l.a1, l.a2, l.a3 ∙ no')
  ]

  operands-NoLabels :
      (n : ℕ) (i : Instr) (s : Source) {s' : Source} {j : Instr}
      → operands report max_src_len labels n i s ≡ ok (s', j)
      → NoLabels j
  unfolding operands
  operands-NoLabels n i s h =
      let (i1, first, h1) = bind-eq-ok (first_operand report max_src_len labels i) _ h in
      let (x2, second, h2) = bind-eq-ok (second_operand report max_src_len labels n i1 s) _ h1 in
      let c1 = first_operand-cleared i first in
      let c2 = second_operand-cleared n i1 s second in
      let c3 = third_operand-cleared n x2.1 x2.0 h2 in
      record { a1 = c3.0 ∙ c2.1 ∙ c1.1; a2 = c3.1 ∙ c2.2; a3 = c3.2 }

  normalize_instr-IsResolved :
      (op : InstrType) (n : ℕ) (i : Instr) (s : Source) {s' : Source} {j : Instr}
      → i.op ≡ op
      → normalize_instr report max_src_len labels op n i s ≡ ok (s', j)
      → IsResolved j
  unfolding normalize_instr
  normalize_instr-IsResolved unimpl n i s e h =
      inl (ap (λ (p : Source × Instr). p.1.op) (sym (ok-injective h)) ∙ e)
  normalize_instr-IsResolved _ n i s e h = inr (operands-NoLabels n i s h)

  -- When `normalize_labels` succeeds, the memory has as many instructions as before, and each is
  -- UNIMPL or has no label left among its operands.
  pub normalize_labels-IsResolved :
      (n : ℕ) (imem : List Instr) (s : Source) {s' : Source} {imem' : List Instr}
      → normalize_labels report max_src_len labels n imem s ≡ ok (s', imem')
      → (length imem' ≡ length imem) × All IsResolved imem'
  unfolding normalize_labels
  normalize_labels-IsResolved n [] s h =
      let same = ap (λ (p : Source × List Instr). p.1) (ok-injective h) in
      subst (λ (l : List Instr). (length l ≡ 0) × All IsResolved l) same (refl, tt)
  normalize_labels-IsResolved n (i ∷ imem) s h =
      let (x, one, rest) = bind-eq-ok (normalize_instr report max_src_len labels i.op n i s) _ h in
      let (y, more, same) =
        bind-eq-ok (normalize_labels report max_src_len labels (n + 1) imem x.0) _ rest in
      let (len, all) = normalize_labels-IsResolved (n + 1) imem x.0 more in
      subst (λ (l : List Instr). (length l ≡ suc (length imem)) × All IsResolved l)
        (ap (λ (p : Source × List Instr). p.1) (ok-injective same))
        (ap suc len, (normalize_instr-IsResolved i.op n i s refl one, all))
