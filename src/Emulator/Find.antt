-- ===== src/Emulator/Find.antt =====
-- Which definition of a label `label_addr` finds.
use aias_lab.Prelude.{
  ℕ, ◌-◌, ◌<◌, ◌^◌, ◌≡◌, ◌≢◌, refl, ◌∙◌, true, false, Bool-cases, inl, inr, List, [], ◌∷◌, ◌++◌,
  lt→ltb, length, All,
}
use aias_lab.Prelude.Result.{ok, ◌>>=◌}
use aias_lab.Prelude.Int.{ℤ}
use aias_lab.Instr.{max_label_len}
use aias_lab.Emulator.Text.{streq, streq_iff, Reporter}
use aias_lab.Emulator.Labels.{LabelLoc, label_addr}

abbrev pub IsOther : List ℕ → LabelLoc → Type 0
IsOther label l = l.label ≢ label

streq-same : (s : List ℕ) → streq s s ≡ true
streq-same s = (streq_iff s s).1 refl

streq-other : (s t : List ℕ) → s ≢ t → streq s t ≡ false
streq-other s t ne = elim (Bool-cases (streq s t)) [
  | inl same ↦ absurd (ne ((streq_iff s t).0 same))
  | inr other ↦ other
]

module _ (report : Reporter) (label : List ℕ) (fits : length label < max_label_len) (line : ℤ) where
  -- Definitions of other labels are passed over.
  skip-others :
      (before rest : List LabelLoc)
      → All (IsOther label) before
      → label_addr report label (before ++ rest) line ≡ label_addr report label rest line
  unfolding label_addr
  skip-others [] rest a = refl
  skip-others (l ∷ before) rest a =
      rw (lt→ltb _ _ fits, streq-other l.label label a.0) (skip-others before rest a.1)

  found :
      (after : List LabelLoc) (loc : ℕ)
      → label_addr report label (record { label = label; loc = loc } ∷ after) line ≡ ok loc
  unfolding label_addr
  found after loc = rw (lt→ltb _ _ fits, streq-same label) refl

  missing :
      (labels : List LabelLoc)
      → All (IsOther label) labels
      → label_addr report label labels line ≡ (report line >>= λ _. ok (2 ^ 32 - 1))
  unfolding label_addr
  missing [] a = refl
  missing (l ∷ labels) a = rw (lt→ltb _ _ fits, streq-other l.label label a.0) (missing labels a.1)

  -- A label that fits its array is found at its first definition, whatever follows. Without one,
  -- the error is reported, and if the report returns the address is 2 ^ 32 - 1.
  pub label_addr-first :
      (before after : List LabelLoc) (loc : ℕ)
      → All (IsOther label) before
      → (label_addr report label (before ++ record { label = label; loc = loc } ∷ after) line
          ≡ ok loc)
        × (label_addr report label before line ≡ (report line >>= λ _. ok (2 ^ 32 - 1)))
  label_addr-first before after loc a = (
    skip-others before (record { label = label; loc = loc } ∷ after) a ∙ found after loc,
    missing before a,
  )
