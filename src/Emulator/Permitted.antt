-- ===== src/Emulator/Permitted.antt =====
-- Statements that the CPU carries out the way the manual has them.
use aias_lab.Prelude.{
  ℕ, zero, suc, ◌/◌, ◌≡◌, sym, ap, ◌∙◌, inl, inr, arith, Option, none, some, List, get_elem?,
  Option-cases,
}
use mathlib.Core.Path.{subst}
use aias_lab.Instr.{Instr}
use aias_lab.Isa.{Arch}
use aias_lab.Cpu.Program.{IsAllowedHere, AllAllowed}
use aias_lab.Emulator.Listing.{Statement, AreEntries}
use aias_lab.Emulator.Plain.{AllPlain}
use aias_lab.Emulator.Field.{AllInField}
use aias_lab.Emulator.Meant.{
  IsPermitted, source_next, source_run, AreEntries-Means, source_run-isa_run,
}

-- The statement at the pc, if there is one, is allowed in a memory of `size` bytes.
abbrev pub IsPermittedHere : ℕ → Arch → Option Statement → Type 0
IsPermittedHere size a none = Unit
IsPermittedHere size a (some x) = IsPermitted x size a

abbrev pub IsPermittedNext : List Statement → ℕ → Option Arch → Type 0
IsPermittedNext xs size none = Unit
IsPermittedNext xs size (some a) = IsPermittedHere size a (get_elem? xs (a.pc / 4))

-- So are the first `n` that are executed.
abbrev pub AllPermitted : List Statement → ℕ → ℕ → Arch → Type 0
AllPermitted xs size zero a = Unit
AllPermitted xs size (suc n) a =
    AllPermitted xs size n a × IsPermittedNext xs size (source_run xs n a)

IsPermittedHere-IsAllowedHere :
    (line : ℕ) (xs : List Statement) (old imem : List Instr) (size : ℕ) (a : Arch) {b : Arch}
    → AllPlain xs
    → AllInField xs
    → AreEntries line xs 0 old imem
    → source_next xs (some a) ≡ some b
    → IsPermittedHere size a (get_elem? xs (a.pc / 4))
    → IsAllowedHere size a (get_elem? imem (a.pc / 4))
IsPermittedHere-IsAllowedHere line xs old imem size a plain q e goes_on h =
    let k = a.pc / 4 in
    elim (Option-cases (get_elem? xs k)) [
      | inl absent ↦ absurd (cc)
      | inr (x, slot) ↦
          let (i, at, m) = AreEntries-Means line xs 0 k old imem plain q e slot in
          let here : get_elem? imem k ≡ some i = ap (get_elem? imem) (omega arith) ∙ at in
          rw here (m.allowed size a (subst (IsPermittedHere size a) slot h))
    ]

pub AllPermitted-AllAllowed :
    (line : ℕ) (xs : List Statement) (old imem : List Instr) (size n : ℕ) (a : Arch) {b : Arch}
    → AllPlain xs
    → AllInField xs
    → AreEntries line xs 0 old imem
    → source_run xs n a ≡ some b
    → AllPermitted xs size n a
    → AllAllowed imem size n a
unfolding source_run
AllPermitted-AllAllowed line xs old imem size zero a plain q e goes_on h = tt
AllPermitted-AllAllowed line xs old imem size (suc n) a plain q e goes_on (h, next) =
    elim (Option-cases (source_run xs n a)) [
      | inl absent ↦ absurd (cc)
      | inr (c, before) ↦
          let (r, ran, same) = source_run-isa_run line xs old imem n a plain q e before in
          (
            AllPermitted-AllAllowed line xs old imem size n a plain q e before h,
            rw ran (
                subst (λ (z : Arch). IsAllowedHere size z (get_elem? imem (z.pc / 4))) (sym same)
                  (IsPermittedHere-IsAllowedHere line xs old imem size c plain q e
                    (ap (source_next xs) (sym before) ∙ goes_on)
                    (subst (IsPermittedNext xs size) before next))),
          )
    ]
