-- ===== src/Stage/Independent.antt =====
-- What the hazard check means, for the instructions that it lists: the pending instruction writes
-- a register, other than x0, that the next one reads.
use aias_lab.Prelude.{
  ◌≡◌, ◌≢◌, refl, ◌↔◌, ◌⊎◌, inl, inr, Bool, true, false, not, ◌&&◌, ◌||◌, sym, ◌∙◌, Option, none,
  some, List, [], ◌∷◌, arith, eq_of_some,
}
use aias_lab.Prelude.Int.{ℤ, pos}
use aias_lab.Instr.{
  InstrType, unimpl, add, addi, andi, auipc, beq, bge, bgeu, blt, bltu, bne, jal, jalr, lb, lbu, lh,
  lhu, lui, lw, ori, sb, sh, slli, slti, sltiu, srai, srli, sw, xori, hcf, Instr,
}
use aias_lab.Stage.Hazard.{eqb, dest_of, get_dest_reg, sources_of, check_data_hazard}

-- The register that the CPU's switch writes, and those that it reads.
abbrev pub writes : InstrType → Instr → Option ℤ
writes beq i = none
writes bge i = none
writes bgeu i = none
writes blt i = none
writes bltu i = none
writes bne i = none
writes sb i = none
writes sh i = none
writes sw i = none
writes hcf i = none
writes unimpl i = none
writes _ i = some i.a1.reg

abbrev pub reads : InstrType → Instr → List ℤ
reads jal i = []
reads lui i = []
reads auipc i = []
reads hcf i = []
reads unimpl i = []
reads addi i = i.a2.reg ∷ []
reads slti i = i.a2.reg ∷ []
reads sltiu i = i.a2.reg ∷ []
reads andi i = i.a2.reg ∷ []
reads ori i = i.a2.reg ∷ []
reads xori i = i.a2.reg ∷ []
reads slli i = i.a2.reg ∷ []
reads srli i = i.a2.reg ∷ []
reads srai i = i.a2.reg ∷ []
reads jalr i = i.a2.reg ∷ []
reads lb i = i.a2.reg ∷ []
reads lbu i = i.a2.reg ∷ []
reads lh i = i.a2.reg ∷ []
reads lhu i = i.a2.reg ∷ []
reads lw i = i.a2.reg ∷ []
reads beq i = i.a1.reg ∷ i.a2.reg ∷ []
reads bge i = i.a1.reg ∷ i.a2.reg ∷ []
reads bgeu i = i.a1.reg ∷ i.a2.reg ∷ []
reads blt i = i.a1.reg ∷ i.a2.reg ∷ []
reads bltu i = i.a1.reg ∷ i.a2.reg ∷ []
reads bne i = i.a1.reg ∷ i.a2.reg ∷ []
reads sb i = i.a1.reg ∷ i.a2.reg ∷ []
reads sh i = i.a1.reg ∷ i.a2.reg ∷ []
reads sw i = i.a1.reg ∷ i.a2.reg ∷ []
reads _ i = i.a2.reg ∷ i.a3.reg ∷ []

-- The instructions that the two switches of the IF stage list.
abbrev pub is_listed : InstrType → Bool
is_listed add = true
is_listed addi = true
is_listed lw = true
is_listed lui = true
is_listed jal = true
is_listed beq = true
is_listed sb = true
is_listed _ = false

abbrev pub Among : ℤ → List ℤ → Type 0
Among r [] = ⊥
Among r (x ∷ xs) = (r ≡ x) ⊎ Among r xs

-- A read after a write of a register other than x0.
abbrev pub DependsOn : Instr → Instr → Type 0
DependsOn p c = (r : ℤ) × (writes p.op p ≡ some r) × (r ≢ pos 0) × Among r (reads c.op c)

pub eqb_iff : (a b : ℤ) → (eqb a b ≡ true) ↔ (a ≡ b)
eqb_iff a b = ground arith

dest_lem :
    (op : InstrType) (i : Instr)
    → is_listed op ≡ true
    → ((writes op i ≡ some (dest_of op i)) ⊎ (writes op i ≡ none) × (dest_of op i ≡ pos 0))
unfolding dest_of
dest_lem add i h = inl refl
dest_lem addi i h = inl refl
dest_lem lw i h = inl refl
dest_lem lui i h = inl refl
dest_lem jal i h = inl refl
dest_lem beq i h = inr (refl, refl)
dest_lem sb i h = inr (refl, refl)
dest_lem _ i h = absurd (cc)

sources_lem :
    (op : InstrType) (i : Instr) (r : ℤ)
    → is_listed op ≡ true
    → r ≢ pos 0
    → Among r (reads op i) ↔ ((r ≡ (sources_of op i).0) ⊎ (r ≡ (sources_of op i).1))
unfolding sources_of
sources_lem add i r h n = ground arith
sources_lem addi i r h n = ground arith
sources_lem lw i r h n = ground arith
sources_lem lui i r h n = ground arith
sources_lem jal i r h n = ground arith
sources_lem beq i r h n = ground arith
sources_lem sb i r h n = ground arith
sources_lem _ i r h n = absurd (cc)

hazard_iff :
    (d a b : ℤ)
    → (((eqb d a || eqb d b) && not (eqb d (pos 0))) ≡ true) ↔ ((d ≢ pos 0) × ((d ≡ a) ⊎ (d ≡ b)))
hazard_iff d a b = ground (arith)

no_hazard : (a b : ℤ) → ((eqb (pos 0) a || eqb (pos 0) b) && not (eqb (pos 0) (pos 0))) ≡ false
no_hazard a b = ground arith

unlisted : (op : InstrType) (i : Instr) → is_listed op ≡ false → dest_of op i ≡ pos 0
unfolding dest_of
unlisted add i h = absurd (cc)
unlisted addi i h = absurd (cc)
unlisted lw i h = absurd (cc)
unlisted lui i h = absurd (cc)
unlisted jal i h = absurd (cc)
unlisted _ i h = refl

-- For the listed instructions the check answers true exactly when the instruction in front reads
-- a register, other than x0, that the pending one writes.
pub check_data_hazard_iff :
    (p c : Instr)
    → is_listed p.op ≡ true
    → is_listed c.op ≡ true
    → (check_data_hazard (get_dest_reg p) c ≡ true) ↔ DependsOn p c
unfolding check_data_hazard get_dest_reg
check_data_hazard_iff p c hp hc =
    let d = dest_of p.op p in
    let test = hazard_iff d (sources_of c.op c).0 (sources_of c.op c).1 in
    (
      λ h. elim (dest_lem p.op p hp) [
        | inl w ↦ (d, w, (test.0 h).0, (sources_lem c.op c d hc (test.0 h).0).1 (test.0 h).1)
        | inr (_, z) ↦ absurd ((test.0 h).0 z)
      ],
      λ (r, w, ne, among). elim (dest_lem p.op p hp) [
        | inl w' ↦
            let e : r ≡ d = eq_of_some (sym w ∙ w') in
            test.1 (rw (← e) ne, rw (← e) ((sources_lem c.op c r hc ne).0 among))
        | inr (n, _) ↦ absurd (cc)
      ],
    )

-- Behind any other instruction, whatever it writes, the check finds no data hazard.
pub get_dest_reg_unlisted :
    (p c : Instr) → is_listed p.op ≡ false → check_data_hazard (get_dest_reg p) c ≡ false
unfolding check_data_hazard get_dest_reg
get_dest_reg_unlisted p c h =
    rw (unlisted p.op p h) (no_hazard (sources_of c.op c).0 (sources_of c.op c).1)
