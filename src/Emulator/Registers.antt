-- ===== src/Emulator/Registers.antt =====
-- `Emulator::parse_reg`: register names.
use aias_lab.Prelude.{ℕ, Bool, ◌||◌, none, some, List, [], ◌∷◌, ◌==◌, if◌then◌else◌}
use aias_lab.Prelude.Result.{Result, ok, ◌>>=◌, ◌>>◌}
use aias_lab.Prelude.Int.{ℤ, pos, negsuc, ltb_ℤ}
use aias_lab.Emulator.Text.{codes, first_equal, Reporter}
use aias_lab.Emulator.Numbers.{atoi}

-- The chain of comparisons, in its order: x0 to x31 by their ABI names.
abbrev pub abi_names : List (List ℕ × ℕ)
abi_names =
    (codes "zero", 0)
    ∷ (codes "ra", 1)
    ∷ (codes "sp", 2)
    ∷ (codes "gp", 3)
    ∷ (codes "tp", 4)
    ∷ (codes "t0", 5)
    ∷ (codes "t1", 6)
    ∷ (codes "t2", 7)
    ∷ (codes "s0", 8)
    ∷ (codes "s1", 9)
    ∷ (codes "a0", 10)
    ∷ (codes "a1", 11)
    ∷ (codes "a2", 12)
    ∷ (codes "a3", 13)
    ∷ (codes "a4", 14)
    ∷ (codes "a5", 15)
    ∷ (codes "a6", 16)
    ∷ (codes "a7", 17)
    ∷ (codes "s2", 18)
    ∷ (codes "s3", 19)
    ∷ (codes "s4", 20)
    ∷ (codes "s5", 21)
    ∷ (codes "s6", 22)
    ∷ (codes "s7", 23)
    ∷ (codes "s8", 24)
    ∷ (codes "s9", 25)
    ∷ (codes "s10", 26)
    ∷ (codes "s11", 27)
    ∷ (codes "t3", 28)
    ∷ (codes "t4", 29)
    ∷ (codes "t5", 30)
    ∷ (codes "t6", 31)
    ∷ []

-- "Malformed register name".
abbrev malformed : Reporter → ℕ → Bool → Result ℤ
malformed report line strict = do if strict then report (pos line) else ok tt; ok (negsuc 0)

-- The part of `parse_reg` behind the test for 'x'.
unfoldable named : Reporter → List ℕ → ℕ → Bool → Result ℤ
unfolding first_equal
named report tok line strict = elim (first_equal tok abi_names) [
  | none ↦ malformed report line strict
  | some r ↦ ok (pos r)
]

unfoldable pub parse_reg : Reporter → List ℕ → ℕ → Bool → Result ℤ
unfolding named
parse_reg report [] line strict = named report [] line strict
parse_reg report (c ∷ tok) line strict =
    if c == 120
    then (do
      ri ← atoi tok
      if ltb_ℤ ri (pos 0) || ltb_ℤ (pos 32) ri then malformed report line strict else ok ri)
    else named report (c ∷ tok) line strict
