-- ===== src/Emulator/Text.antt =====
-- Text as the assembler sees it: a `char*` is the list of its bytes up to the NUL.
use Prim.Native.Char.{code}
use Prim.Native.String.{String}
use aias_lab.Prelude.Result.{Result}
use aias_lab.Prelude.Int.{ℤ}
use aias_lab.Prelude.{
  ℕ, ◌+◌, ◌≡◌, refl, Bool, true, false, ◌&&◌, Option, none, some, List, [], ◌∷◌, ◌==◌, leb,
  if◌then◌else◌, arith, ◌↔◌,
}

-- The bytes of an ASCII literal.
abbrev pub codes : String → List ℕ
codes String.[] = []
codes (String.◌∷◌ c s) = code c ∷ codes s

-- `tolower` in the C locale.
abbrev pub to_lower : ℕ → ℕ
to_lower c = if leb 65 c && leb c 90 then c + 32 else c

abbrev pub lower : List ℕ → List ℕ
lower [] = []
lower (c ∷ s) = to_lower c ∷ lower s

-- `Emulator::streq`.
unfoldable pub streq : List ℕ → List ℕ → Bool
streq [] [] = true
streq (a ∷ s) (b ∷ t) = (a == b) && streq s t
streq _ _ = false

-- A chain of `if (streq(tok, key)) return value;`.
unfoldable pub first_equal {ℓ} : {V : Type ℓ} → List ℕ → List (List ℕ × V) → Option V
unfolding streq
first_equal tok [] = none
first_equal tok ((key, value) ∷ chain) = if streq tok key then some value else first_equal tok chain

pub streq_iff : (s t : List ℕ) → (streq s t ≡ true) ↔ (s ≡ t)
unfolding streq
streq_iff [] [] = (λ _. refl, λ _. refl)
streq_iff [] (b ∷ t) = (λ h. cc, λ h. cc)
streq_iff (a ∷ s) [] = (λ h. cc, λ h. cc)
streq_iff (a ∷ s) (b ∷ t) = ground (arith, streq_iff s t)

-- `print_syntax_error` of a line. The framework's ERROR stream may stop the program or return.
abbrev pub Reporter : Type 0
Reporter = ℤ → Result (Unit {0})
