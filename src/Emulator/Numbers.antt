-- ===== src/Emulator/Numbers.antt =====
-- Numbers in the source text: `strtol` and `atoi` of the C library, `Emulator::parse_imm` and
-- `Emulator::signextend`. A `long int` has 64 bits.
use aias_lab.Prelude.{
  ℕ, zero, suc, ◌+◌, ◌-◌, ◌*◌, ◌%◌, ◌^◌, Bool, true, false, not, ◌&&◌, ◌||◌, Option, none, some,
  List, [], ◌∷◌, ◌==◌, ltb, leb, if◌then◌else◌, bit_and, bit_or,
}
use aias_lab.Prelude.Result.{undefined, exit, Result, ok, err, guard, ◌>>◌}
use aias_lab.Prelude.Int.{ℤ, pos, negsuc, ltb_ℤ}
use aias_lab.Emulator.Text.{Reporter}

-- `isspace`.
abbrev pub is_space : ℕ → Bool
is_space c = c == 32 || (leb 9 c && leb c 13)

abbrev pub skip_space : List ℕ → List ℕ
skip_space [] = []
skip_space (c ∷ s) = if is_space c then skip_space s else c ∷ s

-- The value of a digit in any base up to 36.
abbrev pub digit_of : ℕ → Option ℕ
digit_of c =
    if leb 48 c && leb c 57
    then some (c - 48)
    else if leb 97 c && leb c 122
    then some (c - 87)
    else if leb 65 c && leb c 90
    then some (c - 55)
    else none

abbrev pub is_digit : ℕ → ℕ → Bool
is_digit base c = elim (digit_of c) [ none ↦ false | some d ↦ ltb d base ]

abbrev pub read_digits : ℕ → ℕ → List ℕ → ℕ
read_digits base value [] = value
read_digits base value (c ∷ s) = elim (digit_of c) [
  | none ↦ value
  | some d ↦ if ltb d base then read_digits base (value * base + d) s else value
]

abbrev pub is_x : ℕ → Bool
is_x c = c == 120 || c == 88

-- Base 0: a prefix 0x that a hexadecimal digit follows, a prefix 0, or decimal.
abbrev pub magnitude : List ℕ → ℕ
magnitude [] = 0
magnitude (z ∷ []) = read_digits 10 0 (z ∷ [])
magnitude (z ∷ x ∷ []) = read_digits (if z == 48 then 8 else 10) 0 (z ∷ x ∷ [])
magnitude (z ∷ x ∷ d ∷ s) =
    if z == 48 && (is_x x && is_digit 16 d)
    then read_digits 16 0 (d ∷ s)
    else read_digits (if z == 48 then 8 else 10) 0 (z ∷ x ∷ d ∷ s)

abbrev pub negate : ℕ → ℤ
negate zero = pos 0
negate (suc n) = negsuc n

-- The signed value, and whether it left the range of `long int` (ERANGE).
abbrev pub clamp : Bool → ℕ → ℤ × Bool
clamp minus m =
    if minus
    then if leb m (2 ^ 63) then (negate m, false) else (negsuc (2 ^ 63 - 1), true)
    else if ltb m (2 ^ 63)
    then (pos m, false)
    else (pos (2 ^ 63 - 1), true)

abbrev pub with_sign : (List ℕ → ℕ) → List ℕ → ℤ × Bool
with_sign value [] = (pos 0, false)
with_sign value (c ∷ s) =
    if c == 45 then clamp true (value s) else clamp false (value (if c == 43 then s else c ∷ s))

-- `strtol(tok, NULL, 0)` with the ERANGE flag.
abbrev pub strtol : List ℕ → ℤ × Bool
strtol tok = with_sign magnitude (skip_space tok)

-- `atoi`, undefined outside the range of int.
abbrev pub atoi : List ℕ → Result ℤ
atoi tok =
    let v = (with_sign (read_digits 10 0) (skip_space tok)).0 in
    if ltb_ℤ (pos (2 ^ 31 - 1)) v || ltb_ℤ v (negsuc (2 ^ 31 - 1)) then err undefined else ok v

-- `(uint32_t)(v & UINT32_MAX)` of a `long int`.
abbrev pub low_word : ℤ → ℕ
low_word (pos n) = n % 2 ^ 32
low_word (negsuc n) = 2 ^ 32 - 1 - n % 2 ^ 32

abbrev pub starts_number : List ℕ → Bool
starts_number [] = false
starts_number (c ∷ s) = (leb 48 c && leb c 57) || c == 45

-- `parse_imm`, with `print_syntax_error` as the parameter `report`.
unfoldable pub parse_imm : Reporter → List ℕ → ℕ → ℕ → Bool → Result ℕ
parse_imm report tok bits line strict = do
  if not (starts_number tok) && strict then report (pos line) else ok tt
  let imml = (strtol tok).0
  guard (not (ltb_ℤ (pos (2 ^ bits - 1)) imml || ltb_ℤ imml (negsuc (2 ^ (bits - 1) - 1)))) (exit 1)
  ok (low_word imml)

-- `signextend` of a word.
unfoldable pub signextend : ℕ → ℕ → ℕ
signextend v bits = if bit_and v (2 ^ (bits - 1)) == 0 then v else bit_or (2 ^ 32 - 2 ^ bits) v
