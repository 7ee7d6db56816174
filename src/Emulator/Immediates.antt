-- ===== src/Emulator/Immediates.antt =====
-- What `signextend` makes of the immediates that `parse_imm` accepts.
use aias_lab.Prelude.{
  ℕ, zero, suc, ◌+◌, ◌-◌, ◌*◌, ◌/◌, ◌%◌, ◌≤◌, ◌<◌, ◌^◌, ◌≡◌, refl, sym, ap, ◌∙◌, Bool, true, false,
  not, ◌&&◌, ◌||◌, List, arith, ltb, if◌then◌else◌, bit_and, bit_or, Bool-cases, inl, inr,
}
use native.Mathlib.Nat.{div-div-eq-div-mul, div-one, mul-one}
use aias_lab.Prelude.Bits.{bit_and_step, bit_or_step, bit_and-zero, mod_double, pow_suc_two}
use aias_lab.Prelude.Result.{ok, exit, guard, bind-eq-ok, ok-injective}
use aias_lab.Prelude.Int.{ℤ, pos, negsuc, ltb_ℤ, ◌-ℤ◌}
use native.Mathlib.Decide.{dec_lt}
use aias_lab.Isa.{wrap, to_signed}
use aias_lab.Emulator.Text.{Reporter}
use aias_lab.Emulator.Numbers.{strtol, low_word, starts_number, parse_imm, signextend}

-- Doubling the divisor halves first.
div_double : (v k : ℕ) → v / 2 ^ suc k ≡ v / 2 / 2 ^ k
div_double v k = ap (λ (t : ℕ). v / t) (pow_suc_two k) ∙ sym (div-div-eq-div-mul v 2 (2 ^ k))

half : (m : ℕ) → (2 * m / 2 ≡ m) × (2 * m % 2 ≡ 0)
half m = (omega arith, omega arith)

shift : (a m : ℕ) → a * (2 * m) ≡ 2 * (a * m)
shift a m = omega arith

-- The bit at `k`.
bit_and-power : (k v : ℕ) → bit_and v (2 ^ k) ≡ v / 2 ^ k % 2 * 2 ^ k
bit_and-power zero v = bit_and_step v 1 ∙ rw (bit_and-zero (v / 2)) (ground arith)
bit_and-power (suc k) v =
    bit_and_step v (2 ^ suc k)
    ∙ rw
        (div_double v k, pow_suc_two k, (half (2 ^ k)).0, (half (2 ^ k)).1, bit_and-power k (v / 2))
        (ground arith)

-- `|` with a multiple of a power leaves the digits below it.
bit_or-high : (k a v : ℕ) → bit_or (a * 2 ^ k) v ≡ bit_or a (v / 2 ^ k) * 2 ^ k + v % 2 ^ k
bit_or-high zero a v = rw (mul-one a, div-one v) (omega arith)
bit_or-high (suc k) a v =
    ap (λ (t : ℕ). bit_or t v) (ap (λ (t : ℕ). a * t) (pow_suc_two k) ∙ shift a (2 ^ k))
    ∙ bit_or_step (2 * (a * 2 ^ k)) v
    ∙ rw
        (
          (half (a * 2 ^ k)).0,
          (half (a * 2 ^ k)).1,
          bit_or-high k a (v / 2),
          div_double v k,
          pow_suc_two k,
          mod_double v (2 ^ k),
        )
        (ground arith)

-- The sign test and the extension, on a word given by its upper 20 bits.
extend_low : (v : ℕ) → v < 2 ^ 11 → signextend v 12 ≡ v
unfolding signextend
extend_low v lt = rw (bit_and-power 11 v) (ground arith)

extend_high : (v : ℕ) → 2 ^ 11 ≤ v → v < 2 ^ 12 → signextend v 12 ≡ v + (2 ^ 32 - 2 ^ 12)
unfolding signextend
extend_high v le lt =
    let bit : v / 2 ^ 11 % 2 ≡ 1 = omega arith in
    let upper : v / 2 ^ 12 ≡ 0 = omega arith in
    rw (bit_and-power 11 v, bit) (bit_or-high 12 (2 ^ 20 - 1) v ∙ rw upper (omega arith))

extend_negative : (v : ℕ) → 2 ^ 32 - 2 ^ 11 ≤ v → v < 2 ^ 32 → signextend v 12 ≡ v
unfolding signextend
extend_negative v le lt =
    let bit : v / 2 ^ 11 % 2 ≡ 1 = omega arith in
    let upper : v / 2 ^ 12 ≡ 2 ^ 20 - 1 = omega arith in
    rw (bit_and-power 11 v, bit) (bit_or-high 12 (2 ^ 20 - 1) v ∙ rw upper (omega arith))

-- A field of 12 bits is read in two's complement.
pub signextend-to_signed : (v : ℕ) → v < 2 ^ 12 → signextend v 12 ≡ wrap (to_signed 12 v)
signextend-to_signed v lt = elim (dec_lt v (2 ^ 11)) [
  | yes low ↦ extend_low v low ∙ ground arith
  | no high ↦ extend_high v (omega arith) lt ∙ ground arith
]

-- The number that a 12-bit field stands for.
abbrev pub field : ℤ → ℤ
field x = if ltb_ℤ (pos (2 ^ 11 - 1)) x then x -ℤ pos (2 ^ 12) else x

signextend-low_word :
    (x : ℤ)
    → (ltb_ℤ (pos (2 ^ 12 - 1)) x || ltb_ℤ x (negsuc (2 ^ 11 - 1))) ≡ false
    → signextend (low_word x) 12 ≡ low_word (field x)
signextend-low_word (pos n) h =
    let below : n < 2 ^ 12 = ground arith in
    let same : n % 2 ^ 32 ≡ n = omega arith in
    elim (Bool-cases (ltb (2 ^ 11 - 1) n)) [
      | inl high ↦
          ap (λ (v : ℕ). signextend v 12) same ∙ extend_high n (ground arith) below ∙ ground arith
      | inr low ↦ ap (λ (v : ℕ). signextend v 12) same ∙ extend_low n (ground arith) ∙ ground arith
    ]
signextend-low_word (negsuc m) h =
    let above : m < 2 ^ 11 = ground arith in
    extend_negative (2 ^ 32 - 1 - m % 2 ^ 32) (omega arith) (omega arith) ∙ ground arith

-- An immediate that `parse_imm` accepts at 12 bits is stored by `signextend` as a word in two's
-- complement: as it was written up to 2047, and less 4096 above, where its sign bit is set.
pub signextend-parse_imm :
    (report : Reporter) (tok : List ℕ) (line : ℕ) (strict : Bool) {v : ℕ}
    → parse_imm report tok 12 line strict ≡ ok v
    → signextend v 12 ≡ low_word (field (strtol tok).0)
unfolding parse_imm
signextend-parse_imm report tok line strict {v} h =
    let x = (strtol tok).0 in
    let (_, _, h1) =
      bind-eq-ok (if not (starts_number tok) && strict then report (pos line) else ok tt) _ h in
    let (_, checked, h2) =
      bind-eq-ok
        (guard (not (ltb_ℤ (pos (2 ^ 12 - 1)) x || ltb_ℤ x (negsuc (2 ^ 11 - 1)))) (exit 1)) _ h1 in
    ap (λ (w : ℕ). signextend w 12) (sym (ok-injective h2))
    ∙ signextend-low_word x
        (in_range (ltb_ℤ (pos (2 ^ 12 - 1)) x || ltb_ℤ x (negsuc (2 ^ 11 - 1))) checked)
  where
    in_range : (b : Bool) {u : Unit {0}} → guard (not b) (exit 1) ≡ ok u → b ≡ false
    in_range true e = cc
    in_range false e = refl
