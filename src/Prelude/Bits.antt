-- ===== src/Prelude/Bits.antt =====
-- Facts about `&`, `|` and `^` at variables, from the recursion on binary digits that the native
-- operations stand for: one equation for the lowest digit, then bounds and masks at every width.
use Prim.Native.Nat.{
  ℕ, zero, suc, ◌+◌, ◌-◌, ◌*◌, ◌/◌, ◌%◌, ◌^◌, ◌≤◌, ◌<◌, min, max, bit_and, bit_or, bit_xor, digits,
  bitwise, differ, bit_and-bitwise, bit_or-bitwise, bit_xor-bitwise,
}
use mathlib.Core.Path.{◌≡◌, refl, sym, ap, ◌∙◌}
use native.Mathlib.Nat.{pow-suc, one-le-pow, mod-add-div, div-div-eq-div-mul}
use native.Mathlib.Omega.{arith}

module _ (rest : ℕ → ℕ) (combine : ℕ → ℕ → ℕ) where
  spent : (fuel b : ℕ) → digits rest combine fuel 0 b ≡ rest b
  spent zero b = refl
  spent (suc fuel) b = refl

  -- Fuel beyond the first operand changes nothing.
  spare_fuel :
      (enough spare a b : ℕ)
      → a ≤ enough
      → digits rest combine (enough + spare) a b ≡ digits rest combine enough a b
  spare_fuel enough spare zero b h = spent (enough + spare) b ∙ sym (spent enough b)
  spare_fuel zero spare (suc a) b h = absurd (omega arith)
  spare_fuel (suc enough) spare (suc a) b h =
      let shift : suc enough + spare ≡ suc (enough + spare) = omega arith in
      ap (λ (n : ℕ). digits rest combine n (suc a) b) shift
      ∙ ap (λ (higher : ℕ). higher * 2 + combine (suc a % 2) (b % 2))
          (spare_fuel enough spare (suc a / 2) (b / 2) (omega arith))

  half_fuel : (a b : ℕ) → digits rest combine a (suc a / 2) b ≡ bitwise rest combine (suc a / 2) b
  half_fuel a b =
      let split : suc a / 2 + (a - suc a / 2) ≡ a = omega arith in
      ap (λ (n : ℕ). digits rest combine n (suc a / 2) b) (sym split)
      ∙ spare_fuel (suc a / 2) (a - suc a / 2) (suc a / 2) b (omega arith)

  -- The lowest digits are combined apart from the others.
  lowest :
      ((b : ℕ) → rest b ≡ rest (b / 2) * 2 + combine 0 (b % 2))
      → (a b : ℕ)
      → bitwise rest combine a b
        ≡ bitwise rest combine (a / 2) (b / 2) * 2 + combine (a % 2) (b % 2)
  lowest at_zero zero b = at_zero b
  lowest at_zero (suc a) b = omega (arith, half_fuel a (b / 2))

pub bit_and_step : (a b : ℕ) → bit_and a b ≡ bit_and (a / 2) (b / 2) * 2 + min (a % 2) (b % 2)
bit_and_step a b = simp bit_and-bitwise (lowest (λ _. 0) min (λ c. omega arith) a b)

pub bit_xor_step : (a b : ℕ) → bit_xor a b ≡ bit_xor (a / 2) (b / 2) * 2 + differ (a % 2) (b % 2)
bit_xor_step a b = simp bit_xor-bitwise (lowest (λ c. c) differ (λ c. omega arith) a b)

pub bit_or_step : (a b : ℕ) → bit_or a b ≡ bit_or (a / 2) (b / 2) * 2 + max (a % 2) (b % 2)
bit_or_step a b = simp bit_or-bitwise (lowest (λ c. c) max (λ c. omega arith) a b)

-- An operand without digits, by induction on a bound of the other.
without_digits : (bound a : ℕ) → a ≤ bound → (bit_and a 0 ≡ 0) × (bit_or a 0 ≡ a)
without_digits bound zero h = (refl, refl)
without_digits zero (suc a) h = absurd (omega arith)
without_digits (suc bound) (suc a) h =
    let (both, either) = without_digits bound (suc a / 2) (omega arith) in
    (omega (arith, both, bit_and_step (suc a) 0), omega (arith, either, bit_or_step (suc a) 0))

pub bit_and-zero : (a : ℕ) → bit_and a 0 ≡ 0
bit_and-zero a = (without_digits a a (omega arith)).0

pub bit_or-zero : (a : ℕ) → bit_or a 0 ≡ a
bit_or-zero a = (without_digits a a (omega arith)).1

-- Results keep the width of the operands.
pub bit_and-lt : (k a b : ℕ) → a < 2 ^ k → b < 2 ^ k → bit_and a b < 2 ^ k
bit_and-lt zero zero zero p q = omega arith
bit_and-lt zero (suc a) b p q = absurd (omega arith)
bit_and-lt zero zero (suc b) p q = absurd (omega arith)
bit_and-lt (suc k) a b p q = omega (
  arith,
  pow-suc 2 k,
  bit_and_step a b,
  bit_and-lt k (a / 2) (b / 2) (omega (arith, pow-suc 2 k)) (omega (arith, pow-suc 2 k)),
)

pub bit_or-lt : (k a b : ℕ) → a < 2 ^ k → b < 2 ^ k → bit_or a b < 2 ^ k
bit_or-lt zero zero zero p q = omega arith
bit_or-lt zero (suc a) b p q = absurd (omega arith)
bit_or-lt zero zero (suc b) p q = absurd (omega arith)
bit_or-lt (suc k) a b p q = omega (
  arith,
  pow-suc 2 k,
  bit_or_step a b,
  bit_or-lt k (a / 2) (b / 2) (omega (arith, pow-suc 2 k)) (omega (arith, pow-suc 2 k)),
)

differ-lt : (a b : ℕ) → differ (a % 2) (b % 2) < 2
differ-lt a b = bit (a % 2) (b % 2) (omega arith) (omega arith)
  where
    bit : (x y : ℕ) → x < 2 → y < 2 → differ x y < 2
    bit zero y p q = omega arith
    bit (suc zero) zero p q = omega arith
    bit (suc zero) (suc y) p q = omega arith
    bit (suc (suc x)) y p q = absurd (omega arith)

pub bit_xor-lt : (k a b : ℕ) → a < 2 ^ k → b < 2 ^ k → bit_xor a b < 2 ^ k
bit_xor-lt zero zero zero p q = omega arith
bit_xor-lt zero (suc a) b p q = absurd (omega arith)
bit_xor-lt zero zero (suc b) p q = absurd (omega arith)
bit_xor-lt (suc k) a b p q = omega (
  arith,
  pow-suc 2 k,
  bit_xor_step a b,
  differ-lt a b,
  bit_xor-lt k (a / 2) (b / 2) (omega (arith, pow-suc 2 k)) (omega (arith, pow-suc 2 k)),
)

half_mask : (k : ℕ) → (2 ^ suc k - 1) / 2 ≡ 2 ^ k - 1
half_mask k = omega (arith, pow-suc 2 k, one-le-pow k 2)

pub pow_suc_two : (k : ℕ) → 2 ^ suc k ≡ 2 * 2 ^ k
pow_suc_two k = omega (arith, pow-suc 2 k)

pub mod_double : (a p : ℕ) → a % (2 * p) ≡ a / 2 % p * 2 + a % 2
mod_double a p = omega (
  arith,
  mod-add-div a (2 * p),
  mod-add-div (a / 2) p,
  ap (λ (t : ℕ). p * t) (div-div-eq-div-mul a 2 p),
)

-- A mask of `k` low bits is the remainder by `2 ^ k`.
pub bit_and_mask : (k a : ℕ) → bit_and a (2 ^ k - 1) ≡ a % 2 ^ k
bit_and_mask zero a = rw (bit_and-zero a) (omega arith)
bit_and_mask (suc k) a =
    bit_and_step a (2 ^ suc k - 1)
    ∙ rw (half_mask k, bit_and_mask k (a / 2))
        (omega (
          arith,
          pow-suc 2 k,
          one-le-pow k 2,
          mod_double a (2 ^ k),
          ap (λ (t : ℕ). a % t) (pow_suc_two k),
        ))
