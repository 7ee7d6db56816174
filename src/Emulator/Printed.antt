-- ===== src/Emulator/Printed.antt =====
-- The registers and numbers that the assembler prints into the source text, read again.
use aias_lab.Prelude.{
  ℕ, zero, suc, ◌+◌, ◌-◌, ◌*◌, ◌/◌, ◌%◌, ◌≤◌, ◌<◌, ◌^◌, ◌==◌, ◌≡◌, refl, ap, ◌∙◌, Bool, ◌||◌, true,
  false, lt→ltb, Option, none, some, List, [], ◌∷◌, ◌++◌, arith, ltb, if◌then◌else◌,
}
use mathlib.Core.List.{append_assoc}
use native.Mathlib.Nat.{pow-suc, mod-add-div, div-div-eq-div-mul}
use aias_lab.Prelude.Result.{ok, err, undefined, ◌>>=◌}
use aias_lab.Prelude.Int.{ℤ, pos, negsuc, ltb_ℤ}
use aias_lab.Prelude.Word.{IsWord}
use aias_lab.Emulator.Text.{Reporter}
use aias_lab.Emulator.Numbers.{
  is_space, with_sign, skip_space, magnitude, clamp, digit_of, is_digit, read_digits, strtol, atoi,
}
use aias_lab.Emulator.Registers.{parse_reg}
use aias_lab.Emulator.Source.{format_reg, hex_digit, hex_digits, format_hex}

digit_of-hex_digit : (d : ℕ) → d < 16 → digit_of (hex_digit d) ≡ some d
digit_of-hex_digit d lt = ground arith

pow_suc_sixteen : (n : ℕ) → 16 ^ suc n ≡ 16 * 16 ^ n
pow_suc_sixteen n = omega (arith, pow-suc 16 n)

mod_sixteen : (v p : ℕ) → v % (16 * p) ≡ v / 16 % p * 16 + v % 16
mod_sixteen v p = omega (
  arith,
  mod-add-div v (16 * p),
  mod-add-div (v / 16) p,
  ap (λ (t : ℕ). p * t) (div-div-eq-div-mul v 16 p),
)

-- A digit of the base is read into the value.
read_some :
    (base acc c d : ℕ) (s : List ℕ)
    → digit_of c ≡ some d
    → d < base
    → read_digits base acc (c ∷ s) ≡ read_digits base (acc * base + d) s
read_some base acc c d s e lt =
    ap
      (λ (o : Option ℕ). elim o [
        | none ↦ acc
        | some d' ↦ if ltb d' base then read_digits base (acc * base + d') s else acc
      ])
      e
    ∙ rw (lt→ltb _ _ lt) refl

read_step :
    (acc d : ℕ) (s : List ℕ)
    → d < 16
    → read_digits 16 acc (hex_digit d ∷ s) ≡ read_digits 16 (acc * 16 + d) s
read_step acc d s lt = read_some 16 acc (hex_digit d) d s (digit_of-hex_digit d lt) lt

is_digit-hex_digit : (d : ℕ) → d < 16 → is_digit 16 (hex_digit d) ≡ true
is_digit-hex_digit d lt =
    ap (λ (o : Option ℕ). elim o [ none ↦ false | some d' ↦ ltb d' 16 ]) (digit_of-hex_digit d lt)
    ∙ lt→ltb _ _ lt

read_digits-hex_digits :
    (n acc v : ℕ) (s : List ℕ)
    → read_digits 16 acc (hex_digits n v ++ s) ≡ read_digits 16 (acc * 16 ^ n + v % 16 ^ n) s
read_digits-hex_digits zero acc v s = ap (λ (t : ℕ). read_digits 16 t s) (ground arith)
read_digits-hex_digits (suc n) acc v s =
    ap (read_digits 16 acc) (append_assoc (hex_digits n (v / 16)) (hex_digit (v % 16) ∷ []) s)
    ∙ read_digits-hex_digits n acc (v / 16) (hex_digit (v % 16) ∷ s)
    ∙ read_step (acc * 16 ^ n + v / 16 % 16 ^ n) (v % 16) s (omega arith)
    ∙ ap (λ (t : ℕ). read_digits 16 t s)
        (omega (
          arith,
          mod_sixteen v (16 ^ n),
          pow_suc_sixteen n,
          ap (λ (t : ℕ). v % t) (pow_suc_sixteen n),
          ap (λ (t : ℕ). acc * t) (pow_suc_sixteen n),
        ))

magnitude_lem :
    (d m : ℕ) (s : List ℕ)
    → is_digit 16 d ≡ true
    → read_digits 16 0 (d ∷ s) ≡ m
    → magnitude (48 ∷ 120 ∷ d ∷ s) ≡ m
magnitude_lem d m s is value =
    ap (λ (b : Bool). if b then read_digits 16 0 (d ∷ s) else read_digits 8 0 (48 ∷ 120 ∷ d ∷ s)) is
    ∙ value

clamp_lem : (v : ℕ) → v < 2 ^ 63 → clamp false v ≡ (pos v, false)
clamp_lem v lt = ground arith

-- A word that is printed as "0x%08x" is read back by `strtol`, in range.
pub strtol-format_hex : (v : ℕ) → IsWord v → strtol (format_hex v) ≡ (pos v, false)
unfolding format_hex
strtol-format_hex v w =
    ap (clamp false) (
      magnitude_lem (hex_digit (v / 16 / 16 / 16 / 16 / 16 / 16 / 16 % 16)) v
        (hex_digit (v / 16 / 16 / 16 / 16 / 16 / 16 % 16)
          ∷ hex_digit (v / 16 / 16 / 16 / 16 / 16 % 16)
          ∷ hex_digit (v / 16 / 16 / 16 / 16 % 16)
          ∷ hex_digit (v / 16 / 16 / 16 % 16)
          ∷ hex_digit (v / 16 / 16 % 16)
          ∷ hex_digit (v / 16 % 16)
          ∷ hex_digit (v % 16)
          ∷ [])
        (is_digit-hex_digit (v / 16 / 16 / 16 / 16 / 16 / 16 / 16 % 16) (omega arith))
        (read_digits-hex_digits 8 0 v [] ∙ omega arith))
    ∙ clamp_lem v (omega arith)

two_digits : (a b : ℕ) → a < 10 → b < 10 → read_digits 10 0 ((48 + a) ∷ (48 + b) ∷ []) ≡ a * 10 + b
two_digits a b la lb =
    read_some 10 0 (48 + a) a ((48 + b) ∷ []) (ground arith) la
    ∙ read_some 10 (0 * 10 + a) (48 + b) b [] (ground arith) lb
    ∙ omega arith

is_space-digit : (c : ℕ) → 48 ≤ c → is_space c ≡ false
is_space-digit c le = ground arith

not_sign : (c : ℕ) → 48 ≤ c → ((c == 45) ≡ false) × ((c == 43) ≡ false)
not_sign c le = (ground arith, ground arith)

-- A text that starts with a digit has no sign.
with_sign-digit :
    (value : List ℕ → ℕ) (c : ℕ) (s : List ℕ)
    → 48 ≤ c
    → value (c ∷ s) < 2 ^ 63
    → with_sign value (skip_space (c ∷ s)) ≡ (pos (value (c ∷ s)), false)
with_sign-digit value c s le lt =
    ap (λ (b : Bool). with_sign value (if b then skip_space s else c ∷ s)) (is_space-digit c le)
    ∙ ap
        (λ (b : Bool).
          if b then clamp true (value s) else clamp false (value (if c == 43 then s else c ∷ s)))
        (not_sign c le).0
    ∙ ap (λ (b : Bool). clamp false (value (if b then s else c ∷ s))) (not_sign c le).1
    ∙ clamp_lem (value (c ∷ s)) lt

is_int :
    (m : ℕ)
    → m < 100
    → (ltb_ℤ (pos (2 ^ 31 - 1)) (pos m) || ltb_ℤ (pos m) (negsuc (2 ^ 31 - 1))) ≡ false
is_int m lt = ground arith

atoi-two_digits :
    (a b : ℕ) → a < 10 → b < 10 → atoi ((48 + a) ∷ (48 + b) ∷ []) ≡ ok (pos (a * 10 + b))
atoi-two_digits a b la lb =
    let digits = two_digits a b la lb in
    ap
      (λ (v : ℤ).
        if ltb_ℤ (pos (2 ^ 31 - 1)) v || ltb_ℤ v (negsuc (2 ^ 31 - 1)) then err undefined else ok v)
      (ap (λ (x : ℤ × Bool). x.0)
          (with_sign-digit (read_digits 10 0) (48 + a) ((48 + b) ∷ []) (omega arith)
            (omega (arith, digits)))
        ∙ ap pos digits)
    ∙ ap (λ (t : Bool). if t then err undefined else ok (pos (a * 10 + b)))
        (is_int (a * 10 + b) (omega arith))

is_register : (r : ℕ) → r ≤ 32 → (ltb_ℤ (pos r) (pos 0) || ltb_ℤ (pos 32) (pos r)) ≡ false
is_register r le = ground arith

-- A register number up to 32 that is printed as "x%02d" is read back by `parse_reg`, without a report.
pub parse_reg-format_reg :
    (report : Reporter) (r line : ℕ) (strict : Bool)
    → r ≤ 32
    → (format_reg (pos r) >>= λ text. parse_reg report text line strict) ≡ ok (pos r)
unfolding format_reg parse_reg
parse_reg-format_reg report r line strict le =
    let value : r / 10 * 10 + r % 10 ≡ r = omega arith in
    let text : ltb r 100 ≡ true = ground arith in
    rw text (
      rw (atoi-two_digits (r / 10) (r % 10) (omega arith) (omega arith))
        (rw (value, is_register r le) refl))
