-- ===== src/Emulator/Written.antt =====
-- Operands as the assembler prints them, split and read again.
use aias_lab.Prelude.{
  ℕ, zero, suc, sym, lt→ltb, ◌+◌, ◌-◌, ◌/◌, ◌%◌, ◌≤◌, ◌<◌, ◌^◌, ◌≡◌, refl, ap, ◌∙◌, arith, true,
  false, ◌||◌, List, [], ◌∷◌, ◌++◌, All, All-append,
}
use aias_lab.Prelude.Result.{Result, ok, ◌>>=◌}
use aias_lab.Prelude.Int.{pos, negsuc, ltb_ℤ}
use aias_lab.Prelude.Word.{IsWord}
use aias_lab.Emulator.Text.{Reporter}
use aias_lab.Emulator.Tokens.{is_among, separators}
use aias_lab.Emulator.Numbers.{starts_number, parse_imm}
use aias_lab.Emulator.Registers.{parse_reg}
use aias_lab.Emulator.Source.{format_reg, hex_digit, hex_digits, format_hex}
use aias_lab.Emulator.Printed.{strtol-format_hex, parse_reg-format_reg}
use aias_lab.Emulator.Operands.{parse_mem}
use aias_lab.Emulator.Words.{IsToken, strtok-append}

-- "x%02d", "0x%08x", and an offset with its base.
abbrev pub reg_text : ℕ → List ℕ
reg_text r = 120 ∷ (48 + r / 10) ∷ (48 + r % 10) ∷ []

abbrev pub mem_text : ℕ → ℕ → List ℕ
mem_text v r = format_hex v ++ 40 ∷ (reg_text r ++ 41 ∷ [])

-- The characters of numbers and register names lie above every delimiter.
abbrev IsAbove : List ℕ → Type 0
IsAbove w = All (λ (c : ℕ). 47 < c) w

reg_text-IsAbove : (r : ℕ) → IsAbove (reg_text r)
reg_text-IsAbove r = omega arith

hex_digits-IsAbove : (n v : ℕ) → IsAbove (hex_digits n v)
hex_digits-IsAbove zero v = tt
hex_digits-IsAbove (suc n) v =
    All-append (λ (c : ℕ). 47 < c) (hex_digits n (v / 16)) (hex_digit (v % 16) ∷ [])
      (hex_digits-IsAbove n (v / 16)) (ground arith)

format_hex-IsAbove : (v : ℕ) → IsAbove (format_hex v)
unfolding format_hex
format_hex-IsAbove v = (omega arith, (omega arith, hex_digits-IsAbove 8 v))

-- One delimiter below 48, and the separators.
apart_one :
    (d : ℕ) (w : List ℕ) → d ≤ 47 → IsAbove w → All (λ (c : ℕ). is_among c (d ∷ []) ≡ false) w
apart_one d [] le a = tt
apart_one d (c ∷ w) le a = (ground arith, apart_one d w le a.1)

apart : (w : List ℕ) → IsAbove w → All (λ (c : ℕ). is_among c separators ≡ false) w
apart [] a = tt
apart (c ∷ w) a = (ground arith, apart w a.1)

pub reg_text-IsToken : (r : ℕ) → IsToken separators (reg_text r)
reg_text-IsToken r = apart (reg_text r) (reg_text-IsAbove r)

pub format_hex-IsToken : (v : ℕ) → IsToken separators (format_hex v)
unfolding format_hex
format_hex-IsToken v = apart (format_hex v) (format_hex-IsAbove v)

pub mem_text-IsToken : (v r : ℕ) → IsToken separators (mem_text v r)
unfolding format_hex
mem_text-IsToken v r =
    All-append (λ (c : ℕ). is_among c separators ≡ false) (format_hex v)
      (40 ∷ (reg_text r ++ 41 ∷ [])) (format_hex-IsToken v)
      (
        refl,
        All-append (λ (c : ℕ). is_among c separators ≡ false) (reg_text r) (41 ∷ [])
            (reg_text-IsToken r) (refl, tt),
      )

hex_apart : (v : ℕ) → IsToken (40 ∷ []) (format_hex v)
unfolding format_hex
hex_apart v = apart_one 40 (format_hex v) (omega arith) (format_hex-IsAbove v)

-- `sprintf` of a register writes its text.
pub format_reg-reg_text : (r : ℕ) → r < 100 → format_reg (pos r) ≡ ok (reg_text r)
unfolding format_reg
format_reg-reg_text r lt = rw (lt→ltb r 100 lt) refl

starts-format_hex : (v : ℕ) → starts_number (format_hex v) ≡ true
unfolding format_hex
starts-format_hex v = refl

module _ (bits v : ℕ) (lt : v < 2 ^ bits) where
  fits_bits :
      (ltb_ℤ (pos (2 ^ bits - 1)) (pos v) || ltb_ℤ (pos v) (negsuc (2 ^ (bits - 1) - 1))) ≡ false
  fits_bits = ground arith

module _ (report : Reporter) (line : ℕ) where
  pub parse_reg-reg_text : (r : ℕ) → r ≤ 32 → parse_reg report (reg_text r) line true ≡ ok (pos r)
  parse_reg-reg_text r le =
      ap (λ (m : Result (List ℕ)). m >>= λ t. parse_reg report t line true)
        (sym (format_reg-reg_text r (omega arith)))
      ∙ parse_reg-format_reg report r line true le

  pub parse_imm-format_hex :
      (v bits : ℕ) → IsWord v → v < 2 ^ bits → parse_imm report (format_hex v) bits line true ≡ ok v
  unfolding parse_imm
  parse_imm-format_hex v bits w lt =
      let word : v % 2 ^ 32 ≡ v = omega arith in
      rw (starts-format_hex v, strtol-format_hex v w, fits_bits bits v lt) (ap ok word)

  pub parse_mem-mem_text :
      (v r : ℕ) → v < 2 ^ 12 → r ≤ 32 → parse_mem report line (mem_text v r) 12 ≡ ok (pos r, v)
  unfolding parse_mem
  parse_mem-mem_text v r lt le =
      rw
        (
          strtok-append (40 ∷ []) (format_hex v) 40 (reg_text r ++ 41 ∷ []) (hex_apart v) refl,
          parse_imm-format_hex v 12 (omega arith) lt,
          strtok-append (41 ∷ []) (reg_text r) 41 []
              (apart_one 41 (reg_text r) (omega arith) (reg_text-IsAbove r)) refl,
          parse_reg-reg_text r le,
        )
        refl
