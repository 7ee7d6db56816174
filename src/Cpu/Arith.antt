-- ===== src/Cpu/Arith.antt =====
-- The uint32_t arithmetic of the simulator computes the integer arithmetic of the manual.
use aias_lab.Prelude.{ℕ, ◌-◌, ◌/◌, ◌^◌, ◌≤◌, ◌<◌, ◌≡◌, arith, not, ltb, leb}
use aias_lab.Prelude.Int.{pos, ◌+ℤ◌, ◌-ℤ◌}
use aias_lab.Prelude.Word.{IsWord, add32, sub32, sar32, sext8, sext16}
use aias_lab.Isa.{signed, wrap, floor_shift, to_signed}

pub wrap-add : (a b : ℕ) → IsWord a → IsWord b → wrap (signed a +ℤ signed b) ≡ add32 a b
wrap-add a b p q = ground arith

pub wrap-sub : (a b : ℕ) → IsWord a → IsWord b → wrap (signed a -ℤ signed b) ≡ sub32 a b
wrap-sub a b p q = ground arith

pub wrap-add_pos : (a b : ℕ) → wrap (pos a +ℤ pos b) ≡ add32 a b
wrap-add_pos a b = ground arith

quotient-le : (a n : ℕ) → a / 2 ^ n ≤ a
quotient-le a n = omega arith

pub wrap-floor_shift : (a n : ℕ) → IsWord a → wrap (floor_shift (signed a) n) ≡ sar32 a n
wrap-floor_shift a n p = ground (arith, quotient-le a n, quotient-le (2 ^ 32 - a - 1) n)

pub wrap-byte : (b : ℕ) → b < 2 ^ 8 → wrap (to_signed 8 b) ≡ sext8 b
wrap-byte b p = ground arith

pub wrap-half : (h : ℕ) → h < 2 ^ 16 → wrap (to_signed 16 h) ≡ sext16 h
wrap-half h p = ground arith

pub not-ltb : (a b : ℕ) → not (ltb a b) ≡ leb b a
not-ltb a b = ground arith
