-- ===== src/Prelude/Word.antt =====
-- uint32_t as native numbers below 2 ^ 32: wrap-around written out, the casts to narrower and to
-- signed types, and the shifts.
use Prim.Native.Nat.{ℕ, ◌+◌, ◌-◌, ◌*◌, ◌/◌, ◌%◌, ◌^◌, ◌<◌}
use mathlib.Core.Bool.{Bool}
use aias_lab.Prelude.Tests.{ltb, if◌then◌else◌}
use aias_lab.Prelude.Int.{ℤ, pos, negsuc, ltb_ℤ}

abbrev pub u8 : ℕ → ℕ
u8 n = n % 2 ^ 8

abbrev pub u16 : ℕ → ℕ
u16 n = n % 2 ^ 16

abbrev pub u32 : ℕ → ℕ
u32 n = n % 2 ^ 32

-- `a + b` and `a - b` on uint32_t. `-` on ℕ stops at 0, so the modulus is added first.
abbrev pub add32 : ℕ → ℕ → ℕ
add32 a b = (a + b) % 2 ^ 32

abbrev pub sub32 : ℕ → ℕ → ℕ
sub32 a b = (a + 2 ^ 32 - b) % 2 ^ 32

abbrev pub IsWord : ℕ → Type 0
IsWord w = w < 2 ^ 32

-- The number that the bits of an int32_t stand for.
abbrev pub signed32 : ℕ → ℤ
signed32 w = if ltb w (2 ^ 31) then pos w else negsuc (2 ^ 32 - w - 1)

-- `*(int32_t*)&a < *(int32_t*)&b`.
abbrev pub slt32 : ℕ → ℕ → Bool
slt32 a b = ltb_ℤ (signed32 a) (signed32 b)

-- `a << n` and `a >> n` on uint32_t, at an amount below 32.
abbrev pub shl32 : ℕ → ℕ → ℕ
shl32 a n = (a * 2 ^ n) % 2 ^ 32

abbrev pub shr32 : ℕ → ℕ → ℕ
shr32 a n = a / 2 ^ n

-- `a >> n` on int32_t: the sign bit is shifted in, so the complement is shifted with zeros.
abbrev pub sar32 : ℕ → ℕ → ℕ
sar32 a n = if ltb a (2 ^ 31) then a / 2 ^ n else 2 ^ 32 - 1 - (2 ^ 32 - 1 - a) / 2 ^ n

-- static_cast<uint32_t> of an int8_t and of an int16_t.
abbrev pub sext8 : ℕ → ℕ
sext8 b = if ltb b (2 ^ 7) then b else b + (2 ^ 32 - 2 ^ 8)

abbrev pub sext16 : ℕ → ℕ
sext16 h = if ltb h (2 ^ 15) then h else h + (2 ^ 32 - 2 ^ 16)
