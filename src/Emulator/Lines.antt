-- ===== src/Emulator/Lines.antt =====
-- The line loop: `Emulator::parse`, `parse_assembler_directive` and `parse_data_element`. The file
-- is the list of the buffers that `fgets` returns.
use aias_lab.Prelude.{
  ℕ, zero, suc, ◌+◌, ◌-◌, ◌*◌, ◌/◌, ◌^◌, Bool, true, false, not, ◌&&◌, ◌||◌, Option, none, some,
  List, [], ◌∷◌, ◌++◌, ◌==◌, ltb, leb, if◌then◌else◌, length,
}
use aias_lab.Prelude.Result.{undefined, exit, Result, ok, err, guard, ◌>>=◌, ◌>>◌}
use aias_lab.Prelude.Int.{ℤ, pos, negsuc}
use aias_lab.Instr.{max_label_len}
use aias_lab.Memory.Bytes.{memcpy}
use aias_lab.Memory.Handlers.{le_bytes}
use aias_lab.Emulator.Text.{codes, lower, Reporter}
use aias_lab.Emulator.Tokens.{strtok, tokens, blanks}
use aias_lab.Emulator.Numbers.{strtol}
use aias_lab.Emulator.Labels.{LabelLoc}
use aias_lab.Emulator.Code.{Code, take}
use aias_lab.Emulator.Operands.{parse_instr}

-- The parameters of EmulatorConfig.
pub record Config : Type 0 where
  pub memory_size : ℕ
  pub data_offset : ℕ
  pub text_offset : ℕ
  pub max_label_count : ℕ
  pub max_src_len : ℕ

-- What `parse` fills.
pub record Asm : Type 0 where
  pub code : Code
  pub mem : List ℕ
  pub memoff : ℕ
  pub labels : List LabelLoc

-- A memcpy that leaves the memory is undefined.
abbrev pub poke : List ℕ → ℕ → List ℕ → Result (List ℕ)
poke mem addr bytes =
    if leb (addr + length bytes) (length mem) then ok (memcpy mem addr bytes) else err undefined

-- The bits of an int64_t.
abbrev pub int64_bits : ℤ → ℕ
int64_bits (pos n) = n
int64_bits (negsuc n) = 2 ^ 64 - 1 - n

-- `(v >> (size * 8)) > 0`.
abbrev pub exceeds : ℕ → ℤ → Bool
exceeds size (pos n) = ltb 0 (n / 2 ^ (size * 8))
exceeds size (negsuc n) = false

-- `parse_data_element` on the tokens of the line.
unfoldable pub parse_data_element : ℕ → List (List ℕ) → List ℕ → ℕ → Result (List ℕ × ℕ)
unfolding memcpy
parse_data_element size [] mem offset = ok (mem, offset)
parse_data_element size (t ∷ ts) mem offset = do
  guard (not ((strtol t).1 || exceeds size (strtol t).0)) (exit 2)
  mem' ← poke mem offset (le_bytes size (int64_bits (strtol t).0))
  parse_data_element size ts mem' (offset + size)

-- `0 == memcmp(ftok, name, strlen(ftok))`.
abbrev pub is_prefix : List ℕ → List ℕ → Bool
is_prefix [] name = true
is_prefix (c ∷ s) [] = false
is_prefix (c ∷ s) (d ∷ name) = c == d && is_prefix s name

abbrev pub is_some {ℓ} : {A : Type ℓ} → Option A → Bool
is_some none = false
is_some (some _) = true

abbrev pub last_is : ℕ → List ℕ → Bool
last_is c [] = false
last_is c (d ∷ []) = d == c
last_is c (d ∷ e ∷ s) = last_is c (e ∷ s)

abbrev pub drop_last : List ℕ → List ℕ
drop_last [] = []
drop_last (c ∷ []) = []
drop_last (c ∷ d ∷ s) = c ∷ drop_last (d ∷ s)

module _ (report : Reporter) (cfg : Config) (line : ℕ) where
  abbrev pub data_line : ℕ → List ℕ → Asm → Result Asm
  data_line size text s = do
    x ← parse_data_element size (tokens blanks text) s.mem s.memoff
    ok (record s { mem = x.0; memoff = x.1 })

  -- `parse_assembler_directive` on the text behind `ftok`.
  unfoldable pub parse_assembler_directive : List ℕ → List ℕ → Asm → Result Asm
  parse_assembler_directive ftok text s =
      if is_prefix ftok (codes ".text")
      then ((if is_some (strtok blanks text) then report (pos line) else ok tt)
          >> ok (record s { memoff = cfg.text_offset }))
      else if is_prefix ftok (codes ".data")
      then ok (record s { memoff = cfg.data_offset })
      else if is_prefix ftok (codes ".byte")
      then data_line 1 text s
      else if is_prefix ftok (codes ".half")
      then data_line 2 text s
      else if is_prefix ftok (codes ".word")
      then data_line 4 text s
      else err (exit 3)

  -- The filler 0xcccccccc of `count` instructions, from address `addr`.
  abbrev pub fill_words : ℕ → ℕ → List ℕ → Result (List ℕ)
  fill_words zero addr mem = ok mem
  fill_words (suc count) addr mem = do
    mem' ← poke mem addr (204 ∷ 204 ∷ 204 ∷ 204 ∷ [])
    fill_words count (addr + 4) mem'

  unfoldable pub instr_line : List ℕ → List ℕ → Asm → Result Asm
  instr_line ftok text s = do
    x ← parse_instr report line cfg.data_offset cfg.max_src_len ftok s.memoff text s.code
    mem' ← fill_words x.0 s.memoff s.mem
    ok (record s { code = x.1; mem = mem'; memoff = s.memoff + x.0 * 4 })

  -- A directive or an instruction.
  unfoldable pub statement : List ℕ → List ℕ → Asm → Result Asm
  statement [] text s = instr_line [] text s
  statement (c ∷ tok) text s =
      if c == 46 then parse_assembler_directive (c ∷ tok) text s else instr_line (c ∷ tok) text s

  -- A label definition, and the code behind it.
  unfoldable pub label_line : List ℕ → List ℕ → Asm → Result Asm
  label_line name text s = do
    guard (not (leb max_label_len (length name))) (exit 3)
    guard (not (leb cfg.max_label_count (length s.labels))) (exit 3)
    let t = record s {
      labels = s.labels ++ record { label = take max_label_len name; loc = s.memoff } ∷ [];
    }
    elim (strtok blanks text) [ none ↦ ok t | some (ntok, rest) ↦ statement ntok rest t ]

  -- One round of the loop, on a line in lower case.
  unfoldable pub parse_line : List ℕ → Asm → Result Asm
  parse_line buf s = elim (strtok blanks buf) [
    | none ↦ ok s
    | some ([], rest) ↦ ok s
    | some (c ∷ tok, rest) ↦
        if c == 35
        then ok s
        else if c == 46
        then parse_assembler_directive (c ∷ tok) rest s
        else if last_is 58 (c ∷ tok)
        then label_line (drop_last (c ∷ tok)) rest s
        else instr_line (c ∷ tok) rest s
  ]

-- `parse`, from the line number `line`.
unfoldable pub parse : Reporter → Config → ℕ → List (List ℕ) → Asm → Result Asm
parse report cfg line [] s = ok s
parse report cfg line (buf ∷ file) s = do
  t ← parse_line report cfg line (lower buf) s
  parse report cfg (line + 1) file t
