-- ===== src/Emulator/Source.antt =====
-- The source buffer for messages: `Emulator::append_source`, and the sprintf formats of its
-- arguments.
use aias_lab.Prelude.{
  ℕ, zero, suc, ◌+◌, ◌/◌, ◌%◌, ◌≤◌, ◌<◌, ◌≡◌, refl, ap, inl, inr, arith, Option, none, some, List,
  [], ◌∷◌, ◌++◌, ltb, if◌then◌else◌, length, Bool-cases, Option-cases, lt→ltb,
}
use aias_lab.Prelude.Result.{undefined, Result, ok, err, guard, bind-eq-ok, ok-injective, ◌>>◌}
use aias_lab.Prelude.Int.{ℤ, pos, negsuc}
use aias_lab.Instr.{Instr}
use aias_lab.Memory.Bytes.{memcpy}
use aias_lab.Emulator.Text.{codes}

-- `source`: a buffer of `max_src_len` bytes and the offset of its free part.
pub record Source : Type 0 where
  pub src : List ℕ
  pub offset : ℕ

-- "x%02d" into `char areg[4]`, which three characters and a NUL fill.
unfoldable pub format_reg : ℤ → Result (List ℕ)
format_reg (pos r) =
    if ltb r 100 then ok (120 ∷ (48 + r / 10) ∷ (48 + r % 10) ∷ []) else err undefined
format_reg (negsuc r) = if ltb r 9 then ok (120 ∷ 45 ∷ (49 + r) ∷ []) else err undefined

abbrev pub hex_digit : ℕ → ℕ
hex_digit d = if ltb d 10 then 48 + d else 87 + d

abbrev pub hex_digits : ℕ → ℕ → List ℕ
hex_digits zero v = []
hex_digits (suc n) v = hex_digits n (v / 16) ++ hex_digit (v % 16) ∷ []

-- "0x%08x" of a word.
unfoldable pub format_hex : ℕ → List ℕ
format_hex v = codes "0x" ++ hex_digits 8 v

-- The text in `tbuf`, if the arguments have one of the three forms.
unfoldable pub source_text :
    Option (List ℕ) → Option (List ℕ) → Option (List ℕ) → Option (List ℕ) → Option (List ℕ)
source_text (some op) (some a1) none none = some (op ++ codes " " ++ a1)
source_text (some op) (some a1) (some a2) none = some (op ++ codes " " ++ a1 ++ codes ", " ++ a2)
source_text (some op) (some a1) (some a2) (some a3) =
    some (op ++ codes " " ++ a1 ++ codes ", " ++ a2 ++ codes ", " ++ a3)
source_text _ _ _ _ = none

-- The copy of `text` at the free part, if it fits; a text of 128 characters or more has overflowed
-- `tbuf`.
unfoldable pub append_text : ℕ → List ℕ → Source → Instr → Result (Source × Instr)
append_text max_src_len text s i = do
  guard (ltb (length text) 128) undefined
  ok (
      if ltb (length text + s.offset) max_src_len
      then (
        record { src = memcpy s.src s.offset text; offset = s.offset + (length text + 1) },
        record i { psrc = some s.offset },
      )
      else (s, i))

-- `append_source`: the buffer and the instruction afterwards.
unfoldable pub append_source :
    ℕ
    → Option (List ℕ)
    → Option (List ℕ)
    → Option (List ℕ)
    → Option (List ℕ)
    → Source
    → Instr
    → Result (Source × Instr)
unfolding source_text append_text
append_source max_src_len op a1 a2 a3 s i = elim (source_text op a1 a2 a3) [
  | none ↦ ok (s, i)
  | some text ↦ append_text max_src_len text s i
]

-- Of the instruction only `psrc` may change.
append_text-ok :
    (max_src_len : ℕ) (text : List ℕ) (s : Source) (i : Instr)
    → length text < 128
    → (s' : Source) × (p : Option ℕ) × (append_text max_src_len text s i
        ≡ ok (s', record i { psrc = p }))
unfolding append_text
append_text-ok max_src_len text s i fits =
    elim (Bool-cases (ltb (length text + s.offset) max_src_len)) [
      | inl room ↦ (
        record { src = memcpy s.src s.offset text; offset = s.offset + (length text + 1) },
        some s.offset,
        rw (lt→ltb (length text) 128 fits) (rw room refl),
      )
      | inr full ↦ (s, i.psrc, rw (lt→ltb (length text) 128 fits) (rw full refl))
    ]

pub append_source-ok :
    (max_src_len : ℕ) (op a1 a2 a3 : Option (List ℕ)) (s : Source) (i : Instr) {text : List ℕ}
    → source_text op a1 a2 a3 ≡ some text
    → length text < 128
    → (s' : Source) × (p : Option ℕ) × (append_source max_src_len op a1 a2 a3 s i
        ≡ ok (s', record i { psrc = p }))
unfolding append_source
append_source-ok max_src_len op a1 a2 a3 s i {text} e fits =
    let (s', p, done) = append_text-ok max_src_len text s i fits in
    (s', p, rw (e, append_source) done)

append_text-keeps :
    (max_src_len : ℕ) (text : List ℕ) (s : Source) (i : Instr) {s' : Source} {i' : Instr}
    → append_text max_src_len text s i ≡ ok (s', i')
    → (p : Option ℕ) × (record i { psrc = p } ≡ i')
unfolding append_text
append_text-keeps max_src_len text s i {s'} {i'} h =
    let (u, _, rest) = bind-eq-ok (guard (ltb (length text) 128) undefined) _ h in
    elim (Bool-cases (ltb (length text + s.offset) max_src_len)) [
      | inl room ↦
          (some s.offset, ap (λ (p : Source × Instr). p.1) (ok-injective (rw room at rest)))
      | inr full ↦ (i.psrc, ap (λ (p : Source × Instr). p.1) (ok-injective (rw full at rest)))
    ]

-- Of the instruction nothing but `psrc` changes.
pub append_source-keeps :
    (max_src_len : ℕ) (op a1 a2 a3 : Option (List ℕ)) (s : Source) (i : Instr) {s' : Source}
    {i' : Instr}
    → append_source max_src_len op a1 a2 a3 s i ≡ ok (s', i')
    → (p : Option ℕ) × (record i { psrc = p } ≡ i')
unfolding append_source
append_source-keeps max_src_len op a1 a2 a3 s i h = elim (Option-cases (source_text op a1 a2 a3)) [
  | inl e ↦ (i.psrc, ap (λ (p : Source × Instr). p.1) (ok-injective (rw (e, append_source) at h)))
  | inr (text, e) ↦ append_text-keeps max_src_len text s i (rw (e, append_source) at h)
]

append_text-bound :
    (max_src_len : ℕ) (text : List ℕ) (s : Source) (i : Instr) {s' : Source} {i' : Instr}
    → s.offset ≤ max_src_len
    → append_text max_src_len text s i ≡ ok (s', i')
    → (s'.offset ≤ max_src_len) × (s.offset ≤ s'.offset)
unfolding append_text
append_text-bound max_src_len text s i {s'} {i'} le h =
    let (u, _, rest) = bind-eq-ok (guard (ltb (length text) 128) undefined) _ h in
    let after = ap (λ (p : Source × Instr). p.0.offset) (ok-injective rest) in
    elim (Bool-cases (ltb (length text + s.offset) max_src_len)) [
      | inl room ↦ ground arith
      | inr full ↦ ground arith
    ]

-- The offset never leaves the buffer, whatever is appended, and does not decrease.
pub append_source-bound :
    (max_src_len : ℕ) (op a1 a2 a3 : Option (List ℕ)) (s : Source) (i : Instr) {s' : Source}
    {i' : Instr}
    → s.offset ≤ max_src_len
    → append_source max_src_len op a1 a2 a3 s i ≡ ok (s', i')
    → (s'.offset ≤ max_src_len) × (s.offset ≤ s'.offset)
unfolding append_source
append_source-bound max_src_len op a1 a2 a3 s i {s'} {i'} le h =
    elim (Option-cases (source_text op a1 a2 a3)) [
      | inl e ↦
          let same = ok-injective (rw (e, append_source) at h) in
          (
            omega (arith, ap (λ (p : Source × Instr). p.0.offset) same),
            omega (arith, ap (λ (p : Source × Instr). p.0.offset) same),
          )
      | inr (text, e) ↦ append_text-bound max_src_len text s i le (rw (e, append_source) at h)
    ]
