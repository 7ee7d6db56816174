-- ===== src/Emulator/Listing.antt =====
-- A file of ordinary instructions, one to a line.
use aias_lab.Prelude.{
  ℕ, ◌+◌, ◌*◌, ◌/◌, ◌≤◌, ◌<◌, ◌≡◌, refl, sym, ap, ◌≢◌, ◌∙◌, arith, Option, some, List, [], ◌∷◌,
  ◌++◌, length, length-set, get_elem?, get_elem?-some, get_elem?-set_self, get_elem?-set_ne,
}
use mathlib.Core.Path.{subst}
use aias_lab.Prelude.Result.{ok}
use aias_lab.Prelude.Int.{pos}
use aias_lab.Instr.{InstrType, Instr}
use aias_lab.Memory.Bytes.{length-memcpy}
use aias_lab.Emulator.Text.{lower, Reporter}
use aias_lab.Emulator.Lines.{Config, Asm, parse}
use aias_lab.Emulator.Forms.{form_of, Values, written, filled, IsWritable}
use aias_lab.Emulator.Appended.{name_of}
use aias_lab.Emulator.Lined.{IsAssembled, parse_line-written}

-- An instruction of the source, and its line.
pub record Statement : Type 0 where
  pub op : InstrType
  pub values : Values

abbrev pub line_of : Statement → List ℕ
line_of x = name_of x.op ++ 32 ∷ written (form_of x.op) x.values

-- The buffers hold the lines, in any case.
abbrev pub AreLines : List Statement → List (List ℕ) → Type 0
AreLines [] [] = Unit
AreLines [] (_ ∷ _) = ⊥
AreLines (_ ∷ _) [] = ⊥
AreLines (x ∷ xs) (buf ∷ file) =
    ((lower buf ≡ line_of x) × IsWritable (form_of x.op) x.values) × AreLines xs file

-- Entry `n` was some instruction, and is now that of the line with its operands filled in.
pub record IsEntry (line : ℕ) (x : Statement) (n : ℕ) (old new : List Instr) : Type 0 where
  pub before : Instr
  pub psrc : Option ℕ
  pub was : get_elem? old n ≡ some before
  pub now :
      get_elem? new n
      ≡ some (
          filled
            (form_of x.op)
            x.values
            (record before { str = name_of x.op; op = x.op; orig_line = pos line; psrc = psrc }))

abbrev pub AreEntries : ℕ → List Statement → ℕ → List Instr → List Instr → Type 0
AreEntries line [] n old new = Unit
AreEntries line (x ∷ xs) n old new =
    IsEntry line x n old new × AreEntries (line + 1) xs (n + 1) old new

-- The file's instructions one after the other, the entries around them as they were.
pub record IsListing (line : ℕ) (xs : List Statement) (s t : Asm) : Type 0 where
  pub entries : AreEntries line xs (s.memoff / 4) s.code.imem t.code.imem
  pub earlier : (m : ℕ) → m < s.memoff / 4 → get_elem? t.code.imem m ≡ get_elem? s.code.imem m
  pub later :
      (m : ℕ) → s.memoff / 4 + length xs ≤ m → get_elem? t.code.imem m ≡ get_elem? s.code.imem m
  pub memoff : t.memoff ≡ s.memoff + 4 * length xs
  pub labels : t.labels ≡ s.labels

-- Only the entries from `n` on are looked at.
AreEntries-old :
    (line : ℕ) (xs : List Statement) (n : ℕ) (old old' new : List Instr)
    → ((m : ℕ) → n ≤ m → get_elem? old' m ≡ get_elem? old m)
    → AreEntries line xs n old' new
    → AreEntries line xs n old new
AreEntries-old line [] n old old' new same a = tt
AreEntries-old line (x ∷ xs) n old old' new same (e, a) = (
  record {
    before = e.before;
    psrc = e.psrc;
    was = sym (same n (omega arith)) ∙ e.was;
    now = e.now;
  },
  AreEntries-old (line + 1) xs (n + 1) old old' new (λ m le. same m (omega arith)) a,
)

IsListing-cons :
    (line : ℕ) (x : Statement) (xs : List Statement) (i : Instr) (s u t : Asm)
    → get_elem? s.code.imem (s.memoff / 4) ≡ some i
    → s.memoff / 4 < length s.code.imem
    → IsAssembled line x.op x.values i s u
    → IsListing (line + 1) xs u t
    → IsListing line (x ∷ xs) s t
IsListing-cons line x xs i s u t slot inside one more =
    let n = s.memoff / 4 in
    let next : u.memoff / 4 ≡ n + 1 = omega (arith, one.memoff) in
    let j =
      filled (form_of x.op) x.values
        (record i { str = name_of x.op; op = x.op; orig_line = pos line; psrc = one.psrc }) in
    let apart : (m : ℕ) → n ≢ m → get_elem? u.code.imem m ≡ get_elem? s.code.imem m = λ m ne.
      ap (λ (l : List Instr). get_elem? l m) one.imem ∙ get_elem?-set_ne s.code.imem n m j ne in
    record {
      entries = (
        record {
          before = i;
          psrc = one.psrc;
          was = slot;
          now =
              more.earlier n (omega (arith, next))
              ∙ ap (λ (l : List Instr). get_elem? l n) one.imem
              ∙ get_elem?-set_self s.code.imem n j inside;
        },
        AreEntries-old (line + 1) xs (n + 1) s.code.imem u.code.imem t.code.imem
            (λ m le. apart m (omega arith))
            (subst (λ (k : ℕ). AreEntries (line + 1) xs k u.code.imem t.code.imem) next
              more.entries),
      );
      earlier = λ m lt. more.earlier m (omega (arith, next)) ∙ apart m (omega arith);
      later = λ m le. more.later m (omega (arith, next)) ∙ apart m (omega arith);
      memoff = more.memoff ∙ omega (arith, one.memoff);
      labels = more.labels ∙ one.labels;
    }

module _ (report : Reporter) (cfg : Config) where
  -- A file of lines with ordinary instructions, in any case, each written the way the assembler
  -- prints them, is accepted without a report if there is room for all in the text segment, the
  -- memory and the instruction memory: from the offset on, the entries get the instructions in
  -- order, with their operands and line numbers; the other entries and the labels stay, and the
  -- offset moves behind them.
  pub parse-written :
      (line : ℕ) (xs : List Statement) (file : List (List ℕ)) (s : Asm)
      → AreLines xs file
      → s.memoff + 4 * length xs ≤ cfg.data_offset
      → s.memoff + 4 * length xs ≤ length s.mem
      → s.memoff / 4 + length xs ≤ length s.code.imem
      → (t : Asm) × (parse report cfg line file s ≡ ok t) × IsListing line xs s t
  unfolding parse
  parse-written line [] [] s a room fits slots = (
    s,
    refl,
    record {
      entries = tt;
      earlier = λ m lt. refl;
      later = λ m le. refl;
      memoff = omega arith;
      labels = refl;
    },
  )
  parse-written line [] (_ ∷ _) s a room fits slots = absurd a
  parse-written line (x ∷ xs) [] s a room fits slots = absurd a
  parse-written line (x ∷ xs) (buf ∷ file) s ((text, w), a) room fits slots =
      let n = s.memoff / 4 in
      let (i, slot) = get_elem?-some s.code.imem n (omega arith) in
      let (u, parsed, one) =
        parse_line-written report cfg line x.op x.values s i w (omega arith) (omega arith) slot in
      let (t, rest, more) =
        parse-written (line + 1) xs file u a (omega (arith, one.memoff))
          (omega (
            arith,
            one.memoff,
            ap length one.mem,
            length-memcpy s.mem s.memoff (204 ∷ 204 ∷ 204 ∷ 204 ∷ []),
          ))
          (omega (arith, one.memoff, ap length one.imem, length-set s.code.imem n _)) in
      (t, rw text (rw parsed rest), IsListing-cons line x xs i s u t slot (omega arith) one more)
