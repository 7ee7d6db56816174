-- ===== src/Emulator/Parsed.antt =====
-- `Emulator::parse`: the well-formedness of the assembler's state, line by line.
use aias_lab.Prelude.{
  ℕ, ◌+◌, ◌≤◌, ◌<◌, not, Option, none, some, List, [], ◌∷◌, ◌==◌, arith, ◌-◌, ltb, leb,
  if◌then◌else◌, length, All, length-append, All-append, Bool-cases, inl, inr,
}
use aias_lab.Prelude.Result.{ok, exit, guard}
use aias_lab.Prelude.Ensures.{
  Ensures, Ensures-ok, Ensures-err, Ensures-if, Ensures-bind, Ensures-after,
}
use aias_lab.Prelude.Int.{pos}
use aias_lab.Instr.{max_label_len}
use aias_lab.Memory.Safety.{IsMemory}
use aias_lab.Emulator.Text.{codes, lower, Reporter}
use aias_lab.Emulator.Tokens.{strtok, tokens, blanks}
use aias_lab.Emulator.Labels.{LabelLoc}
use aias_lab.Emulator.Code.{take}
use aias_lab.Emulator.Operands.{parse_instr}
use aias_lab.Emulator.Lines.{
  Config, Asm, parse_data_element, is_prefix, is_some, last_is, drop_last, data_line,
  parse_assembler_directive, fill_words, instr_line, statement, label_line, parse_line, parse,
}
use aias_lab.Emulator.Encoded.{IsCode}
use aias_lab.Emulator.Filled.{parse_instr-IsCode}
use aias_lab.Emulator.Placed.{parse_data_element-IsPlaced, fill_words-IsPlaced}

-- A label that was read: shorter than its array, and at an offset of the memory or just behind it.
pub record IsLabel (size : ℕ) (l : LabelLoc) : Type 0 where
  pub named : length l.label < max_label_len
  pub placed : l.loc ≤ size

pub record IsAsm (cfg : Config) (slots size : ℕ) (s : Asm) : Type 0 where
  pub code : IsCode slots cfg.max_src_len s.code
  pub memory : IsMemory size s.mem
  pub inside : s.memoff ≤ size
  pub counted : length s.labels ≤ cfg.max_label_count
  pub labels : All (IsLabel size) s.labels

length-take : (n : ℕ) (s : List ℕ) → length (take n s) ≤ length s
length-take n [] = omega arith
length-take n (c ∷ s) = elim (Bool-cases (ltb 0 n)) [
  | inl e ↦ rw e (omega (arith, length-take (n - 1) s))
  | inr e ↦ rw e (omega arith)
]

module _ (report : Reporter) (cfg : Config) {slots size : ℕ} (text_inside : cfg.text_offset ≤ size)
    (data_inside : cfg.data_offset ≤ size) where
  data_line-IsAsm :
      (line n : ℕ) (text : List ℕ) (s : Asm)
      → IsAsm cfg slots size s
      → Ensures (IsAsm cfg slots size) (data_line report cfg line n text s)
  data_line-IsAsm line n text s k =
      Ensures-bind (parse_data_element n (tokens blanks text) s.mem s.memoff) _
        (parse_data_element-IsPlaced n (tokens blanks text) s.mem s.memoff
          (record { memory = k.memory; inside = k.inside }))
        (λ x p. Ensures-ok _ (record {
          code = k.code;
          memory = p.memory;
          inside = p.inside;
          counted = k.counted;
          labels = k.labels;
        }))

  moved-IsAsm :
      (off : ℕ) (s : Asm)
      → off ≤ size
      → IsAsm cfg slots size s
      → IsAsm cfg slots size (record s { memoff = off })
  moved-IsAsm off s le k = record {
    code = k.code;
    memory = k.memory;
    inside = le;
    counted = k.counted;
    labels = k.labels;
  }

  parse_assembler_directive-IsAsm :
      (line : ℕ) (ftok text : List ℕ) (s : Asm)
      → IsAsm cfg slots size s
      → Ensures (IsAsm cfg slots size) (parse_assembler_directive report cfg line ftok text s)
  unfolding parse_assembler_directive
  parse_assembler_directive-IsAsm line ftok text s k =
      Ensures-if (is_prefix ftok (codes ".text")) _ _
        (λ _.
          Ensures-after (if is_some (strtok blanks text) then report (pos line) else ok tt) _
            (λ _ _. Ensures-ok _ (moved-IsAsm cfg.text_offset s text_inside k)))
        (λ _.
          Ensures-if (is_prefix ftok (codes ".data")) _ _
            (λ _. Ensures-ok _ (moved-IsAsm cfg.data_offset s data_inside k))
            (λ _.
              Ensures-if (is_prefix ftok (codes ".byte")) _ _ (λ _. data_line-IsAsm line 1 text s k)
                (λ _.
                  Ensures-if (is_prefix ftok (codes ".half")) _ _
                    (λ _. data_line-IsAsm line 2 text s k)
                    (λ _.
                      Ensures-if (is_prefix ftok (codes ".word")) _ _
                        (λ _. data_line-IsAsm line 4 text s k) (λ _. Ensures-err (exit 3))))))

  instr_line-IsAsm :
      (line : ℕ) (ftok text : List ℕ) (s : Asm)
      → IsAsm cfg slots size s
      → Ensures (IsAsm cfg slots size) (instr_line report cfg line ftok text s)
  unfolding instr_line
  instr_line-IsAsm line ftok text s k =
      Ensures-bind
        (parse_instr report line cfg.data_offset cfg.max_src_len ftok s.memoff text s.code) _
        (parse_instr-IsCode report line cfg.data_offset cfg.max_src_len ftok s.memoff text s.code
          k.code)
        (λ x kx.
          Ensures-bind (fill_words report cfg line x.0 s.memoff s.mem) _
            (fill_words-IsPlaced report cfg line x.0 s.memoff s.mem
              (record { memory = k.memory; inside = k.inside }))
            (λ mem' p. Ensures-ok _ (record {
              code = kx;
              memory = p.memory;
              inside = p.inside;
              counted = k.counted;
              labels = k.labels;
            })))

  statement-IsAsm :
      (line : ℕ) (ftok text : List ℕ) (s : Asm)
      → IsAsm cfg slots size s
      → Ensures (IsAsm cfg slots size) (statement report cfg line ftok text s)
  unfolding statement
  statement-IsAsm line [] text s k = instr_line-IsAsm line [] text s k
  statement-IsAsm line (c ∷ tok) text s k =
      Ensures-if (c == 46) _ _ (λ _. parse_assembler_directive-IsAsm line (c ∷ tok) text s k)
        (λ _. instr_line-IsAsm line (c ∷ tok) text s k)

  label_line-IsAsm :
      (line : ℕ) (name text : List ℕ) (s : Asm)
      → IsAsm cfg slots size s
      → Ensures (IsAsm cfg slots size) (label_line report cfg line name text s)
  unfolding label_line
  label_line-IsAsm line name text s k =
      Ensures-bind (guard (not (leb max_label_len (length name))) (exit 3)) _ (short name) (λ _ lt.
        Ensures-bind (guard (not (leb cfg.max_label_count (length s.labels))) (exit 3)) _ (room s)
          (λ _ free. rest (strtok blanks text) (record {
            code = k.code;
            memory = k.memory;
            inside = k.inside;
            counted = omega (
              arith,
              free,
              length-append s.labels
                  (record { label = take max_label_len name; loc = s.memoff } ∷ []),
            );
            labels = All-append (IsLabel size) s.labels _ k.labels (
              record {
                named = omega (arith, lt, length-take max_label_len name);
                placed = k.inside;
              },
              tt,
            );
          })))
    where
      short :
          (name : List ℕ)
          → Ensures
              (λ _. length name < max_label_len)
              (guard (not (leb max_label_len (length name))) (exit 3))
      short name =
          Ensures-if (not (leb max_label_len (length name))) _ _ (λ b. Ensures-ok tt (ground arith))
            (λ _. Ensures-err (exit 3))

      room :
          (s : Asm)
          → Ensures
              (λ _. length s.labels < cfg.max_label_count)
              (guard (not (leb cfg.max_label_count (length s.labels))) (exit 3))
      room s =
          Ensures-if (not (leb cfg.max_label_count (length s.labels))) _ _
            (λ b. Ensures-ok tt (ground arith)) (λ _. Ensures-err (exit 3))

      rest :
          (o : Option (List ℕ × List ℕ)) {t : Asm}
          → IsAsm cfg slots size t
          → Ensures
              (IsAsm cfg slots size)
              (elim o [ none ↦ ok t | some (ntok, rest) ↦ statement report cfg line ntok rest t ])
      rest none {t} kt = Ensures-ok t kt
      rest (some (ntok, text')) {t} kt = statement-IsAsm line ntok text' t kt

  parse_line-IsAsm :
      (line : ℕ) (buf : List ℕ) (s : Asm)
      → IsAsm cfg slots size s
      → Ensures (IsAsm cfg slots size) (parse_line report cfg line buf s)
  unfolding parse_line
  parse_line-IsAsm line buf s k = by_token (strtok blanks buf)
    where
      by_token :
          (o : Option (List ℕ × List ℕ))
          → Ensures (IsAsm cfg slots size) (elim o [
            | none ↦ ok s
            | some ([], rest) ↦ ok s
            | some (c ∷ tok, rest) ↦
                if c == 35
                then ok s
                else if c == 46
                then parse_assembler_directive report cfg line (c ∷ tok) rest s
                else if last_is 58 (c ∷ tok)
                then label_line report cfg line (drop_last (c ∷ tok)) rest s
                else instr_line report cfg line (c ∷ tok) rest s
          ])
      by_token none = Ensures-ok s k
      by_token (some ([], rest)) = Ensures-ok s k
      by_token (some (c ∷ tok, rest)) =
          Ensures-if (c == 35) _ _ (λ _. Ensures-ok s k)
            (λ _.
              Ensures-if (c == 46) _ _
                (λ _. parse_assembler_directive-IsAsm line (c ∷ tok) rest s k)
                (λ _.
                  Ensures-if (last_is 58 (c ∷ tok)) _ _
                    (λ _. label_line-IsAsm line (drop_last (c ∷ tok)) rest s k)
                    (λ _. instr_line-IsAsm line (c ∷ tok) rest s k)))

  -- When `parse` accepts a file, with the text and data offsets in the memory: the instruction
  -- memory keeps its slots, with word immediates, the source buffer is not exceeded, the data memory
  -- keeps its size and holds bytes, the offset stays in it or just behind, and the labels are at most
  -- as many as configured, shorter than their arrays, and at such offsets.
  pub parse-IsAsm :
      (line : ℕ) (file : List (List ℕ)) (s : Asm)
      → IsAsm cfg slots size s
      → Ensures (IsAsm cfg slots size) (parse report cfg line file s)
  unfolding parse
  parse-IsAsm line [] s k = Ensures-ok s k
  parse-IsAsm line (buf ∷ file) s k =
      Ensures-bind (parse_line report cfg line (lower buf) s) _
        (parse_line-IsAsm line (lower buf) s k) (λ t kt. parse-IsAsm (line + 1) file t kt)
