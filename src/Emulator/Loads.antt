-- ===== src/Emulator/Loads.antt =====
-- What the two instructions of `li`, and those of `la` after `normalize_labels`, do when the CPU
-- executes them.
use aias_lab.Prelude.{
  ℕ, true, false, Option, none, some, get_elem?, List, [], ◌∷◌, ◌++◌, ◌+◌, ◌-◌, ◌/◌, ◌%◌, ◌^◌, ◌<◌,
  ◌≡◌, refl, ap, ◌∙◌, arith, length, set, bit_and, length-set, get_or-set_self, set-set,
  get_elem?-some, get_elem?-set_self, get_elem?-set_ne, lt→ltb,
}
use aias_lab.Prelude.Bits.{bit_and_mask}
use aias_lab.Prelude.Result.{Result, ok, ◌>>=◌}
use aias_lab.Prelude.Int.{ℤ, pos, negsuc, ltb_ℤ}
use aias_lab.Prelude.Word.{IsWord, add32, shl32}
use aias_lab.Instr.{lui, addi, Operand, Instr}
use aias_lab.Cpu.Execute.{Exec, reg_imm, execute}
use aias_lab.Cpu.View.{IsReg, reg-ok, put-ok}
use aias_lab.Emulator.Text.{codes, Reporter}
use aias_lab.Emulator.Numbers.{strtol, low_word}
use aias_lab.Emulator.Registers.{parse_reg}
use aias_lab.Emulator.Encoded.{low_word-IsWord}
use aias_lab.Emulator.Source.{
  Source, format_reg, format_hex, source_text, append_source, append_source-ok,
}
use aias_lab.Emulator.Pseudo.{put_entry, write_li, pseudo_li}
use aias_lab.Emulator.Code.{Code, to_reg, li_lui, li_addi}

-- The halves of a word, as LUI and ADDI put them together: the low half is not sign-extended.
pub halves : (v : ℕ) → IsWord v → add32 (shl32 (v / 2 ^ 12) 12) (bit_and v (2 ^ 12 - 1)) ≡ v
halves v w = rw (bit_and_mask 12 v) (omega arith)

-- The two instructions that `li` writes for the register `r` and the word `v`, executed one after
-- the other in any state with 32 registers, both succeed, and all they change is that the
-- register holds `v`.
pub li-loads :
    (line r v : ℕ) (i j : Instr) (s : Exec)
    → r < 32
    → IsWord v
    → length s.rf ≡ 32
    → (execute lui (li_lui line (pos r) v i) s >>= λ t. execute addi (li_addi line (pos r) v j) t)
      ≡ ok (record s { rf = set s.rf r v })
unfolding execute reg_imm
li-loads line r v i j s lt w len =
    let dest : Operand = to_reg (pos r) i.a1 in
    let is_reg : IsReg dest = record { nonneg = refl; below = lt } in
    let upper = shl32 (v / 2 ^ 12) 12 in
    let t : Exec = record s { rf = set s.rf r upper } in
    let sized : length t.rf ≡ 32 = length-set s.rf r upper ∙ len in
    rw (put-ok s dest upper is_reg len) (
      rw (reg-ok t.rf dest is_reg sized) (
        rw (get_or-set_self s.rf r upper 0 (omega arith), halves v w)
          (rw (put-ok t dest v is_reg sized)
            (ap (λ (rf : List ℕ). ok (record s { rf = rf })) (set-set s.rf r upper v)))))

-- `m` writes two instructions at `n` that load `v` into the register `r` and change nothing else.
pub record Loads (m : Result Code) (n r v : ℕ) : Type 0 where
  pub next : Code
  pub first : Instr
  pub second : Instr
  pub runs : m ≡ ok next
  pub first_at : get_elem? next.imem n ≡ some first
  pub second_at : get_elem? next.imem (n + 1) ≡ some second
  pub loads :
      (s : Exec)
      → length s.rf ≡ 32
      → (execute first.op first s >>= λ t. execute second.op second t)
        ≡ ok (record s { rf = set s.rf r v })

abbrev pub source_of : Instr → Option ℕ → Instr
source_of i p = record i { psrc = p }

abbrev pub reg_text : ℕ → List ℕ
reg_text r = 120 ∷ (48 + r / 10) ∷ (48 + r % 10) ∷ []

pub reg_text_lem : (r : ℕ) → r < 32 → format_reg (pos r) ≡ ok (reg_text r)
unfolding format_reg
reg_text_lem r lt = rw (lt→ltb r 100 (omega arith)) refl

abbrev pub lui_text : ℕ → ℕ → List ℕ
lui_text r v = codes "lui" ++ codes " " ++ reg_text r ++ codes ", " ++ format_hex (v / 2 ^ 12)

abbrev pub addi_text : ℕ → ℕ → List ℕ
addi_text r v =
    codes "addi"
    ++ codes " "
    ++ reg_text r
    ++ codes ", "
    ++ reg_text r
    ++ codes ", "
    ++ format_hex (bit_and v (2 ^ 12 - 1))

pub lui_fits : (r v : ℕ) → length (lui_text r v) < 128
unfolding format_hex
lui_fits r v = omega arith

pub addi_fits : (r v : ℕ) → length (addi_text r v) < 128
unfolding format_hex
addi_fits r v = omega arith

-- `write_li`, with the result of each of its calls given.
write_li_lem :
    (report : Reporter) (max_src_len line n v : ℕ) (c : Code) (r : ℤ) {areg : List ℕ}
    {i i1 j j1 : Instr} {s1 s2 : Source}
    → format_reg r ≡ ok areg
    → get_elem? c.imem n ≡ some i
    → append_source max_src_len
        (some (codes "lui"))
        (some areg)
        (some (format_hex (v / 2 ^ 12)))
        none
        c.src
        (li_lui line r v i)
      ≡ ok (s1, i1)
    → get_elem? (set c.imem n i1) (n + 1) ≡ some j
    → append_source max_src_len
        (some (codes "addi"))
        (some areg)
        (some areg)
        (some (format_hex (bit_and v (2 ^ 12 - 1))))
        s1
        (li_addi line r v j)
      ≡ ok (s2, j1)
    → write_li report max_src_len line n r v c
      ≡ ok (record { imem = set (set c.imem n i1) (n + 1) j1; src = s2 })
unfolding write_li put_entry
write_li_lem report max_src_len line n v c r a b d e f = rw a (rw b (rw d (rw e (rw f refl))))

write_li-Loads :
    (report : Reporter) (max_src_len line n r v : ℕ) (c : Code)
    → r < 32
    → IsWord v
    → n + 1 < length c.imem
    → Loads (write_li report max_src_len line n (pos r) v c) n r v
unfolding source_text
write_li-Loads report max_src_len line n r v c lt w room =
    let (i, at_n) = get_elem?-some c.imem n (omega arith) in
    let (s1, p, done1) =
      append_source-ok max_src_len (some (codes "lui")) (some (reg_text r))
        (some (format_hex (v / 2 ^ 12))) none c.src (li_lui line (pos r) v i) {text = lui_text r v}
        refl (lui_fits r v) in
    let i' = li_lui line (pos r) v (source_of i p) in
    let imem1 = set c.imem n i' in
    let sized : length imem1 ≡ length c.imem = length-set c.imem n i' in
    let (j, at_m) = get_elem?-some imem1 (n + 1) (omega arith) in
    let (s2, q, done2) =
      append_source-ok max_src_len (some (codes "addi")) (some (reg_text r)) (some (reg_text r))
        (some (format_hex (bit_and v (2 ^ 12 - 1)))) s1 (li_addi line (pos r) v j)
        {text = addi_text r v} refl (addi_fits r v) in
    let j' = li_addi line (pos r) v (source_of j q) in
    record {
      next = record { imem = set imem1 (n + 1) j'; src = s2 };
      first = i';
      second = j';
      runs =
          write_li_lem report max_src_len line n v c (pos r) (reg_text_lem r lt) at_n done1 at_m
            done2;
      first_at =
          get_elem?-set_ne imem1 (n + 1) n j' (omega arith)
          ∙ get_elem?-set_self c.imem n i' (omega arith);
      second_at = get_elem?-set_self imem1 (n + 1) j' (omega arith);
      loads = λ s len. li-loads line r v (source_of i p) (source_of j q) s lt w len;
    }

not_negative : (r : ℕ) → ltb_ℤ (pos r) (pos 0) ≡ false
not_negative r = ground arith

-- `li` with a register below 32 and a number that fits 32 bits, signed or not, with room for two
-- instructions: the assembler writes two instructions, and executing them one after the other
-- loads the low 32 bits of the number into the register, and changes nothing else.
pub pseudo_li-Loads :
    (report : Reporter) (max_src_len line n r : ℕ) (t1 t2 : List ℕ) (c : Code)
    → parse_reg report t1 line true ≡ ok (pos r)
    → r < 32
    → ltb_ℤ (pos (2 ^ 32 - 1)) (strtol t2).0 ≡ false
    → ltb_ℤ (strtol t2).0 (negsuc (2 ^ 31 - 1)) ≡ false
    → n + 1 < length c.imem
    → Loads
        (pseudo_li report max_src_len line n (some t1) (some t2) none c)
        n
        r
        (low_word (strtol t2).0)
unfolding pseudo_li
pseudo_li-Loads report max_src_len line n r t1 t2 c hr lt hi lo room = rw hr (
    rw (not_negative r, hi, lo)
      (write_li-Loads report max_src_len line n r (low_word (strtol t2).0) c lt
        (low_word-IsWord (strtol t2).0) room))
