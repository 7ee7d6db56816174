-- ===== src/Emulator/Pseudo.antt =====
-- `Emulator::parse_pseudoinstructions`.
use aias_lab.Prelude.{
  ℕ, ◌+◌, ◌-◌, ◌/◌, ◌^◌, Bool, true, not, ◌||◌, Option, none, some, List, if◌then◌else◌, set,
  bit_and,
}
use aias_lab.Prelude.Result.{exit, Result, ok, guard, ◌>>=◌, ◌>>◌}
use aias_lab.Prelude.Int.{ℤ, pos, negsuc, ltb_ℤ}
use aias_lab.Instr.{InstrType, addi, jal, jalr, beq, bne, Instr}
use aias_lab.Emulator.Text.{codes, streq, Reporter}
use aias_lab.Emulator.Numbers.{strtol, low_word}
use aias_lab.Emulator.Registers.{parse_reg}
use aias_lab.Emulator.Source.{format_reg, format_hex, append_source}
use aias_lab.Emulator.Code.{
  to_reg, to_imm, to_label, is_null, text_of, entry, Code, li_lui, li_addi, la_lui, la_addi,
}

module _ (report : Reporter) (max_src_len : ℕ) where
  -- The instruction `i` with its source text, stored at `n`.
  unfoldable pub put_entry :
      ℕ
      → Option (List ℕ)
      → Option (List ℕ)
      → Option (List ℕ)
      → Option (List ℕ)
      → Instr
      → Code
      → Result Code
  put_entry n op a1 a2 a3 i c = do
    (s, i') ← append_source max_src_len op a1 a2 a3 c.src i
    ok (record { imem = set c.imem n i'; src = s })

  abbrev pub check_format : ℕ → Bool → Result (Unit {0})
  check_format line bad = if bad then report (pos line) else ok tt

  -- The part of `li` behind the checks, for the word `hv`.
  unfoldable pub write_li : ℕ → ℕ → ℤ → ℕ → Code → Result Code
  write_li line n r hv c = do
    areg ← format_reg r
    i ← entry c.imem n
    c1 ←
        put_entry n (some (codes "lui")) (some areg) (some (format_hex (hv / 2 ^ 12))) none
          (li_lui line r hv i) c
    i2 ← entry c1.imem (n + 1)
    put_entry (n + 1) (some (codes "addi")) (some areg) (some areg)
        (some (format_hex (bit_and hv (2 ^ 12 - 1)))) (li_addi line r hv i2) c1

  unfoldable pub pseudo_li :
      ℕ → ℕ → Option (List ℕ) → Option (List ℕ) → Option (List ℕ) → Code → Result Code
  pseudo_li line n o1 o2 o3 c = do
    check_format line (is_null o1 || is_null o2 || not (is_null o3))
    t1 ← text_of o1
    r ← parse_reg report t1 line true
    t2 ← text_of o2
    let imml = (strtol t2).0
    guard
        (not (ltb_ℤ r (pos 0) || ltb_ℤ (pos (2 ^ 32 - 1)) imml || ltb_ℤ imml (negsuc (2 ^ 31 - 1))))
        (exit 1)
    write_li line n r (low_word imml) c

  unfoldable pub pseudo_la :
      ℕ → ℕ → Option (List ℕ) → Option (List ℕ) → Option (List ℕ) → Code → Result Code
  pseudo_la line n o1 o2 o3 c = do
    check_format line (is_null o1 || is_null o2 || not (is_null o3))
    t1 ← text_of o1
    r ← parse_reg report t1 line true
    i ← entry c.imem n
    t2 ← text_of o2
    let imem' = set c.imem n (la_lui line r t2 i)
    i2 ← entry imem' (n + 1)
    ok (record c { imem = set imem' (n + 1) (la_addi line r t2 i2) })

  unfoldable pub pseudo_ret : ℕ → ℕ → Option (List ℕ) → Code → Result Code
  pseudo_ret line n o1 c = do
    check_format line (not (is_null o1))
    i ← entry c.imem n
    put_entry n (some (codes "jalr")) (some (codes "x0")) (some (codes "x1")) (some (codes "x0"))
        (record i {
          op = jalr;
          a1 = to_reg (pos 0) i.a1;
          a2 = to_reg (pos 1) i.a2;
          a3 = to_imm 0 i.a3;
          orig_line = pos line;
        })
        c

  unfoldable pub pseudo_j : ℕ → ℕ → Option (List ℕ) → Option (List ℕ) → Code → Result Code
  pseudo_j line n o1 o2 c = do
    check_format line (is_null o1 || not (is_null o2))
    i ← entry c.imem n
    t1 ← text_of o1
    put_entry n (some (codes "j")) (some (codes "x0")) o1 none
        (record i {
          op = jal;
          a1 = to_reg (pos 0) i.a1;
          a2 = to_label t1 i.a2;
          orig_line = pos line;
        })
        c

  unfoldable pub pseudo_mv :
      ℕ → ℕ → Option (List ℕ) → Option (List ℕ) → Option (List ℕ) → Code → Result Code
  pseudo_mv line n o1 o2 o3 c = do
    check_format line (is_null o1 || is_null o2 || not (is_null o3))
    i ← entry c.imem n
    t1 ← text_of o1
    r1 ← parse_reg report t1 line true
    t2 ← text_of o2
    r2 ← parse_reg report t2 line true
    put_entry n (some (codes "addi")) o1 o2 none
        (record i {
          op = addi;
          a1 = to_reg r1 i.a1;
          a2 = to_reg r2 i.a2;
          a3 = to_imm 0 i.a3;
          orig_line = pos line;
        })
        c

  -- `bnez` and `beqz`: BNE and BEQ against x0.
  unfoldable pub pseudo_branch :
      InstrType
      → List ℕ
      → ℕ
      → ℕ
      → Option (List ℕ)
      → Option (List ℕ)
      → Option (List ℕ)
      → Code
      → Result Code
  pseudo_branch op name line n o1 o2 o3 c = do
    check_format line (is_null o1 || is_null o2 || not (is_null o3))
    i ← entry c.imem n
    t1 ← text_of o1
    r1 ← parse_reg report t1 line true
    t2 ← text_of o2
    put_entry n (some name) (some (codes "x0")) o1 o2
        (record i {
          op = op;
          a1 = to_reg r1 i.a1;
          a2 = to_reg (pos 0) i.a2;
          a3 = to_label t2 i.a3;
          orig_line = pos line;
        })
        c

  -- The number of instructions written, 0 if `ftok` names no pseudo-instruction.
  unfoldable pub parse_pseudoinstructions :
      ℕ
      → List ℕ
      → ℕ
      → Option (List ℕ)
      → Option (List ℕ)
      → Option (List ℕ)
      → Code
      → Result (ℕ × Code)
  parse_pseudoinstructions line ftok n o1 o2 o3 c =
      if streq ftok (codes "li")
      then (pseudo_li line n o1 o2 o3 c >>= λ c'. ok (2, c'))
      else if streq ftok (codes "la")
      then (pseudo_la line n o1 o2 o3 c >>= λ c'. ok (2, c'))
      else if streq ftok (codes "ret")
      then (pseudo_ret line n o1 c >>= λ c'. ok (1, c'))
      else if streq ftok (codes "j")
      then (pseudo_j line n o1 o2 c >>= λ c'. ok (1, c'))
      else if streq ftok (codes "mv")
      then (pseudo_mv line n o1 o2 o3 c >>= λ c'. ok (1, c'))
      else if streq ftok (codes "bnez")
      then (pseudo_branch bne (codes "bne") line n o1 o2 o3 c >>= λ c'. ok (1, c'))
      else if streq ftok (codes "beqz")
      then (pseudo_branch beq (codes "beq") line n o1 o2 o3 c >>= λ c'. ok (1, c'))
      else ok (0, c)
