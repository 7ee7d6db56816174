-- ===== src/Emulator/Expanded.antt =====
-- Pseudo-instructions, as changes of the instruction memory.
use aias_lab.Prelude.{ℕ, ◌+◌, ◌-◌, ◌/◌, ◌^◌, true, not, ◌||◌, Option, none, some, List, arith, set}
use aias_lab.Prelude.Bits.{bit_and_mask}
use aias_lab.Prelude.Result.{Result, ok, exit, guard, ◌>>=◌}
use aias_lab.Prelude.Ensures.{Ensures, Ensures-ok, Ensures-if, Ensures-bind, Ensures-after}
use aias_lab.Prelude.Int.{ℤ, pos, negsuc, ltb_ℤ}
use aias_lab.Prelude.Word.{IsWord}
use aias_lab.Instr.{InstrType, beq, bne}
use aias_lab.Emulator.Text.{codes, streq, Reporter}
use aias_lab.Emulator.Numbers.{strtol, low_word}
use aias_lab.Emulator.Registers.{parse_reg}
use aias_lab.Emulator.Source.{format_reg, format_hex}
use aias_lab.Emulator.Pseudo.{
  put_entry, check_format, write_li, pseudo_li, pseudo_la, pseudo_ret, pseudo_j, pseudo_mv,
  pseudo_branch, parse_pseudoinstructions,
}
use aias_lab.Emulator.Code.{Code, is_null, text_of, li_lui, li_addi, la_lui, la_addi}
use aias_lab.Emulator.Encoded.{
  IsCode, zero-IsWord, low_word-IsWord, set_entry-IsCode, put_entry-IsCode, rewrite-IsCode,
}

module _ (report : Reporter) (max_src_len : ℕ) {slots : ℕ} where
  pseudo_ret-IsCode :
      (line n : ℕ) (o1 : Option (List ℕ)) (c : Code)
      → IsCode slots max_src_len c
      → Ensures (IsCode slots max_src_len) (pseudo_ret report max_src_len line n o1 c)
  unfolding pseudo_ret
  pseudo_ret-IsCode line n o1 c k =
      Ensures-after (check_format report max_src_len line (not (is_null o1))) _ (λ _ _.
        rewrite-IsCode report max_src_len n c _ k (λ i w.
          put_entry-IsCode report max_src_len n _ _ _ _ _ c
            (record { imm2 = w.imm2; imm3 = zero-IsWord }) k))

  pseudo_j-IsCode :
      (line n : ℕ) (o1 o2 : Option (List ℕ)) (c : Code)
      → IsCode slots max_src_len c
      → Ensures (IsCode slots max_src_len) (pseudo_j report max_src_len line n o1 o2 c)
  unfolding pseudo_j
  pseudo_j-IsCode line n o1 o2 c k =
      Ensures-after (check_format report max_src_len line (is_null o1 || not (is_null o2))) _
        (λ _ _. rewrite-IsCode report max_src_len n c _ k (λ i w.
          Ensures-after (text_of o1) _ (λ t _.
            put_entry-IsCode report max_src_len n _ _ _ _ _ c
              (record { imm2 = w.imm2; imm3 = w.imm3 }) k)))

  pseudo_mv-IsCode :
      (line n : ℕ) (o1 o2 o3 : Option (List ℕ)) (c : Code)
      → IsCode slots max_src_len c
      → Ensures (IsCode slots max_src_len) (pseudo_mv report max_src_len line n o1 o2 o3 c)
  unfolding pseudo_mv
  pseudo_mv-IsCode line n o1 o2 o3 c k =
      Ensures-after
        (check_format report max_src_len line (is_null o1 || is_null o2 || not (is_null o3))) _
        (λ _ _. rewrite-IsCode report max_src_len n c _ k (λ i w.
          Ensures-after (text_of o1) _ (λ t1 _.
            Ensures-after (parse_reg report t1 line true) _ (λ _ _.
              Ensures-after (text_of o2) _ (λ t2 _.
                Ensures-after (parse_reg report t2 line true) _ (λ _ _.
                  put_entry-IsCode report max_src_len n _ _ _ _ _ c
                    (record { imm2 = w.imm2; imm3 = zero-IsWord }) k))))))

  pseudo_branch-IsCode :
      (op : InstrType) (name : List ℕ) (line n : ℕ) (o1 o2 o3 : Option (List ℕ)) (c : Code)
      → IsCode slots max_src_len c
      → Ensures
          (IsCode slots max_src_len)
          (pseudo_branch report max_src_len op name line n o1 o2 o3 c)
  unfolding pseudo_branch
  pseudo_branch-IsCode op name line n o1 o2 o3 c k =
      Ensures-after
        (check_format report max_src_len line (is_null o1 || is_null o2 || not (is_null o3))) _
        (λ _ _. rewrite-IsCode report max_src_len n c _ k (λ i w.
          Ensures-after (text_of o1) _ (λ t1 _.
            Ensures-after (parse_reg report t1 line true) _ (λ _ _.
              Ensures-after (text_of o2) _ (λ _ _.
                put_entry-IsCode report max_src_len n _ _ _ _ _ c
                  (record { imm2 = w.imm2; imm3 = w.imm3 }) k)))))

  write_li-IsCode :
      (line n : ℕ) (r : ℤ) (v : ℕ) (c : Code)
      → IsWord v
      → IsCode slots max_src_len c
      → Ensures (IsCode slots max_src_len) (write_li report max_src_len line n r v c)
  unfolding write_li
  write_li-IsCode line n r v c lt k = Ensures-after (format_reg r) _ (λ areg _.
      rewrite-IsCode report max_src_len n c _ k (λ i w.
        Ensures-bind
          (put_entry report max_src_len n (some (codes "lui")) (some areg)
            (some (format_hex (v / 2 ^ 12))) none (li_lui line r v i) c)
          _
          (put_entry-IsCode report max_src_len n _ _ _ _ (li_lui line r v i) c
            (record { imm2 = omega arith; imm3 = w.imm3 }) k)
          (λ c1 k1. rewrite-IsCode report max_src_len (n + 1) c1 _ k1 (λ j w1.
            put_entry-IsCode report max_src_len (n + 1) _ _ _ _ (li_addi line r v j) c1
              (record { imm2 = w1.imm2; imm3 = omega (arith, bit_and_mask 12 v) }) k1))))

  pseudo_li-IsCode :
      (line n : ℕ) (o1 o2 o3 : Option (List ℕ)) (c : Code)
      → IsCode slots max_src_len c
      → Ensures (IsCode slots max_src_len) (pseudo_li report max_src_len line n o1 o2 o3 c)
  unfolding pseudo_li
  pseudo_li-IsCode line n o1 o2 o3 c k =
      Ensures-after
        (check_format report max_src_len line (is_null o1 || is_null o2 || not (is_null o3))) _
        (λ _ _. Ensures-after (text_of o1) _ (λ t1 _.
          Ensures-after (parse_reg report t1 line true) _ (λ r _.
            Ensures-after (text_of o2) _ (λ t2 _.
              Ensures-after
                (guard
                  (not (
                    ltb_ℤ r (pos 0)
                    || ltb_ℤ (pos (2 ^ 32 - 1)) (strtol t2).0
                    || ltb_ℤ (strtol t2).0 (negsuc (2 ^ 31 - 1))))
                  (exit 1))
                _
                (λ _ _.
                  write_li-IsCode line n r (low_word (strtol t2).0) c
                    (low_word-IsWord (strtol t2).0) k)))))

  pseudo_la-IsCode :
      (line n : ℕ) (o1 o2 o3 : Option (List ℕ)) (c : Code)
      → IsCode slots max_src_len c
      → Ensures (IsCode slots max_src_len) (pseudo_la report max_src_len line n o1 o2 o3 c)
  unfolding pseudo_la
  pseudo_la-IsCode line n o1 o2 o3 c k =
      Ensures-after
        (check_format report max_src_len line (is_null o1 || is_null o2 || not (is_null o3))) _
        (λ _ _. Ensures-after (text_of o1) _ (λ t1 _.
          Ensures-after (parse_reg report t1 line true) _ (λ r _.
            rewrite-IsCode report max_src_len n c _ k (λ i w. Ensures-after (text_of o2) _ (λ t2 _.
              let first =
                set_entry-IsCode n (la_lui line r t2 i) c (record { imm2 = w.imm2; imm3 = w.imm3 })
                  k in
              rewrite-IsCode report max_src_len (n + 1)
                (record c { imem = set c.imem n (la_lui line r t2 i) }) _ first
                (λ j w1. Ensures-ok _ (
                  set_entry-IsCode (n + 1) (la_addi line r t2 j) _
                    (record { imm2 = w1.imm2; imm3 = w1.imm3 }) first)))))))

  pub parse_pseudoinstructions-IsCode :
      (line : ℕ) (ftok : List ℕ) (n : ℕ) (o1 o2 o3 : Option (List ℕ)) (c : Code)
      → IsCode slots max_src_len c
      → Ensures
          (λ (x : ℕ × Code). IsCode slots max_src_len x.1)
          (parse_pseudoinstructions report max_src_len line ftok n o1 o2 o3 c)
  unfolding parse_pseudoinstructions
  parse_pseudoinstructions-IsCode line ftok n o1 o2 o3 c k =
      Ensures-if (streq ftok (codes "li")) _ _
        (λ _. counted 2 (pseudo_li-IsCode line n o1 o2 o3 c k))
        (λ _.
          Ensures-if (streq ftok (codes "la")) _ _
            (λ _. counted 2 (pseudo_la-IsCode line n o1 o2 o3 c k))
            (λ _.
              Ensures-if (streq ftok (codes "ret")) _ _
                (λ _. counted 1 (pseudo_ret-IsCode line n o1 c k))
                (λ _.
                  Ensures-if (streq ftok (codes "j")) _ _
                    (λ _. counted 1 (pseudo_j-IsCode line n o1 o2 c k))
                    (λ _.
                      Ensures-if (streq ftok (codes "mv")) _ _
                        (λ _. counted 1 (pseudo_mv-IsCode line n o1 o2 o3 c k))
                        (λ _.
                          Ensures-if (streq ftok (codes "bnez")) _ _
                            (λ _.
                              counted 1
                                (pseudo_branch-IsCode bne (codes "bne") line n o1 o2 o3 c k))
                            (λ _.
                              Ensures-if (streq ftok (codes "beqz")) _ _
                                (λ _.
                                  counted 1
                                    (pseudo_branch-IsCode beq (codes "beq") line n o1 o2 o3 c k))
                                (λ _. Ensures-ok (0, c) k)))))))
    where
      counted :
          (count : ℕ) {m : Result Code}
          → Ensures (IsCode slots max_src_len) m
          → Ensures (λ (x : ℕ × Code). IsCode slots max_src_len x.1) (m >>= λ c'. ok (count, c'))
      counted count {m} h = Ensures-bind m _ h (λ c' k'. Ensures-ok (count, c') k')
