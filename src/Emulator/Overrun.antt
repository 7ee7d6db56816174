-- ===== src/Emulator/Overrun.antt =====
-- `li` and `la` on the last slot of the instruction memory.
use aias_lab.Prelude.{
  ℕ, ◌⊎◌, ◌+◌, ◌/◌, ◌^◌, ◌≡◌, refl, true, false, Option, none, some, List, arith, length,
  length-set, set, get_elem?, get_elem?-none, ltb, leb, Option-cases, Bool-cases, inl, inr, ◌-◌,
  le→leb,
}
use aias_lab.Prelude.Result.{undefined, Result, ok, err, ◌>>=◌}
use aias_lab.Prelude.Int.{ℤ, pos, negsuc, ltb_ℤ}
use aias_lab.Instr.{Instr}
use aias_lab.Emulator.Text.{codes, streq, Reporter}
use aias_lab.Emulator.Numbers.{strtol, low_word}
use aias_lab.Emulator.Registers.{parse_reg}
use aias_lab.Emulator.Source.{
  Source, format_reg, format_hex, source_text, append_text, append_source,
}
use aias_lab.Emulator.Operands.{split_operands, parse_instr}
use aias_lab.Emulator.Pseudo.{parse_pseudoinstructions, put_entry, write_li, pseudo_li, pseudo_la}
use aias_lab.Emulator.Code.{Code, entry, li_lui, la_lui}

-- Code without a diagnostic: it succeeds, or its behaviour is undefined.
record IsSilent {A : Type 0} (P : A → Type 0) (m : Result A) : Type 0 where
  at : ((a : A) × (m ≡ ok a) × P a) ⊎ (m ≡ err undefined)

-- What follows code without a diagnostic, and is undefined itself.
undefined-after :
    {A B : Type 0} {P : A → Type 0} (m : Result A) (f : A → Result B)
    → IsSilent P m
    → ((a : A) → P a → f a ≡ err undefined)
    → (m >>= f) ≡ err undefined
undefined-after m f s k = elim s.at [ inl (a, e, p) ↦ rw e (k a p) | inr e ↦ rw e refl ]

entry-IsSilent : (imem : List Instr) (n : ℕ) → IsSilent (λ _. Unit {0}) (entry imem n)
entry-IsSilent imem n = elim (Option-cases (get_elem? imem n)) [
  | inl e ↦ record { at = inr (rw e refl) }
  | inr (i, e) ↦ record { at = inl (i, rw e refl, tt) }
]

format_reg-IsSilent : (r : ℤ) → IsSilent (λ _. Unit {0}) (format_reg r)
unfolding format_reg
format_reg-IsSilent (pos r) = elim (Bool-cases (ltb r 100)) [
  | inl e ↦ rw e (record { at = inl (_, refl, tt) })
  | inr e ↦ rw e (record { at = inr refl })
]
format_reg-IsSilent (negsuc r) = elim (Bool-cases (ltb r 9)) [
  | inl e ↦ rw e (record { at = inl (_, refl, tt) })
  | inr e ↦ rw e (record { at = inr refl })
]

append_text-IsSilent :
    (max_src_len : ℕ) (text : List ℕ) (s : Source) (i : Instr)
    → IsSilent (λ _. Unit {0}) (append_text max_src_len text s i)
unfolding append_text
append_text-IsSilent max_src_len text s i = elim (Bool-cases (ltb (length text) 128)) [
  | inl fits ↦ rw fits (record { at = inl (_, refl, tt) })
  | inr long ↦ rw long (record { at = inr refl })
]

append_source-IsSilent :
    (max_src_len : ℕ) (op a1 a2 a3 : Option (List ℕ)) (s : Source) (i : Instr)
    → IsSilent (λ _. Unit {0}) (append_source max_src_len op a1 a2 a3 s i)
unfolding append_source
append_source-IsSilent max_src_len op a1 a2 a3 s i = by_text (source_text op a1 a2 a3)
  where
    by_text :
        (o : Option (List ℕ))
        → IsSilent {A = Source × Instr}
            (λ _. Unit {0})
            (elim o [ none ↦ ok (s, i) | some text ↦ append_text max_src_len text s i ])
    by_text none = record { at = inl ((s, i), refl, tt) }
    by_text (some text) = append_text-IsSilent max_src_len text s i

put_entry-IsSilent :
    (report : Reporter) (max_src_len n : ℕ) (op a1 a2 a3 : Option (List ℕ)) (i : Instr) (c : Code)
    → IsSilent
        (λ (d : Code). length d.imem ≡ length c.imem)
        (put_entry report max_src_len n op a1 a2 a3 i c)
unfolding put_entry
put_entry-IsSilent report max_src_len n op a1 a2 a3 i c =
    elim (append_source-IsSilent max_src_len op a1 a2 a3 c.src i).at [
      | inl (x, e, _) ↦ rw e (record { at = inl (_, refl, length-set c.imem n x.1) })
      | inr e ↦ rw e (record { at = inr refl })
    ]

write_li-overrun :
    (report : Reporter) (max_src_len line n : ℕ) (r : ℤ) (v : ℕ) (c : Code)
    → length c.imem ≡ n + 1
    → write_li report max_src_len line n r v c ≡ err undefined
unfolding write_li
write_li-overrun report max_src_len line n r v c full =
    undefined-after (format_reg r) _ (format_reg-IsSilent r) (λ areg _.
      undefined-after (entry c.imem n) _ (entry-IsSilent c.imem n) (λ i _.
        undefined-after
          (put_entry report max_src_len n (some (codes "lui")) (some areg)
            (some (format_hex (v / 2 ^ 12))) none (li_lui line r v i) c)
          _
          (put_entry-IsSilent report max_src_len n (some (codes "lui")) (some areg)
            (some (format_hex (v / 2 ^ 12))) none (li_lui line r v i) c)
          (λ d same. rw (get_elem?-none d.imem (n + 1) (omega (arith, same))) refl)))

not_negative : (r : ℕ) → ltb_ℤ (pos r) (pos 0) ≡ false
not_negative r = ground arith

module _ (report : Reporter) (line r memoff : ℕ) (t1 t2 text : List ℕ) (c : Code)
    (operands : split_operands text ≡ record { o1 = some t1; o2 = some t2; o3 = none; o4 = none })
    (register' : parse_reg report t1 line true ≡ ok (pos r))
    (full : length c.imem ≡ memoff / 4 + 1) where
  pseudo_la-overrun :
      (max_src_len : ℕ)
      → pseudo_la report max_src_len line (memoff / 4) (some t1) (some t2) none c ≡ err undefined
  unfolding pseudo_la
  pseudo_la-overrun max_src_len = rw register' (
      undefined-after (entry c.imem (memoff / 4)) _ (entry-IsSilent c.imem (memoff / 4)) (λ i _.
        rw
          (get_elem?-none (set c.imem (memoff / 4) (la_lui line (pos r) t2 i)) (memoff / 4 + 1)
            (omega (arith, length-set c.imem (memoff / 4) (la_lui line (pos r) t2 i))))
          refl))

  -- The check of `parse_instr` leaves room for one instruction. On the last slot of the instruction
  -- memory it passes `li`, with a register and a number that fits 32 bits, and `la`, with a register
  -- and a label; both then go on behind the end of the memory, which is undefined.
  pub parse_instr-overrun :
      (max_src_len : ℕ)
      → ltb_ℤ (pos (2 ^ 32 - 1)) (strtol t2).0 ≡ false
      → ltb_ℤ (strtol t2).0 (negsuc (2 ^ 31 - 1)) ≡ false
      → (parse_instr report line (memoff + 4) max_src_len (codes "li") memoff text c
          ≡ err undefined)
        × (parse_instr report line (memoff + 4) max_src_len (codes "la") memoff text c
            ≡ err undefined)
  unfolding parse_instr parse_pseudoinstructions streq pseudo_li
  parse_instr-overrun max_src_len hi lo =
      let room : leb (memoff + 4) (memoff + 4) ≡ true = le→leb _ _ (omega arith) in
      (
        rw
            (
              room,
              operands,
              register',
              not_negative r,
              hi,
              lo,
              write_li-overrun report max_src_len line (memoff / 4) (pos r) (low_word (strtol t2).0)
                  c full,
            )
            refl,
        rw (room, operands, pseudo_la-overrun max_src_len) refl,
      )
