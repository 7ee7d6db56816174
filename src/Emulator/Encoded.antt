-- ===== src/Emulator/Encoded.antt =====
-- The instruction memory and the source buffer: when they are well formed, and what writing one
-- instruction does to them.
use aias_lab.Prelude.{
  ℕ, ◌≤◌, ◌≡◌, ◌∙◌, Option, List, arith, get_elem?, set, length, All, All-set, All-get_elem?,
  length-set, Option-cases, inl, inr,
}
use aias_lab.Prelude.Result.{Result, undefined, ◌>>=◌}
use aias_lab.Prelude.Ensures.{Ensures, Ensures-ok, Ensures-err, Ensures-bind}
use aias_lab.Prelude.Int.{ℤ, pos, negsuc}
use aias_lab.Prelude.Word.{IsWord}
use aias_lab.Instr.{Instr}
use aias_lab.Cpu.Invariant.{IsInstr}
use aias_lab.Emulator.Text.{Reporter}
use aias_lab.Emulator.Numbers.{low_word}
use aias_lab.Emulator.Source.{Source, append_source, append_source-keeps, append_source-bound}
use aias_lab.Emulator.Pseudo.{put_entry}
use aias_lab.Emulator.Code.{Code, entry}

-- The memory has its number of slots, each immediate is a word, and the buffer is not exceeded.
pub record IsCode (slots max_src_len : ℕ) (c : Code) : Type 0 where
  pub sized : length c.imem ≡ slots
  pub words : All IsInstr c.imem
  pub within : c.src.offset ≤ max_src_len

pub entry-IsInstr : (imem : List Instr) (n : ℕ) → All IsInstr imem → Ensures IsInstr (entry imem n)
entry-IsInstr imem n a = elim (Option-cases (get_elem? imem n)) [
  | inl e ↦ rw e (Ensures-err undefined)
  | inr (i, e) ↦ rw e (Ensures-ok i (All-get_elem? IsInstr imem n a e))
]

pub low_word-IsWord : (v : ℤ) → IsWord (low_word v)
low_word-IsWord (pos n) = omega arith
low_word-IsWord (negsuc n) = omega arith

pub zero-IsWord : IsWord 0
zero-IsWord = omega arith

-- What `append_source` leaves of an instruction, and of the buffer.
pub record IsAppended (max_src_len : ℕ) (i : Instr) (x : Source × Instr) : Type 0 where
  pub op : x.1.op ≡ i.op
  pub words : IsInstr x.1
  pub within : x.0.offset ≤ max_src_len

pub append_source-IsAppended :
    (max_src_len : ℕ) (op a1 a2 a3 : Option (List ℕ)) (s : Source) (i : Instr)
    → IsInstr i
    → s.offset ≤ max_src_len
    → Ensures (IsAppended max_src_len i) (append_source max_src_len op a1 a2 a3 s i)
append_source-IsAppended max_src_len op a1 a2 a3 s i w le = record {
  at = λ x e.
      let (p, same) = append_source-keeps max_src_len op a1 a2 a3 s i e in
      record {
        op = rw (← same);
        words = rw (← same) (record { imm2 = w.imm2; imm3 = w.imm3 });
        within = (append_source-bound max_src_len op a1 a2 a3 s i le e).0;
      };
}

pub set_entry-IsCode :
    {slots max_src_len : ℕ} (n : ℕ) (i : Instr) (c : Code)
    → IsInstr i
    → IsCode slots max_src_len c
    → IsCode slots max_src_len (record c { imem = set c.imem n i })
set_entry-IsCode n i c w k = record {
  sized = length-set c.imem n i ∙ k.sized;
  words = All-set IsInstr c.imem n i k.words w;
  within = k.within;
}

module _ (report : Reporter) (max_src_len : ℕ) {slots : ℕ} where
  pub put_entry-IsCode :
      (n : ℕ) (op a1 a2 a3 : Option (List ℕ)) (i : Instr) (c : Code)
      → IsInstr i
      → IsCode slots max_src_len c
      → Ensures (IsCode slots max_src_len) (put_entry report max_src_len n op a1 a2 a3 i c)
  unfolding put_entry
  put_entry-IsCode n op a1 a2 a3 i c w k =
      Ensures-bind (append_source max_src_len op a1 a2 a3 c.src i) _
        (append_source-IsAppended max_src_len op a1 a2 a3 c.src i w k.within)
        (λ x a. Ensures-ok _ (record {
          sized = length-set c.imem n x.1 ∙ k.sized;
          words = All-set IsInstr c.imem n x.1 k.words a.words;
          within = a.within;
        }))

  -- An entry is fetched, and rewritten from what it held.
  pub rewrite-IsCode :
      (n : ℕ) (c : Code) (next : Instr → Result Code)
      → IsCode slots max_src_len c
      → ((i : Instr) → IsInstr i → Ensures (IsCode slots max_src_len) (next i))
      → Ensures (IsCode slots max_src_len) (entry c.imem n >>= next)
  rewrite-IsCode n c next k h =
      Ensures-bind (entry c.imem n) next (entry-IsInstr c.imem n k.words) h
