-- ===== src/Emulator/Placed.antt =====
-- The data elements and fillers that `parse` writes, as changes of the data memory.
use aias_lab.Prelude.{
  ℕ, zero, suc, ◌+◌, ◌*◌, ◌≤◌, ◌≡◌, ◌∙◌, not, ◌||◌, List, [], ◌∷◌, arith, leb, length, All,
}
use mathlib.Core.Path.{subst}
use aias_lab.Prelude.Result.{exit, undefined, guard}
use aias_lab.Prelude.Ensures.{
  Ensures, Ensures-ok, Ensures-err, Ensures-if, Ensures-bind, Ensures-after,
}
use aias_lab.Memory.Bytes.{IsByte, memcpy, length-memcpy, memcpy-All}
use aias_lab.Memory.Handlers.{le_bytes}
use aias_lab.Memory.Safety.{IsMemory, le_bytes-All}
use aias_lab.Memory.Rw.{length-le_bytes}
use aias_lab.Emulator.Text.{Reporter}
use aias_lab.Emulator.Numbers.{strtol}
use aias_lab.Emulator.Lines.{Config, poke, int64_bits, exceeds, parse_data_element, fill_words}

-- A data memory, and an offset in it or just behind it.
pub record IsPlaced (size : ℕ) (x : List ℕ × ℕ) : Type 0 where
  pub memory : IsMemory size x.0
  pub inside : x.1 ≤ size

pub poke-IsPlaced :
    {size : ℕ} (mem : List ℕ) (addr : ℕ) (bytes : List ℕ)
    → IsMemory size mem
    → All IsByte bytes
    → Ensures (λ mem'. IsPlaced size (mem', addr + length bytes)) (poke mem addr bytes)
poke-IsPlaced mem addr bytes m b =
    Ensures-if (leb (addr + length bytes) (length mem)) _ _
      (λ room. Ensures-ok (memcpy mem addr bytes) (record {
        memory = record {
          sized = length-memcpy mem addr bytes ∙ m.sized;
          bytes = memcpy-All mem addr bytes m.bytes b;
        };
        inside = ground (arith, m.sized);
      }))
      (λ _. Ensures-err undefined)

pub parse_data_element-IsPlaced :
    {size : ℕ} (n : ℕ) (ts : List (List ℕ)) (mem : List ℕ) (offset : ℕ)
    → IsPlaced size (mem, offset)
    → Ensures (IsPlaced size) (parse_data_element n ts mem offset)
unfolding parse_data_element
parse_data_element-IsPlaced n [] mem offset p = Ensures-ok (mem, offset) p
parse_data_element-IsPlaced n (t ∷ ts) mem offset p =
    Ensures-after (guard (not ((strtol t).1 || exceeds n (strtol t).0)) (exit 2)) _ (λ _ _.
      Ensures-bind (poke mem offset (le_bytes n (int64_bits (strtol t).0))) _
        (poke-IsPlaced mem offset _ p.memory (le_bytes-All n (int64_bits (strtol t).0)))
        (λ mem' q. parse_data_element-IsPlaced n ts mem' (offset + n) (record {
          memory = q.memory;
          inside = omega (arith, q.inside, length-le_bytes n (int64_bits (strtol t).0));
        })))

pub fill_words-IsPlaced :
    {size : ℕ} (report : Reporter) (cfg : Config) (line count addr : ℕ) (mem : List ℕ)
    → IsPlaced size (mem, addr)
    → Ensures
        (λ mem'. IsPlaced size (mem', addr + count * 4))
        (fill_words report cfg line count addr mem)
fill_words-IsPlaced report cfg line zero addr mem p =
    Ensures-ok mem (record { memory = p.memory; inside = omega (arith, p.inside) })
fill_words-IsPlaced {size} report cfg line (suc count) addr mem p =
    let filler : All IsByte (204 ∷ 204 ∷ 204 ∷ 204 ∷ []) =
      (omega arith, (omega arith, (omega arith, (omega arith, tt)))) in
    Ensures-bind (poke mem addr (204 ∷ 204 ∷ 204 ∷ 204 ∷ [])) _
      (poke-IsPlaced mem addr (204 ∷ 204 ∷ 204 ∷ 204 ∷ []) p.memory filler)
      (λ mem' q.
        let same : addr + 4 + count * 4 ≡ addr + suc count * 4 = omega arith in
        subst
          (λ (k : ℕ).
            Ensures (λ mem''. IsPlaced size (mem'', k))
              (fill_words report cfg line count (addr + 4) mem'))
          same
          (fill_words-IsPlaced report cfg line count (addr + 4) mem'
            (record { memory = q.memory; inside = q.inside })))
