-- ===== src/Emulator/Elements.antt =====
-- What the program reads of a data element.
use aias_lab.Prelude.{
  ℕ, ◌+◌, ◌%◌, ◌^◌, ◌≤◌, ◌<◌, ◌≡◌, refl, sym, ap, ◌∙◌, arith, false, List, [], ◌∷◌, length, le→leb,
}
use aias_lab.Prelude.Result.{ok}
use aias_lab.Instr.{InstrType}
use aias_lab.Memory.Bytes.{memcpy}
use aias_lab.Memory.Handlers.{le_bytes, mem_read_req_handler}
use aias_lab.Memory.Rw.{
  load_width, extend, length-le_bytes, le_value-le_bytes, read_lem, read_data-memcpy_self,
}
use aias_lab.Emulator.Numbers.{strtol}
use aias_lab.Emulator.Lines.{int64_bits, exceeds, poke, parse_data_element}

poke_lem :
    (mem : List ℕ) (addr : ℕ) (bytes : List ℕ)
    → addr + length bytes ≤ length mem
    → poke mem addr bytes ≡ ok (memcpy mem addr bytes)
poke_lem mem addr bytes h = rw (le→leb _ _ h) refl

element_lem :
    (size : ℕ) (t : List ℕ) (mem mem' : List ℕ) (offset : ℕ)
    → (strtol t).1 ≡ false
    → exceeds size (strtol t).0 ≡ false
    → poke mem offset (le_bytes size (int64_bits (strtol t).0)) ≡ ok mem'
    → parse_data_element size (t ∷ []) mem offset ≡ ok (mem', offset + size)
unfolding parse_data_element
element_lem size t mem mem' offset in_range fits done = rw (in_range, fits) (rw done refl)

-- A data element that the assembler accepts, with room in the memory, is placed at the offset, and
-- a load of its width from there returns its low bytes, widened as the load says. The offset moves
-- behind the element.
pub parse_data_element-load :
    (l : InstrType) (t mem : List ℕ) (offset : ℕ)
    → 0 < load_width l
    → (strtol t).1 ≡ false
    → exceeds (load_width l) (strtol t).0 ≡ false
    → offset + load_width l ≤ length mem
    → (mem' : List ℕ) × (parse_data_element (load_width l) (t ∷ []) mem offset
        ≡ ok (mem', offset + load_width l))
      × (mem_read_req_handler mem' l offset
          ≡ ok (extend l (int64_bits (strtol t).0 % 256 ^ load_width l)))
parse_data_element-load l t mem offset pos in_range fits room =
    let w = load_width l in
    let src = le_bytes w (int64_bits (strtol t).0) in
    let len : length src ≡ w = length-le_bytes w (int64_bits (strtol t).0) in
    let inside : offset + length src ≤ length mem = omega arith in
    (
      memcpy mem offset src,
      element_lem w t mem (memcpy mem offset src) offset in_range fits
          (poke_lem mem offset src inside),
      read_lem (memcpy mem offset src) l offset pos
          ∙ rw (read_data-memcpy_self mem src offset w (sym len) inside)
              (ap (λ (v : ℕ). ok (extend l v)) (le_value-le_bytes w (int64_bits (strtol t).0))),
    )
