-- ===== src/Cpu/Access.antt =====
-- Loads and stores of the data memory against the byte-addressed memory of the manual.
use aias_lab.Prelude.{
  ℕ, zero, suc, ◌+◌, ◌-◌, ◌*◌, ◌/◌, ◌%◌, ◌^◌, ◌≤◌, ◌<◌, ◌≡◌, refl, ap, ◌∙◌, ◌⊎◌, inl, inr, arith,
  List, ltb, leb, if◌then◌else◌, length, get_or, All, All-get_or, lt→ltb, le→leb,
}
use native.Mathlib.Decide.{dec_lt}
use aias_lab.Prelude.Result.{Result, ok}
use aias_lab.Instr.{lb, lbu, lh, lhu, lw, sb, sh, sw}
use aias_lab.Isa.{wrap, to_signed}
use aias_lab.Memory.Bytes.{IsByte, memcpy, get_or-memcpy_inside, get_or-memcpy_outside}
use aias_lab.Memory.Handlers.{le_bytes, mem_read_req_handler, mem_write_req_handler}
use aias_lab.Memory.Rw.{read_lem, read_data-ok, write_lem, write_data-ok}

module _ (mem : List ℕ) (bytes : All IsByte mem) (a : ℕ) where
  byte-lt : (j : ℕ) → get_or mem j 0 < 256
  byte-lt j = All-get_or IsByte mem j 0 bytes (omega arith)

  pub load_byte :
      a + 1 ≤ length mem
      → (mem_read_req_handler mem lb a ≡ ok (wrap (to_signed 8 (get_or mem a 0))))
        × (mem_read_req_handler mem lbu a ≡ ok (get_or mem a 0))
  load_byte h = (
    read_lem mem lb a (omega arith)
        ∙ rw (read_data-ok mem a 1 h) (ap ok (ground (arith, byte-lt a))),
    read_lem mem lbu a (omega arith) ∙ rw (read_data-ok mem a 1 h) (ap ok (omega arith)),
  )

  pub load_half :
      a + 2 ≤ length mem
      → (mem_read_req_handler mem lh a
          ≡ ok (wrap (to_signed 16 (get_or mem a 0 + 2 ^ 8 * get_or mem (a + 1) 0))))
        × (mem_read_req_handler mem lhu a ≡ ok (get_or mem a 0 + 2 ^ 8 * get_or mem (a + 1) 0))
  load_half h = (
    read_lem mem lh a (omega arith)
        ∙ rw (read_data-ok mem a 2 h) (ap ok (ground (arith, byte-lt a, byte-lt (a + 1)))),
    read_lem mem lhu a (omega arith) ∙ rw (read_data-ok mem a 2 h) (ap ok (omega arith)),
  )

  pub load_word :
      a + 4 ≤ length mem
      → mem_read_req_handler mem lw a
        ≡ ok (
            get_or mem a 0
            + 2 ^ 8 * get_or mem (a + 1) 0
            + 2 ^ 16 * get_or mem (a + 2) 0
            + 2 ^ 24 * get_or mem (a + 3) 0)
  load_word h = read_lem mem lw a (omega arith) ∙ rw (read_data-ok mem a 4 h) (ap ok (ground arith))

module _ (mem : List ℕ) (a : ℕ) where
  -- After a copy the bytes are those of the source inside its range, and the old ones outside.
  get_or-memcpy :
      (src : List ℕ) (w : ℕ → ℕ) (n : ℕ)
      → length src ≡ n
      → ((k : ℕ) → k < n → get_or src k 0 ≡ w k)
      → a + n ≤ length mem
      → (j : ℕ)
      → get_or (memcpy mem a src) j 0
        ≡ (if leb a j then if ltb j (a + n) then w (j - a) else get_or mem j 0 else get_or mem j 0)
  get_or-memcpy src w n len same room j = elim (position j) [
    | inl (inl low) ↦ get_or-memcpy_outside mem a src j (inl low) ∙ ground arith
    | inl (inr high) ↦ get_or-memcpy_outside mem a src j (inr (omega arith)) ∙ ground arith
    | inr (k, e, lt) ↦
        rw e
          (get_or-memcpy_inside mem a src k (omega arith) (omega arith) ∙ same k lt ∙ inside k lt)
  ]
    where
      position : (j : ℕ) → ((j < a) ⊎ (a + n ≤ j)) ⊎ ((k : ℕ) × (j ≡ a + k) × (k < n))
      position j = elim (dec_lt j a) [
        | yes p ↦ inl (inl p)
        | no p ↦ elim (dec_lt j (a + n)) [
          | yes q ↦ inr (j - a, omega arith, omega arith)
          | no q ↦ inl (inr (omega arith))
        ]
      ]

      inside :
          (k : ℕ)
          → k < n
          → w k ≡ (
              if leb a (a + k)
              then if ltb (a + k) (a + n) then w (a + k - a) else get_or mem (a + k) 0
              else get_or mem (a + k) 0)
      inside k lt =
          rw (le→leb a (a + k) (omega arith))
            (rw (lt→ltb (a + k) (a + n) (omega arith)) (ap w (omega arith)))

  byte_of_half : (v k : ℕ) → k < 2 → get_or (le_bytes 2 (v % 2 ^ 16)) k 0 ≡ v / 2 ^ (8 * k) % 2 ^ 8
  byte_of_half v zero h = omega arith
  byte_of_half v (suc zero) h = omega arith
  byte_of_half v (suc (suc k)) h = absurd (omega arith)

  byte_of_word : (v k : ℕ) → k < 4 → get_or (le_bytes 4 (v % 2 ^ 32)) k 0 ≡ v / 2 ^ (8 * k) % 2 ^ 8
  byte_of_word v zero h = omega arith
  byte_of_word v (suc zero) h = omega arith
  byte_of_word v (suc (suc zero)) h = omega arith
  byte_of_word v (suc (suc (suc zero))) h = omega arith
  byte_of_word v (suc (suc (suc (suc k)))) h = absurd (omega arith)

  byte_of_byte : (v k : ℕ) → k < 1 → get_or (le_bytes 1 (v % 2 ^ 8)) k 0 ≡ v / 2 ^ (8 * k) % 2 ^ 8
  byte_of_byte v zero h = omega arith
  byte_of_byte v (suc k) h = absurd (omega arith)

  -- A store of `n` bytes leaves the memory that the manual describes.
  abbrev pub IsStored : ℕ → ℕ → Result (List ℕ) → Type 0
  IsStored n v m =
      (mem' : List ℕ) × (m ≡ ok mem')
      × ((j : ℕ)
          → get_or mem' j 0 ≡ (
              if leb a j
              then if ltb j (a + n) then v / 2 ^ (8 * (j - a)) % 2 ^ 8 else get_or mem j 0
              else get_or mem j 0))

  pub store_byte : (v : ℕ) → a + 1 ≤ length mem → IsStored 1 v (mem_write_req_handler mem sb a v)
  store_byte v h = (
    memcpy mem a (le_bytes 1 (v % 2 ^ 8)),
    write_lem mem sb a v (omega arith) ∙ write_data-ok mem (le_bytes 1 (v % 2 ^ 8)) a h,
    get_or-memcpy (le_bytes 1 (v % 2 ^ 8)) (λ k. v / 2 ^ (8 * k) % 2 ^ 8) 1 refl (byte_of_byte v) h,
  )

  pub store_half : (v : ℕ) → a + 2 ≤ length mem → IsStored 2 v (mem_write_req_handler mem sh a v)
  store_half v h = (
    memcpy mem a (le_bytes 2 (v % 2 ^ 16)),
    write_lem mem sh a v (omega arith) ∙ write_data-ok mem (le_bytes 2 (v % 2 ^ 16)) a h,
    get_or-memcpy (le_bytes 2 (v % 2 ^ 16)) (λ k. v / 2 ^ (8 * k) % 2 ^ 8) 2 refl (byte_of_half v)
        h,
  )

  pub store_word : (v : ℕ) → a + 4 ≤ length mem → IsStored 4 v (mem_write_req_handler mem sw a v)
  store_word v h = (
    memcpy mem a (le_bytes 4 (v % 2 ^ 32)),
    write_lem mem sw a v (omega arith) ∙ write_data-ok mem (le_bytes 4 (v % 2 ^ 32)) a h,
    get_or-memcpy (le_bytes 4 (v % 2 ^ 32)) (λ k. v / 2 ^ (8 * k) % 2 ^ 8) 4 refl (byte_of_word v)
        h,
  )
