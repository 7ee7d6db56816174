-- ===== src/Memory/Safety.antt =====
-- When the handlers succeed, what they keep of the memory, and what they load.
use aias_lab.Prelude.{
  ℕ, suc, ◌+◌, ◌^◌, ◌≤◌, ◌<◌, ◌≡◌, refl, ap, ◌∙◌, List, [], ◌∷◌, arith, length, All, All-replicate,
  length-replicate, zero, ◌/◌, ◌%◌,
}
use native.Mathlib.Nat.{pow-suc}
use aias_lab.Prelude.Result.{assertion, ok, err, bind-eq-ok, ok-injective}
use aias_lab.Prelude.Word.{IsWord}
use aias_lab.Instr.{InstrType, lb, lbu, lh, lhu, lw, sb, sh, sw}
use aias_lab.Memory.Bytes.{
  IsByte, alloc, bytes_at, memcpy, read_data, write_data, length-memcpy, memcpy-All, bytes_at-All,
}
use aias_lab.Memory.Handlers.{
  le_value, le_bytes, read_size, read_value, mem_read_req_handler, mem_write_req_handler,
}
use aias_lab.Memory.Rw.{
  store_width, load_width, extend, write_lem, read_lem, read_data-ok, write_data-ok, write_data-inv,
  length-le_bytes,
}

-- A memory of `size` bytes, each below 256.
pub record IsMemory (size : ℕ) (mem : List ℕ) : Type 0 where
  pub sized : length mem ≡ size
  pub bytes : All IsByte mem

pub le_bytes-All : (n v : ℕ) → All IsByte (le_bytes n v)
le_bytes-All zero v = tt
le_bytes-All (suc n) v = (omega arith, le_bytes-All n (v / 256))

length-bytes_at : (mem : List ℕ) (addr n : ℕ) → length (bytes_at mem addr n) ≡ n
length-bytes_at mem addr zero = refl
length-bytes_at mem addr (suc n) = ap suc (length-bytes_at mem (addr + 1) n)

le_value-lt : (bs : List ℕ) → All IsByte bs → le_value bs < 256 ^ length bs
le_value-lt [] h = omega arith
le_value-lt (b ∷ bs) h = omega (arith, pow-suc 256 (length bs), le_value-lt bs h.1, h.0)

write_data-IsMemory :
    {size : ℕ} (mem src : List ℕ) {mem' : List ℕ} (addr : ℕ)
    → IsMemory size mem
    → All IsByte src
    → write_data mem src addr ≡ ok mem'
    → IsMemory size mem'
write_data-IsMemory mem src addr m s h = rw (write_data-inv mem src addr h) (record {
  sized = length-memcpy mem addr src ∙ m.sized;
  bytes = memcpy-All mem addr src m.bytes s;
})

read_data-inv :
    (mem : List ℕ) (addr n : ℕ) {bs : List ℕ}
    → read_data mem addr n ≡ ok bs
    → (addr + n ≤ length mem) × (bs ≡ bytes_at mem addr n)
unfolding read_data
read_data-inv mem addr n h = ground arith

read_data-err :
    (mem : List ℕ) (addr n : ℕ) → length mem < addr + n → read_data mem addr n ≡ err assertion
unfolding read_data
read_data-err mem addr n h = ground arith

write_data-err :
    (mem src : List ℕ) (addr : ℕ)
    → length mem < addr + length src
    → write_data mem src addr ≡ err assertion
unfolding write_data
write_data-err mem src addr h = ground arith

-- The allocated memory has its size, and only zero bytes.
pub alloc-IsMemory : (size : ℕ) → IsMemory size (alloc size)
unfolding alloc
alloc-IsMemory size = record {
  sized = length-replicate size 0;
  bytes = All-replicate IsByte size 0 (omega arith);
}

-- The write handler keeps the size of the memory, and all of its elements bytes.
pub mem_write_req_handler-IsMemory :
    {size : ℕ} (mem : List ℕ) (op : InstrType) (addr v : ℕ) {mem' : List ℕ}
    → IsMemory size mem
    → mem_write_req_handler mem op addr v ≡ ok mem'
    → IsMemory size mem'
unfolding mem_write_req_handler
mem_write_req_handler-IsMemory mem sb addr v m h =
    write_data-IsMemory mem _ addr m (le_bytes-All 1 _) h
mem_write_req_handler-IsMemory mem sh addr v m h =
    write_data-IsMemory mem _ addr m (le_bytes-All 2 _) h
mem_write_req_handler-IsMemory mem sw addr v m h =
    write_data-IsMemory mem _ addr m (le_bytes-All 4 _) h
mem_write_req_handler-IsMemory mem _ addr v m h = rw (← ok-injective h) m

-- What is read as `op` from that many bytes is a word.
read_value-IsWord :
    (op : InstrType) (bs : List ℕ)
    → All IsByte bs
    → length bs ≡ read_size op
    → IsWord (read_value op bs)
unfolding read_value read_size
read_value-IsWord lb bs a e = ground (arith, le_value-lt bs a, ap (λ (t : ℕ). 256 ^ t) e)
read_value-IsWord lbu bs a e = omega (arith, le_value-lt bs a, ap (λ (t : ℕ). 256 ^ t) e)
read_value-IsWord lh bs a e = ground (arith, le_value-lt bs a, ap (λ (t : ℕ). 256 ^ t) e)
read_value-IsWord lhu bs a e = omega (arith, le_value-lt bs a, ap (λ (t : ℕ). 256 ^ t) e)
read_value-IsWord lw bs a e = omega (arith, le_value-lt bs a, ap (λ (t : ℕ). 256 ^ t) e)
read_value-IsWord _ bs a e = omega arith

-- Every load of well-formed memory returns a 32-bit word.
pub mem_read_req_handler-IsWord :
    {size : ℕ} (mem : List ℕ) (op : InstrType) (addr : ℕ) {v : ℕ}
    → IsMemory size mem
    → mem_read_req_handler mem op addr ≡ ok v
    → IsWord v
unfolding mem_read_req_handler
mem_read_req_handler-IsWord mem op addr m h =
    let (bs, got, value) = bind-eq-ok (read_data mem addr (read_size op)) _ h in
    let (room, same) = read_data-inv mem addr (read_size op) got in
    rw (← ok-injective value) (
      read_value-IsWord op bs (rw same (bytes_at-All mem addr (read_size op) m.bytes))
        (rw same (length-bytes_at mem addr (read_size op))))

-- A load succeeds exactly when all its bytes lie in the memory; otherwise the assertion of
-- `readData` fails.
pub mem_read_req_handler-in_range :
    (mem : List ℕ) (l : InstrType) (addr : ℕ)
    → 0 < load_width l
    → ((addr + load_width l ≤ length mem) → (v : ℕ) × (mem_read_req_handler mem l addr ≡ ok v))
      × (length mem < addr + load_width l → mem_read_req_handler mem l addr ≡ err assertion)
mem_read_req_handler-in_range mem l addr pos = (
  λ fits. (
    extend l (le_value (bytes_at mem addr (load_width l))),
    read_lem mem l addr pos ∙ rw (read_data-ok mem addr (load_width l) fits),
  ),
  λ out. read_lem mem l addr pos ∙ rw (read_data-err mem addr (load_width l) out),
)

-- A store succeeds exactly when all its bytes lie in the memory; otherwise the assertion of
-- `writeData` fails.
pub mem_write_req_handler-in_range :
    (mem : List ℕ) (s : InstrType) (addr v : ℕ)
    → 0 < store_width s
    → ((addr + store_width s ≤ length mem)
        → (mem' : List ℕ) × (mem_write_req_handler mem s addr v ≡ ok mem'))
      × (length mem < addr + store_width s → mem_write_req_handler mem s addr v ≡ err assertion)
mem_write_req_handler-in_range mem s addr v pos =
    let src = le_bytes (store_width s) (v % 256 ^ store_width s) in
    let len : length src ≡ store_width s = length-le_bytes _ _ in
    (
      λ fits. (
        memcpy mem addr src,
        write_lem mem s addr v pos ∙ write_data-ok mem src addr (omega arith),
      ),
      λ out. write_lem mem s addr v pos ∙ write_data-err mem src addr (omega arith),
    )
