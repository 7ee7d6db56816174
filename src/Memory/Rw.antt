-- ===== src/Memory/Rw.antt =====
-- What a load returns after a store: at the same place, and at a place that the store does not
-- touch.
use aias_lab.Prelude.{
  ℕ, zero, suc, ◌+◌, ◌*◌, ◌/◌, ◌%◌, ◌^◌, ◌≤◌, ◌<◌, ◌≡◌, refl, ◌⊎◌, ◌∙◌, ap, sym, List, arith,
  length, le→leb,
}
use native.Mathlib.Nat.{mod-mod, pow-suc, mod-add-div, div-div-eq-div-mul}
use aias_lab.Prelude.Result.{ok, ◌>>=◌}
use aias_lab.Prelude.Word.{sext8, sext16}
use aias_lab.Instr.{InstrType, lb, lbu, lh, lhu, lw, sb, sh, sw}
use aias_lab.Memory.Bytes.{
  bytes_at, memcpy, read_data, write_data, length-memcpy, bytes_at-memcpy_self,
  bytes_at-memcpy_disjoint,
}
use aias_lab.Memory.Handlers.{le_value, le_bytes, mem_read_req_handler, mem_write_req_handler}

-- The bytes that a store writes, and how a load widens what it read: the ISA's view.
abbrev pub store_width : InstrType → ℕ
store_width sb = 1
store_width sh = 2
store_width sw = 4
store_width _ = 0

abbrev pub load_width : InstrType → ℕ
load_width lb = 1
load_width lbu = 1
load_width lh = 2
load_width lhu = 2
load_width lw = 4
load_width _ = 0

abbrev pub extend : InstrType → ℕ → ℕ
extend lb v = sext8 v
extend lh v = sext16 v
extend _ v = v

pub length-le_bytes : (n v : ℕ) → length (le_bytes n v) ≡ n
length-le_bytes zero v = refl
length-le_bytes (suc n) v = ap suc (length-le_bytes n (v / 256))

mod_mul : (p v : ℕ) → v % (256 * p) ≡ v % 256 + 256 * (v / 256 % p)
mod_mul p v = omega (
  arith,
  mod-add-div v (256 * p),
  mod-add-div (v / 256) p,
  ap (λ (t : ℕ). p * t) (div-div-eq-div-mul v 256 p),
)

pow_step : (n : ℕ) → 256 ^ suc n ≡ 256 * 256 ^ n
pow_step n = omega (arith, pow-suc 256 n)

-- Reading little-endian bytes back gives the value cut to their width.
pub le_value-le_bytes : (n v : ℕ) → le_value (le_bytes n v) ≡ v % 256 ^ n
le_value-le_bytes zero v = omega arith
le_value-le_bytes (suc n) v =
    omega (
      arith,
      le_value-le_bytes n (v / 256),
      mod_mul (256 ^ n) v,
      ap (λ (t : ℕ). v % t) (pow_step n),
    )

pub write_lem :
    (mem : List ℕ) (op : InstrType) (addr v : ℕ)
    → 0 < store_width op
    → mem_write_req_handler mem op addr v
      ≡ write_data mem (le_bytes (store_width op) (v % 256 ^ store_width op)) addr
unfolding mem_write_req_handler
write_lem mem sb addr v h = refl
write_lem mem sh addr v h = refl
write_lem mem sw addr v h = refl
write_lem mem _ addr v h = absurd (omega arith)

pub read_lem :
    (mem : List ℕ) (op : InstrType) (addr : ℕ)
    → 0 < load_width op
    → mem_read_req_handler mem op addr
      ≡ (read_data mem addr (load_width op) >>= λ bytes. ok (extend op (le_value bytes)))
unfolding mem_read_req_handler
read_lem mem lb addr h = refl
read_lem mem lbu addr h = refl
read_lem mem lh addr h = refl
read_lem mem lhu addr h = refl
read_lem mem lw addr h = refl
read_lem mem _ addr h = absurd (omega arith)

pub read_data-ok :
    (mem : List ℕ) (addr n : ℕ)
    → addr + n ≤ length mem
    → read_data mem addr n ≡ ok (bytes_at mem addr n)
unfolding read_data
read_data-ok mem addr n h = rw (le→leb _ _ h)

pub write_data-ok :
    (mem src : List ℕ) (addr : ℕ)
    → addr + length src ≤ length mem
    → write_data mem src addr ≡ ok (memcpy mem addr src)
unfolding write_data
write_data-ok mem src addr h = rw (le→leb _ _ h)

pub write_data-inv :
    (mem src : List ℕ) {mem' : List ℕ} (addr : ℕ)
    → write_data mem src addr ≡ ok mem'
    → mem' ≡ memcpy mem addr src
unfolding write_data
write_data-inv mem src addr h = ground arith

pub read_data-memcpy_self :
    (mem src : List ℕ) (addr n : ℕ)
    → n ≡ length src
    → addr + length src ≤ length mem
    → read_data (memcpy mem addr src) addr n ≡ ok src
read_data-memcpy_self mem src addr n e h = rw e (
    read_data-ok (memcpy mem addr src) addr (length src) (rw length-memcpy h)
    ∙ ap ok (bytes_at-memcpy_self mem addr src h))

read_data-memcpy_disjoint :
    (mem src : List ℕ) (addr j n : ℕ)
    → (j + n ≤ addr) ⊎ (addr + length src ≤ j)
    → read_data (memcpy mem addr src) j n ≡ read_data mem j n
unfolding read_data
read_data-memcpy_disjoint mem src addr j n h =
    rw (length-memcpy mem addr src, bytes_at-memcpy_disjoint mem addr src j n h)

-- A store of any width followed by a load of the same width at the same address, in range,
-- succeeds, and returns the stored value cut to that width and widened as the load says.
pub load-store :
    (mem : List ℕ) (s l : InstrType) (addr v : ℕ)
    → 0 < load_width l
    → store_width s ≡ load_width l
    → addr + load_width l ≤ length mem
    → (mem' : List ℕ) × (mem_write_req_handler mem s addr v ≡ ok mem')
      × (mem_read_req_handler mem' l addr ≡ ok (extend l (v % 256 ^ load_width l)))
load-store mem s l addr v pos same fits =
    let w = store_width s in
    let src = le_bytes w (v % 256 ^ w) in
    let len : length src ≡ w = length-le_bytes w (v % 256 ^ w) in
    let room : addr + length src ≤ length mem = omega arith in
    (
      memcpy mem addr src,
      write_lem mem s addr v (omega arith) ∙ write_data-ok mem src addr room,
      read_lem (memcpy mem addr src) l addr pos
          ∙ rw (read_data-memcpy_self mem src addr (load_width l) (omega arith) room) (
              ap (λ t. ok (extend l t))
                (le_value-le_bytes w (v % 256 ^ w)
                  ∙ mod-mod v (256 ^ w)
                  ∙ ap (λ (k : ℕ). v % 256 ^ k) same)),
    )

-- A store changes no load whose bytes it does not meet.
pub load-store_disjoint :
    (mem mem' : List ℕ) (s l : InstrType) (addr v j : ℕ)
    → (j + load_width l ≤ addr) ⊎ (addr + store_width s ≤ j)
    → 0 < store_width s
    → 0 < load_width l
    → mem_write_req_handler mem s addr v ≡ ok mem'
    → mem_read_req_handler mem' l j ≡ mem_read_req_handler mem l j
load-store_disjoint mem mem' s l addr v j apart ps pl done =
    let w = store_width s in
    let src = le_bytes w (v % 256 ^ w) in
    let len : length src ≡ w = length-le_bytes w (v % 256 ^ w) in
    let same = write_data-inv mem src addr (sym (write_lem mem s addr v ps) ∙ done) in
    rw same (
      read_lem (memcpy mem addr src) l j pl
      ∙ rw (read_data-memcpy_disjoint mem src addr j (load_width l) (omega arith))
          (sym (read_lem mem l j pl)))
