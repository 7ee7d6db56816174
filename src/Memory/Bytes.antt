-- ===== src/Memory/Bytes.antt =====
-- BaseMemory: allocation, `readData` and `writeData`, and what the copies do to each byte.
use aias_lab.Prelude.{
  ℕ, zero, suc, ◌+◌, ◌≤◌, ◌<◌, ◌≡◌, refl, ◌⊎◌, ◌∙◌, List, [], ◌∷◌, arith, leb, length, get_or, set,
  replicate, All, All-set, All-get_or, length-set, get_or-set_self, get_or-set_ne,
}
use mathlib.Core.Path.{ap₂}
use native.Mathlib.Nat.{add-zero}
use aias_lab.Prelude.Result.{assertion, Result, ok, guard, ◌>>◌}

-- The constructor: `calloc(size, 1)`.
unfoldable pub alloc : ℕ → List ℕ
alloc size = replicate size 0

abbrev pub get_size : List ℕ → ℕ
get_size mem = length mem

-- The `n` bytes that stand at `addr`.
abbrev pub bytes_at : List ℕ → ℕ → ℕ → List ℕ
bytes_at mem addr zero = []
bytes_at mem addr (suc n) = get_or mem addr 0 ∷ bytes_at mem (addr + 1) n

-- `memcpy(mem + addr, src, length src)`.
unfoldable pub memcpy : List ℕ → ℕ → List ℕ → List ℕ
memcpy mem addr [] = mem
memcpy mem addr (b ∷ bs) = memcpy (set mem addr b) (addr + 1) bs

-- `readData(addr, n)`: the bytes behind the returned pointer.
unfoldable pub read_data : List ℕ → ℕ → ℕ → Result (List ℕ)
read_data mem addr n = do guard (leb (addr + n) (get_size mem)) assertion; ok (bytes_at mem addr n)

-- `writeData(src, addr, length src)`.
unfoldable pub write_data : List ℕ → List ℕ → ℕ → Result (List ℕ)
write_data mem src addr = do
  guard (leb (addr + length src) (get_size mem)) assertion
  ok (memcpy mem addr src)

abbrev pub IsByte : ℕ → Type 0
IsByte b = b < 256

pub length-memcpy :
    (mem : List ℕ) (addr : ℕ) (src : List ℕ) → length (memcpy mem addr src) ≡ length mem
unfolding memcpy
length-memcpy mem addr [] = refl
length-memcpy mem addr (b ∷ bs) =
    length-memcpy (set mem addr b) (addr + 1) bs ∙ length-set mem addr b

pub memcpy-All :
    (mem : List ℕ) (addr : ℕ) (src : List ℕ)
    → All IsByte mem
    → All IsByte src
    → All IsByte (memcpy mem addr src)
unfolding memcpy
memcpy-All mem addr [] m s = m
memcpy-All mem addr (b ∷ bs) m s =
    memcpy-All (set mem addr b) (addr + 1) bs (All-set IsByte mem addr b m s.0) s.1

-- A byte outside the copied range stays.
pub get_or-memcpy_outside :
    (mem : List ℕ) (addr : ℕ) (src : List ℕ) (j : ℕ)
    → (j < addr) ⊎ (addr + length src ≤ j)
    → get_or (memcpy mem addr src) j 0 ≡ get_or mem j 0
unfolding memcpy
get_or-memcpy_outside mem addr [] j h = refl
get_or-memcpy_outside mem addr (b ∷ bs) j h =
    get_or-memcpy_outside (set mem addr b) (addr + 1) bs j (omega arith)
    ∙ get_or-set_ne mem addr j b 0 (omega arith)

-- A byte inside it is the source's.
pub get_or-memcpy_inside :
    (mem : List ℕ) (addr : ℕ) (src : List ℕ) (j : ℕ)
    → j < length src
    → addr + length src ≤ length mem
    → get_or (memcpy mem addr src) (addr + j) 0 ≡ get_or src j 0
unfolding memcpy
get_or-memcpy_inside mem addr [] j p q = absurd (omega arith)
get_or-memcpy_inside mem addr (b ∷ bs) zero p q = rw (add-zero addr) (
    get_or-memcpy_outside (set mem addr b) (addr + 1) bs addr (omega arith)
    ∙ get_or-set_self mem addr b 0 (omega arith))
get_or-memcpy_inside mem addr (b ∷ bs) (suc j) p q =
    let shift : addr + suc j ≡ addr + 1 + j = omega arith in
    rw shift (
      get_or-memcpy_inside (set mem addr b) (addr + 1) bs j (omega arith)
        (omega (arith, length-set mem addr b)))

-- What was copied is read back.
pub bytes_at-memcpy_self :
    (mem : List ℕ) (addr : ℕ) (src : List ℕ)
    → addr + length src ≤ length mem
    → bytes_at (memcpy mem addr src) addr (length src) ≡ src
unfolding memcpy
bytes_at-memcpy_self mem addr [] q = refl
bytes_at-memcpy_self mem addr (b ∷ bs) q =
    ap₂ ◌∷◌
      (get_or-memcpy_outside (set mem addr b) (addr + 1) bs addr (omega arith)
        ∙ get_or-set_self mem addr b 0 (omega arith))
      (bytes_at-memcpy_self (set mem addr b) (addr + 1) bs (omega (arith, length-set mem addr b)))

-- A range that the copy does not meet is read as before.
pub bytes_at-memcpy_disjoint :
    (mem : List ℕ) (addr : ℕ) (src : List ℕ) (j n : ℕ)
    → (j + n ≤ addr) ⊎ (addr + length src ≤ j)
    → bytes_at (memcpy mem addr src) j n ≡ bytes_at mem j n
bytes_at-memcpy_disjoint mem addr src j zero h = refl
bytes_at-memcpy_disjoint mem addr src j (suc n) h =
    ap₂ ◌∷◌ (get_or-memcpy_outside mem addr src j (omega arith))
      (bytes_at-memcpy_disjoint mem addr src (j + 1) n (omega arith))

pub bytes_at-All : (mem : List ℕ) (addr n : ℕ) → All IsByte mem → All IsByte (bytes_at mem addr n)
bytes_at-All mem addr zero m = tt
bytes_at-All mem addr (suc n) m =
    (All-get_or IsByte mem addr 0 m (omega arith), bytes_at-All mem (addr + 1) n m)
