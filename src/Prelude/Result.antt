-- ===== src/Prelude/Result.antt =====
-- Results of code that may stop the program or leave the defined behaviour of C++.
use Prim.Native.Nat.{ℕ}
use mathlib.Core.Path.{◌≡◌, refl}
use mathlib.Core.Bool.{Bool}
use aias_lab.Prelude.Tests.{if◌then◌else◌}
use mathlib.Core.Option.{Option, none, some}

-- `undefined` is undefined behaviour (an index out of an array, a null pointer, a shift by the
-- width or more), `assertion` a failed ASSERT_MSG, `exit n` a call of exit(n).
pub data Fault : Type 0 where
  undefined assertion : Fault
  exit : ℕ → Fault

pub data Result {ℓ} (A : Type ℓ) : Type ℓ where
  err : Fault → Result A
  ok : A → Result A

abbrev pub from_option {ℓ} : {A : Type ℓ} → Fault → Option A → Result A
from_option fault none = err fault
from_option fault (some a) = ok a

infixl 5 ◌>>=◌ ◌>>◌
abbrev pub ◌>>=◌ {ℓ κ} : {A : Type ℓ} {B : Type κ} → Result A → (A → Result B) → Result B
err fault >>= next = err fault
ok a >>= next = next a

abbrev pub guard : Bool → Fault → Result (Unit {0})
guard holds fault = if holds then ok tt else err fault

abbrev pub ◌>>◌ {ℓ} : {B : Type ℓ} → Result (Unit {0}) → Result B → Result B
m >> rest = m >>= λ _. rest

-- Both parts of a bind that succeeds succeeded.
pub bind-eq-ok {ℓ κ} :
    {A : Type ℓ} {B : Type κ} (m : Result A) (next : A → Result B) {b : B}
    → (m >>= next) ≡ ok b
    → (a : A) × (m ≡ ok a) × (next a ≡ ok b)
bind-eq-ok (err fault) next h = cc
bind-eq-ok (ok a) next h = (a, refl, h)

pub ok-injective {ℓ} : {A : Type ℓ} {a b : A} → ok a ≡ ok b → a ≡ b
ok-injective h = cc
