-- ===== src/Prelude/Ensures.antt =====
-- What holds of a result whenever the code succeeds, with one rule for each way to build code.
use mathlib.Core.Path.{◌≡◌, refl}
use mathlib.Core.Bool.{Bool, true, false}
use aias_lab.Prelude.Tests.{if◌then◌else◌}
use aias_lab.Prelude.Result.{Fault, Result, ok, err, ◌>>=◌, ok-injective}
use mathlib.Core.Path.{subst}

pub record Ensures {ℓ κ} {A : Type ℓ} (P : A → Type κ) (m : Result A) : Type (ℓ ⊔ κ) where
  pub at : (a : A) → m ≡ ok a → P a

module _ {ℓ κ} {A : Type ℓ} {P : A → Type κ} where
  pub Ensures-ok : (a : A) → P a → Ensures P (ok a)
  Ensures-ok a p = record { at = λ b e. subst P (ok-injective e) p }

  pub Ensures-err : (fault : Fault) → Ensures P (err fault)
  Ensures-err fault = record { at = λ b e. absurd (cc) }

  pub Ensures-if :
      (b : Bool) (m n : Result A)
      → (b ≡ true → Ensures P m)
      → (b ≡ false → Ensures P n)
      → Ensures P (if b then m else n)
  Ensures-if true m n km kn = km refl
  Ensures-if false m n km kn = kn refl

module _ {ℓ κ} {A B : Type ℓ} {P : B → Type κ} where
  pub Ensures-bind :
      {Q : A → Type κ} (m : Result A) (f : A → Result B)
      → Ensures Q m
      → ((a : A) → Q a → Ensures P (f a))
      → Ensures P (m >>= f)
  Ensures-bind (ok a) f q k = k a (q.at a refl)
  Ensures-bind (err e) f q k = Ensures-err e

  -- Nothing is asked of the first result but that it is one.
  pub Ensures-after :
      (m : Result A) (f : A → Result B)
      → ((a : A) → m ≡ ok a → Ensures P (f a))
      → Ensures P (m >>= f)
  Ensures-after (ok a) f k = k a refl
  Ensures-after (err e) f k = Ensures-err e
