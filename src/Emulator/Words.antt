-- ===== src/Emulator/Words.antt =====
-- How the assembler splits a line: `strtok` on words with delimiters between them.
use aias_lab.Prelude.{ℕ, ◌≡◌, refl, ap, true, false, none, some, List, [], ◌∷◌, ◌++◌, All}
use aias_lab.Emulator.Tokens.{is_among, cut, strtok, separators}
use aias_lab.Emulator.Operands.{split_operands}

-- A text with no delimiter in it, and some character.
abbrev pub IsToken : List ℕ → List ℕ → Type 0
IsToken ds [] = ⊥
IsToken ds (c ∷ w) = All (λ (c : ℕ). is_among c ds ≡ false) (c ∷ w)

module _ (ds : List ℕ) where
  cut-append :
      (w : List ℕ) (d : ℕ) (s : List ℕ)
      → All (λ (c : ℕ). is_among c ds ≡ false) w
      → is_among d ds ≡ true
      → cut ds (w ++ d ∷ s) ≡ (w, s)
  cut-append [] d s a h = rw h refl
  cut-append (c ∷ w) d s a h = rw (a.0, cut-append w d s a.1 h) refl

  strtok-head :
      (c : ℕ) (s : List ℕ) {x : List ℕ × List ℕ}
      → is_among c ds ≡ false
      → cut ds (c ∷ s) ≡ x
      → strtok ds (c ∷ s) ≡ some x
  unfolding strtok
  strtok-head c s h e = rw (h, strtok) (ap some e)

  -- The first word, up to a delimiter, and what stands behind a delimiter.
  pub strtok-append :
      (w : List ℕ) (d : ℕ) (s : List ℕ)
      → IsToken ds w
      → is_among d ds ≡ true
      → strtok ds (w ++ d ∷ s) ≡ some (w, s)
  strtok-append [] d s a h = absurd a
  strtok-append (c ∷ w) d s a h = strtok-head c (w ++ d ∷ s) a.0 (cut-append (c ∷ w) d s a h)

  pub strtok-cons : (d : ℕ) (s : List ℕ) → is_among d ds ≡ true → strtok ds (d ∷ s) ≡ strtok ds s
  unfolding strtok
  strtok-cons d s h = rw (h, strtok) refl

blank : (s : List ℕ) → strtok separators (32 ∷ s) ≡ strtok separators s
blank s = strtok-cons separators 32 s refl

comma : (w s : List ℕ) → IsToken separators w → strtok separators (w ++ 44 ∷ s) ≡ some (w, s)
comma w s h = strtok-append separators w 44 s h refl

last_word : (w : List ℕ) → IsToken separators w → strtok separators (w ++ 10 ∷ []) ≡ some (w, [])
last_word w h = strtok-append separators w 10 [] h refl

-- No, two and three operands, the way the assembler prints them, with the line's end.
pub split_none : split_operands (10 ∷ []) ≡ record { o1 = none; o2 = none; o3 = none; o4 = none }
unfolding split_operands strtok
split_none = refl

pub split_two :
    (u v : List ℕ)
    → IsToken separators u
    → IsToken separators v
    → split_operands (u ++ 44 ∷ 32 ∷ (v ++ 10 ∷ []))
      ≡ record { o1 = some u; o2 = some v; o3 = none; o4 = none }
unfolding split_operands
split_two u v hu hv =
    rw (comma u (32 ∷ (v ++ 10 ∷ [])) hu, blank (v ++ 10 ∷ []), last_word v hv)
      (unfold strtok in refl)

pub split_three :
    (u v w : List ℕ)
    → IsToken separators u
    → IsToken separators v
    → IsToken separators w
    → split_operands (u ++ 44 ∷ 32 ∷ (v ++ 44 ∷ 32 ∷ (w ++ 10 ∷ [])))
      ≡ record { o1 = some u; o2 = some v; o3 = some w; o4 = none }
unfolding split_operands
split_three u v w hu hv hw =
    rw
      (
        comma u (32 ∷ (v ++ 44 ∷ 32 ∷ (w ++ 10 ∷ []))) hu,
        blank (v ++ 44 ∷ 32 ∷ (w ++ 10 ∷ [])),
        comma v (32 ∷ (w ++ 10 ∷ [])) hv,
        blank (w ++ 10 ∷ []),
        last_word w hw,
      )
      (unfold strtok in refl)
