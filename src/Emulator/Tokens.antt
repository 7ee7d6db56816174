-- ===== src/Emulator/Tokens.antt =====
-- `strtok` of the C library: the next token, and the text behind its delimiter, which the library
-- keeps for the next call.
use aias_lab.Prelude.{
  ℕ, Bool, true, false, ◌||◌, Option, none, some, List, [], ◌∷◌, ◌==◌, if◌then◌else◌,
}

abbrev pub is_among : ℕ → List ℕ → Bool
is_among c [] = false
is_among c (d ∷ ds) = c == d || is_among c ds

abbrev pub skip : List ℕ → List ℕ → List ℕ
skip ds [] = []
skip ds (c ∷ s) = if is_among c ds then skip ds s else c ∷ s

abbrev pub cut : List ℕ → List ℕ → List ℕ × List ℕ
cut ds [] = ([], [])
cut ds (c ∷ s) = let (tok, rest) = cut ds s in if is_among c ds then ([], s) else (c ∷ tok, rest)

unfoldable pub strtok : List ℕ → List ℕ → Option (List ℕ × List ℕ)
strtok ds s = elim (skip ds s) [ [] ↦ none | c ∷ t ↦ some (cut ds (c ∷ t)) ]

-- The next token alone, and the text left for the next call.
abbrev pub token : Option (List ℕ × List ℕ) → Option (List ℕ)
token none = none
token (some (tok, rest)) = some tok

abbrev pub rest_of : Option (List ℕ × List ℕ) → List ℕ
rest_of none = []
rest_of (some (tok, rest)) = rest

-- Space, tab, carriage return, newline; with a comma between operands.
abbrev pub blanks : List ℕ
blanks = 32 ∷ 9 ∷ 13 ∷ 10 ∷ []

abbrev pub separators : List ℕ
separators = 32 ∷ 9 ∷ 13 ∷ 10 ∷ 44 ∷ []

-- All the tokens that calls with the same delimiters return.
abbrev prepend : ℕ → Bool → List (List ℕ) → List (List ℕ)
prepend c true (w ∷ ws) = (c ∷ w) ∷ ws
prepend c _ ws = (c ∷ []) ∷ ws

abbrev goes_on : List ℕ → List ℕ → Bool
goes_on ds [] = false
goes_on ds (c ∷ s) = if is_among c ds then false else true

unfoldable pub tokens : List ℕ → List ℕ → List (List ℕ)
tokens ds [] = []
tokens ds (c ∷ s) =
    let rest = tokens ds s in if is_among c ds then rest else prepend c (goes_on ds s) rest
