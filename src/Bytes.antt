-- ===== src/Bytes.antt =====
-- Texts as the bytes of ASCII, and the functions of the package strings that the other modules' code
-- calls.
pub mod Splitting
mod Tests
use Prim.Native.String.{String}
use Prim.Native.Char.{code}
use gkit_go.Prelude.{
  ◌≡◌, refl, arith, ℕ, zero, suc, ◌+◌, ◌-◌, Bool, true, false, Option, none, some, List, [], ◌∷◌,
  ◌++◌, reverse, length, ltb, leb, ◌==◌, ◌&&◌, ◌||◌, if◌then◌else◌, ℕ_discrete, replicate,
}

abbrev pub Text : Type 0
Text = List ℕ

unfoldable pub text_discrete : Discrete Text
text_discrete [] [] = yes refl
text_discrete [] (d ∷ t) = no (λ e. cc)
text_discrete (c ∷ s) [] = no (λ e. cc)
text_discrete (c ∷ s) (d ∷ t) = elim (ℕ_discrete c d) [
  | no n ↦ no (λ e. n cc)
  | yes p ↦ elim (text_discrete s t) [ no n ↦ no (λ e. n cc) | yes q ↦ yes cc ]
]

abbrev pub codes : String → Text
codes String.[] = []
codes (String.◌∷◌ c s) = code c ∷ codes s

-- `==` of two texts.
unfoldable pub same : Text → Text → Bool
same [] [] = true
same [] (d ∷ t) = false
same (c ∷ s) [] = false
same (c ∷ s) (d ∷ t) = let rest = same s t in if c == d then rest else false

-- `strings.Contains` of a text of one byte.
unfoldable pub contains : ℕ → Text → Bool
contains b [] = false
contains b (c ∷ s) = let rest = contains b s in if c == b then true else rest

-- `strings.LastIndex` of a text of one byte; `none` is -1.
unfoldable pub last_index : ℕ → Text → Option ℕ
last_index b [] = none
last_index b (c ∷ s) = elim (last_index b s) [
  | some i ↦ some (suc i)
  | none ↦ if c == b then some 0 else none
]

-- `s[n:]`
unfoldable pub drop : ℕ → Text → Text
drop zero s = s
drop (suc n) [] = []
drop (suc n) (c ∷ s) = drop n s

-- `strings.CutPrefix`: what follows the prefix, where the text begins with it.
unfoldable pub after_prefix : Text → Text → Option Text
after_prefix [] s = some s
after_prefix (c ∷ prefix) [] = none
after_prefix (c ∷ prefix) (d ∷ s) =
    let rest = after_prefix prefix s in if c == d then rest else none

-- `strings.Cut` at a byte.
unfoldable pub cut : ℕ → Text → Option (Text × Text)
cut sep [] = none
cut sep (c ∷ s) =
    let rest = cut sep s in
    if c == sep
    then some ([], s)
    else elim rest [ none ↦ none | some (before, after) ↦ some (c ∷ before, after) ]

abbrev pub cons_first : ℕ → List Text → List Text
cons_first c [] = (c ∷ []) ∷ []
cons_first c (part ∷ parts) = (c ∷ part) ∷ parts

-- `strings.Split` at a byte.
unfoldable pub split : ℕ → Text → List Text
split sep [] = [] ∷ []
split sep (c ∷ s) = let rest = split sep s in if c == sep then [] ∷ rest else cons_first c rest

-- `strings.Join` by a byte.
unfoldable pub join : ℕ → List Text → Text
join sep [] = []
join sep (part ∷ []) = part
join sep (part ∷ next ∷ parts) = part ++ sep ∷ join sep (next ∷ parts)

-- The bytes without those in front that satisfy the test.
unfoldable pub trim_left : (ℕ → Bool) → Text → Text
trim_left cutset [] = []
trim_left cutset (c ∷ s) = let rest = trim_left cutset s in if cutset c then rest else c ∷ s

-- `strings.TrimFunc`
unfoldable pub trim : (ℕ → Bool) → Text → Text
unfolding trim_left
trim cutset s = reverse (trim_left cutset (reverse (trim_left cutset s)))

-- White space in ASCII.
unfoldable pub is_space : ℕ → Bool
is_space c = c == b' ' || leb 9 c && leb c 13

-- `strings.TrimSpace`
unfoldable pub trim_space : Text → Text
unfolding trim is_space
trim_space s = trim is_space s
