-- ===== src/Bytes/Splitting.antt =====
-- Splitting, joining and trimming texts.
use gkit_go.Prelude.{
  some, ℕ, ◌≡◌, ◌≢◌, refl, ap, ◌∙◌, Bool, true, false, List, [], ◌∷◌, ◌++◌, inl, inr, arith,
  Bool-cases, reverse-reverse, ◌==◌, All, reverse,
}
use gkit_go.Bytes.{after_prefix, Text, same, split, join, trim_left, trim}

-- A text without a byte.
abbrev pub Lacks : ℕ → Text → Type 0
Lacks b s = All (λ c. c ≢ b) s

split-Lacks : (sep : ℕ) (s : Text) → Lacks sep s → split sep s ≡ s ∷ []
unfolding split
split-Lacks sep [] h = refl
split-Lacks sep (c ∷ s) h = ground (arith, split-Lacks sep s h.1)

pub split-append : (sep : ℕ) (s t : Text) → Lacks sep s → split sep (s ++ sep ∷ t) ≡ s ∷ split sep t
unfolding split
split-append sep [] t h = ground arith
split-append sep (c ∷ s) t h = ground (arith, split-append sep s t h.1)

-- Parts without the separator are got back from their join.
pub split-join :
    (sep : ℕ) (part : Text) (parts : List Text)
    → All (Lacks sep) (part ∷ parts)
    → split sep (join sep (part ∷ parts)) ≡ part ∷ parts
unfolding join
split-join sep part [] h = split-Lacks sep part h.0
split-join sep part (next ∷ parts) h =
    split-append sep part (join sep (next ∷ parts)) h.0
    ∙ ap (◌∷◌ part) (split-join sep next parts h.1)

pub after-prefix : (prefix s : Text) → after_prefix prefix (prefix ++ s) ≡ some s
unfolding after_prefix
after-prefix [] s = refl
after-prefix (c ∷ prefix) s = ground (arith, after-prefix prefix s)

pub same_refl : (s : Text) → same s s ≡ true
unfolding same
same_refl [] = refl
same_refl (c ∷ s) = ground (arith, same_refl s)

pub same→eq : (s t : Text) → same s t ≡ true → s ≡ t
unfolding same
same→eq [] [] h = refl
same→eq [] (d ∷ t) h = cc
same→eq (c ∷ s) [] h = cc
same→eq (c ∷ s) (d ∷ t) h = elim (Bool-cases (c == d)) [
  | inl p ↦ let e : c ≡ d = ground (arith, p) in let r = same→eq s t (ground (arith, h, p)) in cc
  | inr p ↦ absurd (ground (arith, h, p))
]

-- The first byte of a text, if it has one, does not satisfy the test.
abbrev pub StartsBare : (ℕ → Bool) → Text → Type 0
StartsBare cutset [] = Unit
StartsBare cutset (c ∷ s) = cutset c ≡ false

pub trim_left-bare : (cutset : ℕ → Bool) (s : Text) → StartsBare cutset s → trim_left cutset s ≡ s
unfolding trim_left
trim_left-bare cutset [] h = refl
trim_left-bare cutset (c ∷ s) h = rw h refl

-- A text that neither begins nor ends with such a byte is not trimmed.
pub trim-bare :
    (cutset : ℕ → Bool) (s : Text)
    → StartsBare cutset s
    → StartsBare cutset (reverse s)
    → trim cutset s ≡ s
unfolding trim
trim-bare cutset s h g =
    rw (trim_left-bare cutset s h, trim_left-bare cutset (reverse s) g) (reverse-reverse s)
