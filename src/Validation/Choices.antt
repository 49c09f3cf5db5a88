-- ===== src/Validation/Choices.antt =====
-- The rule `oneof` (pkg/validation/validation.go).
use gkit_go.Prelude.{
  ◌≡◌, ◌↔◌, ◌⊎◌, refl, sym, ap, ◌++◌, ◌∷◌, List, [], none, true, arith, All, Any, inl, inr,
  Bool-cases,
}
use gkit_go.Bytes.{Text, codes, same, join, after_prefix}
use gkit_go.Bytes.Splitting.{Lacks, split-join, same_refl, same→eq}
use gkit_go.Validation.Rules.{
  Library, text, is_one_of, check_one_of, on_text, to_string, with_argument, apply_rule,
}

one_of-Any :
    (s : Text) (options : List Text) → is_one_of s options ≡ true → Any (λ o. o ≡ s) options
unfolding is_one_of
one_of-Any s [] h = cc
one_of-Any s (o ∷ options) h = elim (Bool-cases (same s o)) [
  | inl p ↦ inl (sym (same→eq s o p))
  | inr p ↦ inr (one_of-Any s options (ground (arith, p, h)))
]

Any-one_of :
    (s : Text) (options : List Text) → Any (λ o. o ≡ s) options → is_one_of s options ≡ true
unfolding is_one_of
Any-one_of s [] h = elim h [ ]
Any-one_of s (o ∷ options) (inl p) = let e = same_refl s in rw p (ground (arith, e))
Any-one_of s (o ∷ options) (inr h) = ground (arith, Any-one_of s options h)

-- The tag of a list of options.
abbrev pub one_of_rule : Text → List Text → Text
one_of_rule option options = codes "oneof=" ++ join b'|' (option ∷ options)

module _ {F : Type 0} (lib : Library F) where
  one_of_rule_lem :
      (s option : Text) (options : List Text)
      → All (Lacks b'|') (option ∷ options)
      → apply_rule lib (one_of_rule option options) (text s)
        ≡ on_text (λ t. check_one_of t (option ∷ options)) (text s)
  unfolding apply_rule with_argument same after_prefix
  one_of_rule_lem s option options h =
      ap (λ parts. on_text {F = F} (λ t. check_one_of t parts) (text s))
        (split-join b'|' option options h)

  -- A rule `oneof=` with options joined by bars, none of which has a bar itself, has no message for
  -- a text exactly when the text is empty or one of the options.
  one_of_iff :
      (s option : Text) (options : List Text)
      → All (Lacks b'|') (option ∷ options)
      → (apply_rule lib (one_of_rule option options) (text s) ≡ none)
        ↔ ((s ≡ []) ⊎ Any (λ o. o ≡ s) (option ∷ options))
  unfolding on_text to_string check_one_of same
  one_of_iff s option options h = rw (one_of_rule_lem s option options h) (there s, back s)
    where
      there :
          (s : Text)
          → on_text {F = F} (λ t. check_one_of t (option ∷ options)) (text s) ≡ none
          → (s ≡ []) ⊎ Any (λ o. o ≡ s) (option ∷ options)
      there [] q = inl refl
      there (c ∷ s) q = inr (one_of-Any (c ∷ s) (option ∷ options) (ground (arith, q)))

      back :
          (s : Text)
          → (s ≡ []) ⊎ Any (λ o. o ≡ s) (option ∷ options)
          → on_text {F = F} (λ t. check_one_of t (option ∷ options)) (text s) ≡ none
      back [] q = refl
      back (c ∷ s) (inl q) = cc
      back (c ∷ s) (inr q) = ground (arith, Any-one_of (c ∷ s) (option ∷ options) q)
