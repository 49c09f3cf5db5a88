-- ===== src/Pipeline/Composition.antt =====
-- The laws of chains and compositions (pkg/pipeline/pipeline.go).
use gkit_go.Prelude.{◌≡◌, refl, Option, none, List, [], ◌∷◌, ◌++◌, inl, inr, arith, Option-cases}
use gkit_go.Pipeline.{Result, value, error, Stage, chain, compose, compose3}

module _ {W E A : Type 0} (ctx_err : W → Option E) where
  -- A chain of two lists of stages is the composition of their chains: the same result and the same
  -- effects, whatever the stages return and whenever the context ends.
  chain-append :
      (xs ys : List (Stage W E A A)) (a : A) (w : W)
      → chain ctx_err (xs ++ ys) a w ≡ compose (chain ctx_err xs) (chain ctx_err ys) a w
  unfolding chain compose
  chain-append [] ys a w = refl
  chain-append (stage ∷ xs) ys a w = elim (Option-cases (ctx_err w)) [
    | inr (e, p) ↦ ground (arith, p)
    | inl p ↦ ran p (stage a w) refl (λ b w'. chain-append xs ys b w')
  ]
    where
      ran :
          ctx_err w ≡ none
          → (r : Result A E × W) → stage a w ≡ r
          → ((b : A) (w' : W)
              → chain ctx_err (xs ++ ys) b w' ≡ compose (chain ctx_err xs) (chain ctx_err ys) b w')
          → chain ctx_err (stage ∷ xs ++ ys) a w
            ≡ compose (chain ctx_err (stage ∷ xs)) (chain ctx_err ys) a w
      ran p (value b, w') q rest = ground (arith, p, q, rest b w')
      ran p (error e, w') q rest = ground (arith, p, q)

module _ {W E A B C D : Type 0} (f1 : Stage W E A B) (f2 : Stage W E B C) (f3 : Stage W E C D) where
  -- To compose three functions, it makes no difference which two are composed first.
  pub compose3_assoc : (a : A) (w : W) → compose3 f1 f2 f3 a w ≡ compose f1 (compose f2 f3) a w
  unfolding compose3 compose
  compose3_assoc a w = ran (f1 a w) refl
    where
      ran :
          (r : Result B E × W) → f1 a w ≡ r → compose3 f1 f2 f3 a w ≡ compose f1 (compose f2 f3) a w
      ran (value b, w') q = ground (arith, q)
      ran (error e, w') q = ground (arith, q)
