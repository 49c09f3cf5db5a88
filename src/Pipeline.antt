-- ===== src/Pipeline.antt =====
-- Stages and their composition, pkg/pipeline/pipeline.go. A stage acts on the world `W`, which
-- also holds the state of the context.
pub mod Composition
pub mod Process
mod Tests
use gkit_go.Prelude.{Option, none, some, List, [], ◌∷◌}

-- What a stage returns: a value or an error.
pub data Result (A E : Type 0) : Type 0 where
  value : A → Result A E
  error : E → Result A E

-- `MapFunc`, and `StageFunc` where the two types are the same.
abbrev pub Stage : Type 0 → Type 0 → Type 0 → Type 0 → Type 0
Stage W E A B = A → W → Result B E × W

module _ {W E : Type 0} where
  -- `Chain`
  unfoldable pub chain : {A : Type 0} → (W → Option E) → List (Stage W E A A) → Stage W E A A
  chain ctx_err [] a w = (value a, w)
  chain ctx_err (stage ∷ stages) a w = elim (ctx_err w) [
    | some e ↦ (error e, w)
    | none ↦
        let (r, w') = stage a w in
        elim r [ error e ↦ (error e, w') | value b ↦ chain ctx_err stages b w' ]
  ]

  -- `Compose`
  unfoldable pub compose : {A B C : Type 0} → Stage W E A B → Stage W E B C → Stage W E A C
  compose first second a w =
      let (r, w') = first a w in elim r [ error e ↦ (error e, w') | value b ↦ second b w' ]

  -- `Compose3`
  unfoldable pub compose3 :
      {A B C D : Type 0} → Stage W E A B → Stage W E B C → Stage W E C D → Stage W E A D
  unfolding compose
  compose3 f1 f2 f3 = compose (compose f1 f2) f3
