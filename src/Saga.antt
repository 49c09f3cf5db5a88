-- ===== src/Saga.antt =====
-- The saga, pkg/saga/saga.go. Actions act on the world `W` and return an error or none; `none` as
-- the result of a function is an index out of range.
pub mod Rollback
pub mod Atomicity
mod Tests
use Prim.Native.String.{String}
use gkit_go.Prelude.{
  ℕ, ◌+◌, Bool, ltb, Option, none, some, List, [], ◌∷◌, ◌++◌, length, get_elem?, index_down, ◌>>=◌,
}

pub record Step (W E : Type 0) : Type 0 where
  pub name : String
  pub execute : W → Option E × W
  pub compensate : Option (W → Option E × W)

pub data Phase : Type 0 where
  phase_execute phase_compensate : Phase

pub record Saga (W E : Type 0) : Type 0 where
  pub name : String
  pub steps : List (Step W E)
  pub on_step : Option (String → Phase → Option E → W → W)

pub record CompensationError (E : Type 0) : Type 0 where
  pub step : String
  pub err : E

pub record Error (E : Type 0) : Type 0 where
  pub saga_name : String
  pub failed_step : String
  pub cause : E
  pub compensation_errors : List (CompensationError E)

unfoldable pub has_compensation_errors : {E : Type 0} → Error E → Bool
has_compensation_errors e = ltb 0 (length e.compensation_errors)

abbrev pub failure :
    {E : Type 0} → String → Option E → List (CompensationError E) → List (CompensationError E)
failure name none errs = errs
failure name (some err) errs = errs ++ record { step = name; err = err } ∷ []

module _ {W E : Type 0} where
  abbrev pub hook : Option (String → Phase → Option E → W → W) → String → Phase → Option E → W → W
  hook none name phase err w = w
  hook (some f) name phase err w = f name phase err w

  unfoldable pub notify : Saga W E → String → Phase → Option E → W → W
  notify s = hook s.on_step

  unfoldable pub compensate_with :
      Saga W E
      → String
      → Option (W → Option E × W)
      → List (CompensationError E)
      → W
      → List (CompensationError E) × W
  unfolding notify
  compensate_with s name none errs w = (errs, w)
  compensate_with s name (some undo) errs w =
      let (err, w') = undo w in (failure name err errs, notify s name phase_compensate err w')

  -- The body of the loop of `compensate`, at an index of a completed step.
  unfoldable pub compensate_step :
      Saga W E → ℕ → List (CompensationError E) × W → Option (List (CompensationError E) × W)
  unfolding compensate_with
  compensate_step s i (errs, w) = do
    step ← get_elem? s.steps i
    some (compensate_with s step.name step.compensate errs w)

  unfoldable pub compensate : Saga W E → List ℕ → W → Option (List (CompensationError E) × W)
  unfolding compensate_step
  compensate s completed w = index_down completed (compensate_step s) (length completed) ([], w)

  abbrev pub rolled_back :
      Saga W E → String → E → List (CompensationError E) × W → Option (Error E) × W
  rolled_back s name cause (errs, w) = (
    some (record {
      saga_name = s.name;
      failed_step = name;
      cause = cause;
      compensation_errors = errs;
    }),
    w,
  )

  -- The loop of `Run` from step `i` on.
  unfoldable pub run_from :
      Saga W E → ℕ → List (Step W E) → List ℕ → W → Option (Option (Error E) × W)
  unfolding compensate
  run_from s i [] completed w = some (none, w)
  run_from s i (step ∷ steps) completed w =
      let (err, w') = step.execute w in
      let w'' = notify s step.name phase_execute err w' in
      elim err [
        | some cause ↦ do out ← compensate s completed w''; some (rolled_back s step.name cause out)
        | none ↦ run_from s (i + 1) steps (completed ++ i ∷ []) w''
      ]

  unfoldable pub run : Saga W E → W → Option (Option (Error E) × W)
  unfolding run_from
  run s w = run_from s 0 s.steps [] w
