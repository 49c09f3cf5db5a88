-- ===== src/Saga/Rollback.antt =====
-- The saga over indices is the saga over a stack of completed steps, and a rollback restores the
-- world (pkg/saga/saga.go).
use gkit_go.Prelude.{
  ℕ, suc, ◌+◌, ◌≡◌, refl, ◌∙◌, ap, Option, none, some, List, [], ◌∷◌, ◌++◌, arith, each_back,
  each_back-append, index_down-each_back, length, get_elem?,
}
use gkit_go.Saga.{
  Step, phase_execute, Saga, CompensationError, Error, notify, compensate_with, compensate_step,
  compensate, rolled_back, run_from, run,
}

module _ {W E : Type 0} where
  -- The indices of the completed steps, for the steps on the stack.
  abbrev indices : List (Step W E) → List ℕ
  indices [] = []
  indices (st ∷ done) = indices done ++ length done ∷ []

  -- The stack put back in front of the steps that are left.
  abbrev unstack : List (Step W E) → List (Step W E) → List (Step W E)
  unstack [] rest = rest
  unstack (st ∷ done) rest = unstack done (st ∷ rest)

  get_elem?-unstack :
      (done rest : List (Step W E)) (j : ℕ)
      → get_elem? (unstack done rest) (length done + j) ≡ get_elem? rest j
  get_elem?-unstack [] rest j = ap (get_elem? rest) (omega arith)
  get_elem?-unstack (st ∷ done) rest j =
      ap (get_elem? (unstack done (st ∷ rest))) (omega arith)
      ∙ get_elem?-unstack done (st ∷ rest) (suc j)

  top_of_stack :
      (done rest : List (Step W E)) (st : Step W E)
      → get_elem? (unstack done (st ∷ rest)) (length done) ≡ some st
  top_of_stack done rest st =
      ap (get_elem? (unstack done (st ∷ rest))) (omega arith) ∙ get_elem?-unstack done (st ∷ rest) 0

module _ {W E : Type 0} (s : Saga W E) where
  -- Each step's compensation in the order of the list; a failure does not stop the others.
  unfoldable pub unwind :
      List (Step W E) → List (CompensationError E) × W → List (CompensationError E) × W
  unfolding compensate_with
  unwind [] (errs, w) = (errs, w)
  unwind (st ∷ done) (errs, w) = unwind done (compensate_with s st.name st.compensate errs w)

  -- The steps in order, with the completed ones on a stack.
  unfoldable pub run_stack : List (Step W E) → List (Step W E) → W → Option (Error E) × W
  run_stack [] done w = (none, w)
  run_stack (st ∷ steps) done w =
      let (err, w') = st.execute w in
      let w'' = notify s st.name phase_execute err w' in
      elim err [
        | some cause ↦ rolled_back s st.name cause (unwind done ([], w''))
        | none ↦ run_stack steps (st ∷ done) w''
      ]

  each_back-unwind :
      (done rest : List (Step W E)) (x : List (CompensationError E) × W)
      → s.steps ≡ unstack done rest
      → each_back (compensate_step s) (indices done) x ≡ some (unwind done x)
  unfolding compensate_step unwind
  each_back-unwind [] rest x p = refl
  each_back-unwind (st ∷ done) rest (errs, w) p =
      each_back-append (compensate_step s) (indices done) (length done) (errs, w)
      ∙ rw (ap (λ (xs : List (Step W E)). get_elem? xs (length done)) p ∙ top_of_stack done rest st)
          (each_back-unwind done (st ∷ rest) (compensate_with s st.name st.compensate errs w) p)

  compensate-unwind :
      (done rest : List (Step W E)) (w : W)
      → s.steps ≡ unstack done rest
      → compensate s (indices done) w ≡ some (unwind done ([], w))
  unfolding compensate
  compensate-unwind done rest w p =
      index_down-each_back (indices done) (compensate_step s) ([], w)
      ∙ each_back-unwind done rest ([], w) p

  run_from-run_stack :
      (steps done : List (Step W E)) (w : W)
      → s.steps ≡ unstack done steps
      → run_from s (length done) steps (indices done) w ≡ some (run_stack steps done w)
  unfolding run_from run_stack
  run_from-run_stack [] done w p = refl
  run_from-run_stack (st ∷ steps) done w p =
      let (err, w') = st.execute w in
      let w'' = notify s st.name phase_execute err w' in
      ground (
        arith,
        compensate-unwind done (st ∷ steps) w'' p,
        run_from-run_stack steps (st ∷ done) w'' p,
      )

  -- A run never leaves its slices, and is the run over a stack: the steps in order until one fails,
  -- and then the compensations of the completed ones, the last first, whether or not some fail.
  pub run-run_stack : (w : W) → run s w ≡ some (run_stack s.steps [] w)
  unfolding run
  run-run_stack w = run_from-run_stack s.steps [] w refl
