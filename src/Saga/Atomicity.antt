-- ===== src/Saga/Atomicity.antt =====
-- A failed saga leaves no trace where its compensations undo its steps (pkg/saga/saga.go).
use Prim.Native.String.{String}
use gkit_go.Prelude.{◌≡◌, refl, ap, Option, none, some, List, [], ◌∷◌, All, inl, inr, Option-cases}
use gkit_go.Saga.{
  Step, hook, Phase, phase_execute, phase_compensate, Saga, Error, notify, run, rolled_back,
  compensate_with,
}
use gkit_go.Saga.Rollback.{unwind, run_stack, run-run_stack}

module _ {W E : Type 0} where
  -- A failed `execute` changes nothing, and `compensate` takes back a successful one.
  pub record Reverts (st : Step W E) : Type 0 where
    pub fails_clean : (w : W) (e : E) → (st.execute w).0 ≡ some e → (st.execute w).1 ≡ w
    pub undone :
        (w : W)
        → (st.execute w).0 ≡ none
        → (undo : W → Option E × W) × (st.compensate ≡ some undo)
          × (undo (st.execute w).1 ≡ (none, w))

  -- What a run that failed has left.
  abbrev pub LeavesNothing : W → Option (Error E) × W → Type 0
  LeavesNothing w (none, w') = Unit
  LeavesNothing w (some e, w') = (w' ≡ w) × (e.compensation_errors ≡ [])

module _ {W E : Type 0} (s : Saga W E) (quiet : s.on_step ≡ none) where
  notify_quiet :
      (name : String) (phase : Phase) (err : Option E) (w : W) → notify s name phase err w ≡ w
  unfolding notify
  notify_quiet name phase err w = ap (λ f. hook f name phase err w) quiet

  -- A step that succeeded is taken back by the rollback.
  unwind_undone :
      (done : List (Step W E)) (st : Step W E) (undo : W → Option E × W) (start w w' : W)
      → st.compensate ≡ some undo
      → undo w' ≡ (none, w)
      → unwind s done ([], w) ≡ ([], start)
      → unwind s (st ∷ done) ([], w') ≡ ([], start)
  unfolding unwind
  unwind_undone done st undo start w w' q r p =
      rw (q, compensate_with, r) (rw (notify_quiet st.name phase_compensate none w) p)

  rolled_back-LeavesNothing :
      (done : List (Step W E)) (st : Step W E) (e : E) (start w : W)
      → unwind s done ([], w) ≡ ([], start)
      → LeavesNothing start (rolled_back s st.name e (unwind s done ([], w)))
  rolled_back-LeavesNothing done st e start w p = rw p (refl, refl)

  run_stack-LeavesNothing :
      (steps done : List (Step W E)) (start w : W)
      → All Reverts steps
      → unwind s done ([], w) ≡ ([], start)
      → LeavesNothing start (run_stack s steps done w)
  unfolding run_stack
  run_stack-LeavesNothing [] done start w h p = tt
  run_stack-LeavesNothing (st ∷ steps) done start w h p = elim (Option-cases (st.execute w).0) [
    | inl fine ↦
        let (undo, q, r) = h.0.undone w fine in
        rw (fine, notify_quiet st.name phase_execute (st.execute w).0 (st.execute w).1)
          (run_stack-LeavesNothing steps (st ∷ done) start (st.execute w).1 h.1
            (unwind_undone done st undo start w (st.execute w).1 q r p))
    | inr (e, failed) ↦
        rw
          (
            failed,
            notify_quiet st.name phase_execute (st.execute w).0 (st.execute w).1,
            h.0.fails_clean w e failed,
          )
          (rolled_back-LeavesNothing done st e start w p)
  ]

  -- If no hook is set, every failed step changes nothing and every compensation takes back its
  -- step, then a run that fails leaves the world as it found it, with no compensation error.
  pub run-LeavesNothing :
      (w : W)
      → All Reverts s.steps
      → (out : Option (Error E) × W) × (run s w ≡ some out) × LeavesNothing w out
  run-LeavesNothing w h = (
    run_stack s s.steps [] w,
    run-run_stack s w,
    run_stack-LeavesNothing s.steps [] w w h (unfold unwind in refl),
  )
