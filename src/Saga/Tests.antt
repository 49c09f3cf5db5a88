-- ===== src/Saga/Tests.antt =====
-- Runs of the saga and its theorems at concrete inputs (pkg/saga/saga.go).
use Prim.Native.String.{String}
use gkit_go.Prelude.{
  ℕ, ◌+◌, ◌-◌, ◌≡◌, refl, Option, none, some, List, [], ◌∷◌, ◌++◌, index_down, arith,
}
use gkit_go.Saga.{Step, Saga, Error, run, compensate, notify}
use gkit_go.Saga.Rollback.{run_stack, run-run_stack}
use gkit_go.Saga.Atomicity.{Reverts, LeavesNothing, run-LeavesNothing}

-- A step that logs what it does, and one that fails.
abbrev logged : String → String → Step (List String) ℕ
logged name undo = record {
  name = name;
  execute = λ w. (none, w ++ name ∷ []);
  compensate = some (λ w. (some 9, w ++ undo ∷ []));
}

abbrev failing : Step (List String) ℕ
failing = record { name = "send"; execute = λ w. (some 4, w); compensate = none }

abbrev order : Saga (List String) ℕ
order = record {
  name = "place-order";
  steps = logged "reserve" "release" ∷ logged "charge" "refund" ∷ failing ∷ [];
  on_step = none;
}

rollback_runs :
    run order []
    ≡ some (
      some (record {
        saga_name = "place-order";
        failed_step = "send";
        cause = 4;
        compensation_errors =
            record { step = "charge"; err = 9 } ∷ record { step = "reserve"; err = 9 } ∷ [];
      }),
      "reserve" ∷ "charge" ∷ "refund" ∷ "release" ∷ [],
    )
unfolding run compensate index_down notify
rollback_runs = refl

run-run_stack_example : run order [] ≡ some (run_stack order order.steps [] [])
run-run_stack_example = run-run_stack order []

-- A counter that goes up by `n` and back down.
abbrev adding : ℕ → Step ℕ ℕ
adding n = record {
  name = "add";
  execute = λ w. (none, w + n);
  compensate = some (λ w. (none, w - n));
}

abbrev stopping : Step ℕ ℕ
stopping = record { name = "stop"; execute = λ w. (some 1, w); compensate = none }

abbrev counter : Saga ℕ ℕ
counter = record { name = "counter"; steps = adding 3 ∷ adding 4 ∷ stopping ∷ []; on_step = none }

adding-Reverts : (n : ℕ) → Reverts (adding n)
adding-Reverts n = record {
  fails_clean = λ w e p. cc;
  undone = λ w p. (λ w'. (none, w' - n), refl, ground arith);
}

stopping-Reverts : Reverts stopping
stopping-Reverts = record { fails_clean = λ w e p. refl; undone = λ w p. absurd (ground arith) }

run-LeavesNothing_example :
    (out : Option (Error ℕ) × ℕ) × (run counter 5 ≡ some out) × LeavesNothing 5 out
run-LeavesNothing_example =
    run-LeavesNothing counter refl 5 (adding-Reverts 3, (adding-Reverts 4, (stopping-Reverts, tt)))
