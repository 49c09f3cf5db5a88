-- ===== src/CircuitBreaker/Tests.antt =====
-- Runs of the circuit breaker and the theorems at concrete inputs (pkg/circuitbreaker/breaker.go).
use gkit_go.Prelude.{ℕ, ◌+◌, ◌≡◌, refl, true, false, Option, some, List, [], ◌∷◌, arith}
use gkit_go.CircuitBreaker.{
  state_closed, state_open, state_half_open, Options, Breaker, Error, err_open, fn_error, new,
  op_allow, op_record, op_state, op_reset, run, step, allow, execute, record_result, current_state,
}
use gkit_go.CircuitBreaker.Invariant.{Inv, breaker-Inv}
use gkit_go.CircuitBreaker.Calls.{execute_all, failing-runs}
use gkit_go.CircuitBreaker.Behaviour.{outcomes}

-- Two failures trip it, two probes close it, after 100 ns.
abbrev options : List (Options → Options)
options =
    (λ o. record o { failure_threshold = 2 })
    ∷ (λ o. record o { success_threshold = 2 })
    ∷ (λ o. record o { open_timeout = 100 })
    ∷ (λ o. record o { on_state_change = true })
    ∷ []

abbrev tripped : Breaker
tripped = run (new options) (outcomes true (10 ∷ 20 ∷ []))

tripped_runs : tripped.state ≡ state_open
unfolding run step new record_result
tripped_runs = refl

recovery_notifies :
    (run tripped (op_state 130 ∷ op_record false 140 ∷ op_record false 150 ∷ [])).launched
    ≡ (state_closed, state_open)
      ∷ (state_open, state_half_open)
      ∷ (state_half_open, state_closed)
      ∷ []
unfolding run step new record_result current_state
recovery_notifies = refl

breaker-Inv_example : Inv (run (new options) (op_record true 5 ∷ op_reset ∷ op_allow 9 ∷ []))
breaker-Inv_example = breaker-Inv options (op_record true 5 ∷ op_reset ∷ op_allow 9 ∷ [])

-- A protected function that counts its runs and fails with its own error.
abbrev counting : ℕ → (ℕ × Option Error) × ℕ
counting n = ((0, some (fn_error 7)), n + 1)

refuses : execute 0 119 119 counting tripped 4 ≡ (tripped, (0, some err_open), 4)
unfolding execute allow run step new record_result
refuses = refl

-- Both of two calls that come in half-open state run: nothing limits them.
both_run : (run tripped (op_allow 130 ∷ op_allow 131 ∷ [])).state ≡ state_half_open
unfolding run step new record_result allow
both_run = refl

-- Of four calls two run, as the threshold says.
failing-runs_example :
    (execute_all 0 counting
      (λ n. n)
      ((10, 11) ∷ (12, 13) ∷ (14, 15) ∷ (16, 17) ∷ [])
      (new options)
      0).1
    ≡ 2
unfolding new
failing-runs_example =
    failing-runs 0 counting (λ n. n) 10 ((10, 11) ∷ (12, 13) ∷ (14, 15) ∷ (16, 17) ∷ [])
      (new options) 0 (λ w. (fn_error 7, refl, refl)) refl (omega arith)
      (
        (omega arith, omega arith),
        (
          (omega arith, omega arith),
          ((omega arith, omega arith), ((omega arith, omega arith), tt)),
        ),
      )
