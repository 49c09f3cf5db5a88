-- ===== src/CircuitBreaker/Invariant.antt =====
-- What holds of a breaker between two critical sections, whatever the schedule
-- (pkg/circuitbreaker/breaker.go).
use gkit_go.Prelude.{ℕ, ◌≤◌, ◌<◌, max, ◌≡◌, refl, Bool, true, false, List, [], ◌∷◌, ◌++◌, arith}
use gkit_go.CircuitBreaker.{
  State, state_closed, state_open, state_half_open, Options, Breaker, new, Op, op_allow, op_record,
  op_state, op_reset, step, run, allow, current_state, record_result, reset,
  maybe_transition_from_open,
}

-- The arrows of the state diagram: all changes of state but closed to half-open.
abbrev pub is_edge : State → State → Bool
is_edge state_closed state_open = true
is_edge state_open state_half_open = true
is_edge state_open state_closed = true
is_edge state_half_open state_open = true
is_edge state_half_open state_closed = true
is_edge _ _ = false

-- The notifications form a path of the diagram from one state to another.
abbrev pub IsPathTo : State → List (State × State) → State → Type 0
IsPathTo s [] e = s ≡ e
IsPathTo s ((from, to) ∷ l) e = (s ≡ from) × (is_edge from to ≡ true) × IsPathTo to l e

IsPathTo-append :
    (s m e : State) (l : List (State × State))
    → IsPathTo s l m
    → is_edge m e ≡ true
    → IsPathTo s (l ++ (m, e) ∷ []) e
IsPathTo-append s m e [] h k = (h, k, refl)
IsPathTo-append s m e ((from, to) ∷ l) h k = (h.0, h.1, IsPathTo-append to m e l h.2 k)

pub record Inv (b : Breaker) : Type 0 where
  pub failures_capped : b.failures ≤ max 1 b.opts.failure_threshold
  pub closed_below : b.state ≡ state_closed → b.failures < max 1 b.opts.failure_threshold
  pub closed_idle : b.state ≡ state_closed → b.probes ≡ 0
  pub open_idle : b.state ≡ state_open → b.probes ≡ 0
  pub probing_below : b.state ≡ state_half_open → b.probes < max 1 b.opts.success_threshold
  pub notified : b.opts.on_state_change ≡ true → IsPathTo state_closed b.launched b.state
  pub silent : b.opts.on_state_change ≡ false → b.launched ≡ []

pub new-Inv : (opts : List (Options → Options)) → Inv (new opts)
unfolding new
new-Inv opts = ground arith

-- A change of state along an arrow extends the path of the notifications.
notified-transition :
    (b : Breaker) (to : State)
    → is_edge b.state to ≡ true
    → (b.opts.on_state_change ≡ true → IsPathTo state_closed b.launched b.state)
    → b.opts.on_state_change ≡ true
    → IsPathTo state_closed (b.launched ++ (b.state, to) ∷ []) to
notified-transition b to e h on = IsPathTo-append state_closed b.state to b.launched (h on) e

maybe-Inv : (now : ℕ) (b : Breaker) → Inv b → Inv (maybe_transition_from_open now b)
unfolding maybe_transition_from_open
maybe-Inv now b h = ground (arith, notified-transition b state_half_open)

record-Inv : (failed : Bool) (now : ℕ) (b : Breaker) → Inv b → Inv (record_result failed now b)
unfolding record_result
record-Inv failed now b h =
    ground (arith, notified-transition b state_open, notified-transition b state_closed)

reset-Inv : (b : Breaker) → Inv b → Inv (reset b)
unfolding reset
reset-Inv b h = ground (arith, notified-transition b state_closed)

pub step-Inv : (b : Breaker) (op : Op) → Inv b → Inv (step b op)
unfolding step allow current_state
step-Inv b (op_allow now) h = maybe-Inv now b h
step-Inv b (op_record failed now) h = record-Inv failed now b h
step-Inv b (op_state now) h = maybe-Inv now b h
step-Inv b op_reset h = reset-Inv b h

run-Inv : (b : Breaker) (ops : List Op) → Inv b → Inv (run b ops)
unfolding run
run-Inv b [] h = h
run-Inv b (op ∷ ops) h = run-Inv (step b op) ops (step-Inv b op h)

-- From a new breaker, with any options and under any schedule of critical sections, records of
-- calls that another state admitted included: the failures stay at most the threshold (or 1) and
-- below it while closed, the probes are below theirs while half-open and 0 otherwise, and the
-- notifications, if a callback is set, are a path of the state diagram from closed to the state.
pub breaker-Inv : (opts : List (Options → Options)) (ops : List Op) → Inv (run (new opts) ops)
breaker-Inv opts ops = run-Inv (new opts) ops (new-Inv opts)
