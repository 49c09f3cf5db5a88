-- ===== src/CircuitBreaker.antt =====
-- The circuit breaker, pkg/circuitbreaker/breaker.go. A method under the mutex is a function from
-- the breaker to the new breaker and its result; `time.Now` is an argument, in nanoseconds.
-- The goroutines that `transition` starts for the callback are recorded in `launched`, in order.
pub mod Invariant
pub mod Behaviour
pub mod Calls
mod Tests
use gkit_go.Prelude.{
  ℕ, ◌+◌, Bool, true, false, Option, none, some, List, [], ◌∷◌, ◌++◌, leb, is_some, if◌then◌else◌,
}

pub data State : Type 0 where
  state_closed state_open state_half_open : State

abbrev pub same_state : State → State → Bool
same_state state_closed state_closed = true
same_state state_open state_open = true
same_state state_half_open state_half_open = true
same_state _ _ = false

pub record Options : Type 0 where
  pub failure_threshold : ℕ
  pub success_threshold : ℕ
  pub open_timeout : ℕ
  pub on_state_change : Bool  -- whether a callback is registered

pub record Breaker : Type 0 where
  pub state : State
  pub failures : ℕ
  pub probes : ℕ
  pub opened_at : ℕ
  pub opts : Options
  pub launched : List (State × State)

pub data Error : Type 0 where
  err_open : Error
  fn_error : ℕ → Error  -- an error of the protected function

abbrev pub default_options : Options
default_options = record {
  failure_threshold = 5;
  success_threshold = 1;
  open_timeout = 60_000_000_000;
  on_state_change = false;
}

-- The options are applied to the defaults from left to right.
abbrev pub apply_options : List (Options → Options) → Options → Options
apply_options [] o = o
apply_options (opt ∷ opts) o = apply_options opts (opt o)

unfoldable pub new : List (Options → Options) → Breaker
new opts = record {
  state = state_closed;
  failures = 0;
  probes = 0;
  opened_at = 0;
  opts = apply_options opts default_options;
  launched = [];
}

unfoldable pub transition : State → Breaker → Breaker
transition to b = if same_state b.state to then b else record b {
  state = to;
  launched = if b.opts.on_state_change then b.launched ++ (b.state, to) ∷ [] else b.launched;
}

-- `time.Since(openedAt) >= openTimeout`, with the subtraction moved to the other side.
unfoldable pub maybe_transition_from_open : ℕ → Breaker → Breaker
unfolding transition
maybe_transition_from_open now b =
    if same_state b.state state_open
    then if leb (b.opened_at + b.opts.open_timeout) now then transition state_half_open b else b
    else b

abbrev admission : State → Option Error
admission state_closed = none
admission state_half_open = none
admission state_open = some err_open

unfoldable pub allow : ℕ → Breaker → Breaker × Option Error
unfolding maybe_transition_from_open
allow now b = let b' = maybe_transition_from_open now b in (b', admission b'.state)

-- The `switch` of `record`, by the state and by whether the call failed.
record_in : State → Bool → ℕ → Breaker → Breaker
unfolding transition
record_in state_closed true now b =
    let b' = record b { failures = b.failures + 1 } in
    if leb b.opts.failure_threshold b'.failures
    then transition state_open (record b' { opened_at = now })
    else b'
record_in state_closed false now b = record b { failures = 0 }
record_in state_half_open true now b =
    transition state_open (record b { failures = 0; probes = 0; opened_at = now })
record_in state_half_open false now b =
    let b' = record b { probes = b.probes + 1 } in
    if leb b.opts.success_threshold b'.probes
    then transition state_closed (record b' { failures = 0; probes = 0 })
    else b'
record_in state_open failed now b = b

-- `record(err)`, a name that the language reserves: `failed` is `err != nil`.
unfoldable pub record_result : Bool → ℕ → Breaker → Breaker
unfolding record_in
record_result failed now b = record_in b.state failed now b

-- `State()`
unfoldable pub current_state : ℕ → Breaker → Breaker × State
unfolding maybe_transition_from_open
current_state now b = let b' = maybe_transition_from_open now b in (b', b'.state)

unfoldable pub reset : Breaker → Breaker
unfolding transition
reset b = record (transition state_closed b) { failures = 0; probes = 0 }

-- `Execute`: the world `w` is what the protected function may change, `zero` is the zero value of
-- `T`, and the two readings of the clock are those of `allow` and `record`.
module _ {T W : Type 0} (zero : T) where
  execute_admitted :
      Option Error
      → ℕ
      → (W → (T × Option Error) × W)
      → Breaker
      → W
      → Breaker × (T × Option Error) × W
  execute_admitted (some e) finish fn b w = (b, (zero, some e), w)
  execute_admitted none finish fn b w =
      let (out, w') = fn w in (record_result (is_some out.1) finish b, out, w')

  unfoldable pub execute :
      ℕ → ℕ → (W → (T × Option Error) × W) → Breaker → W → Breaker × (T × Option Error) × W
  unfolding execute_admitted
  execute start finish fn b w =
      let (b', refused) = allow start b in execute_admitted refused finish fn b' w

-- One critical section of a breaker that goroutines share.
pub data Op : Type 0 where
  op_allow : ℕ → Op
  op_record : Bool → ℕ → Op
  op_state : ℕ → Op
  op_reset : Op

unfoldable pub step : Breaker → Op → Breaker
step b (op_allow now) = (allow now b).0
step b (op_record failed now) = record_result failed now b
step b (op_state now) = (current_state now b).0
step b op_reset = reset b

-- The mutex makes every schedule a sequence of critical sections.
unfoldable pub run : Breaker → List Op → Breaker
run b [] = b
run b (op ∷ ops) = run (step b op) ops
