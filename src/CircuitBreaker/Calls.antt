-- ===== src/CircuitBreaker/Calls.antt =====
-- How often `Execute` runs a function that fails (pkg/circuitbreaker/breaker.go).
use gkit_go.Prelude.{
  ℕ, ◌+◌, ◌-◌, ◌≤◌, ◌<◌, min, max, ◌≡◌, refl, true, Option, some, List, [], ◌∷◌, arith, length, All,
}
use gkit_go.CircuitBreaker.{state_closed, state_open, Breaker, Error, execute, allow, record_result}

module _ {T W : Type 0} (zero : T) (fn : W → (T × Option Error) × W) (count : W → ℕ) where
  -- Calls of `Execute` one after another, each with the two times that it reads, and what they leave.
  unfoldable pub execute_all : List (ℕ × ℕ) → Breaker → W → Breaker × W
  execute_all [] b w = (b, w)
  execute_all ((start, finish) ∷ times) b w =
      let (b', out, w') = execute zero start finish fn b w in execute_all times b' w'

  -- The function returns an error, and is counted.
  abbrev pub AlwaysFails : Type 0
  AlwaysFails = (w : W) → (e : Error) × ((fn w).0.1 ≡ some e) × (count (fn w).1 ≡ count w + 1)

  -- A call that starts less than the timeout after `low` and ends at `low` or later.
  abbrev pub IsSoon : ℕ → ℕ → ℕ × ℕ → Type 0
  IsSoon low timeout (start, finish) = (start < low + timeout) × (low ≤ finish)

  open_refuses :
      (low : ℕ) (times : List (ℕ × ℕ)) (b : Breaker) (w : W)
      → b.state ≡ state_open
      → low ≤ b.opened_at
      → All (IsSoon low b.opts.open_timeout) times
      → execute_all times b w ≡ (b, w)
  unfolding execute_all execute allow
  open_refuses low [] b w s o h = refl
  open_refuses low ((start, finish) ∷ times) b w s o h =
      ground (arith, s, o, h.0, open_refuses low times b w s o h.1)

  -- Calls one after another, of a function that always fails, on a closed breaker whose failures are
  -- below the threshold (or 1), where all calls start less than the timeout after some time and end
  -- no earlier than it: the function runs as often as the failures are short of the threshold (or
  -- of 1), or as there are calls if they are fewer; the calls after these do not run it.
  pub failing-runs :
      (low : ℕ) (times : List (ℕ × ℕ)) (b : Breaker) (w : W)
      → AlwaysFails
      → b.state ≡ state_closed
      → b.failures < max 1 b.opts.failure_threshold
      → All (IsSoon low b.opts.open_timeout) times
      → count (execute_all times b w).1
        ≡ count w + min (length times) (max 1 b.opts.failure_threshold - b.failures)
  unfolding execute_all execute allow record_result
  failing-runs low [] b w fails s l h = ground arith
  failing-runs low ((start, finish) ∷ times) b w fails s l h =
      let (e, q, c) = fails w in
      ground (
        arith,
        s,
        l,
        q,
        c,
        h.0,
        failing-runs low times (record_result true finish b) (fn w).1 fails,
        open_refuses low times (record_result true finish b) (fn w).1,
        h.1,
      )
