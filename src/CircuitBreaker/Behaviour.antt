-- ===== src/CircuitBreaker/Behaviour.antt =====
-- When a breaker trips, refuses, probes and recovers (pkg/circuitbreaker/breaker.go).
use gkit_go.Prelude.{ℕ, Bool, List, map}
use gkit_go.CircuitBreaker.{Op, op_record}

-- Calls that end one after another, all with an error or all without, at the given times.
abbrev pub outcomes : Bool → List ℕ → List Op
outcomes failed = map (op_record failed)
