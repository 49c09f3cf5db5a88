-- ===== src/Async/Quiet.antt =====
-- When a debounced function is called (pkg/async/semaphore.go).
use gkit_go.Prelude.{
  ℕ, ◌+◌, ◌≤◌, ◌≡◌, refl, subst, true, Option, none, some, List, [], ◌∷◌, if◌then◌else◌, arith,
}
use gkit_go.Async.Debounce.{
  Debouncer, debounce, Action, call, pass, expire, reset, fire, signal, expire_at, reset_timer,
  call_fn, step, run,
}

-- One for a timer that is set.
abbrev set : Option ℕ → ℕ
set none = 0
set (some t) = 1

-- A timer that is set ends its interval at its deadline; one that has sent has done so after its
-- interval, and is not set; there are no more calls than signals, even with the one to come.
record IsQuiet (d : Debouncer) : Type 0 where
  timed : (t : ℕ) → d.deadline ≡ some t → t ≡ d.reset_at + d.interval
  waited : d.expired ≡ true → d.reset_at + d.interval ≤ d.now
  single : d.expired ≡ true → d.deadline ≡ none
  past : d.reset_at ≤ d.now
  fewer : d.calls + set d.deadline + (if d.expired then 1 else 0) ≤ d.signals
  late : d.early ≡ 0

expire_at-IsQuiet :
    (r : Option ℕ) (d d' : Debouncer)
    → IsQuiet d
    → d.deadline ≡ r
    → expire_at r d ≡ some d'
    → IsQuiet d'
unfolding expire_at
expire_at-IsQuiet none d d' h q e = absurd (ground (arith, e))
expire_at-IsQuiet (some t) d d' h q e = ground (arith, h.timed t q)

reset_timer-IsQuiet :
    (r : Option ℕ) (d d' : Debouncer)
    → IsQuiet d
    → d.deadline ≡ r
    → reset_timer d ≡ some d'
    → IsQuiet d'
unfolding reset_timer
reset_timer-IsQuiet none d d' h q e = ground arith
reset_timer-IsQuiet (some t) d d' h q e = ground arith

step-IsQuiet : (a : Action) (d d' : Debouncer) → IsQuiet d → step a d ≡ some d' → IsQuiet d'
unfolding step signal call_fn
step-IsQuiet call d d' h e = ground arith
step-IsQuiet (pass n) d d' h e = ground arith
step-IsQuiet expire d d' h e = expire_at-IsQuiet d.deadline d d' h refl e
step-IsQuiet reset d d' h e = reset_timer-IsQuiet d.deadline d d' h refl e
step-IsQuiet fire d d' h e = ground arith

run-IsQuiet :
    (actions : List Action) (d d' : Debouncer) → IsQuiet d → run actions d ≡ some d' → IsQuiet d'
unfolding run
run-IsQuiet [] d d' h e = subst IsQuiet (ground (arith, e)) h
run-IsQuiet (a ∷ actions) d d' h e = stepped (step a d) refl (λ c. run-IsQuiet actions c d')
  where
    stepped :
        (r : Option Debouncer)
        → step a d ≡ r
        → ((c : Debouncer) → IsQuiet c → run actions c ≡ some d' → IsQuiet d')
        → IsQuiet d'
    stepped none q next = absurd (ground (arith, q, e))
    stepped (some c) q next = next c (step-IsQuiet a d c h q) (ground (arith, q, e))

-- However the callers, the goroutine and the timer of a debounced function interleave: the function
-- is called at most once for each signal that was received, and never earlier than an interval
-- after the last one received.
pub debounce-IsQuiet :
    (interval : ℕ) (actions : List Action) (d : Debouncer)
    → run actions (debounce interval) ≡ some d
    → (d.calls ≤ d.signals) × (d.early ≡ 0)
unfolding debounce
debounce-IsQuiet interval actions d e =
    let start : IsQuiet (debounce interval) = record {
      timed = λ t q. absurd (ground (arith, q));
      waited = λ q. absurd (ground (arith, q));
      single = λ q. refl;
      past = omega arith;
      fewer = omega arith;
      late = refl;
    } in
    let h = run-IsQuiet actions (debounce interval) d start e in
    (let f = h.fewer in omega (arith, f), h.late)
