-- ===== src/Async/Barrier.antt =====
-- The barrier of pkg/async/semaphore.go, a step of one of its channels at a time.
use gkit_go.Prelude.{
  ℕ, zero, suc, ◌+◌, ◌-◌, ◌≤◌, ◌<◌, ◌≡◌, refl, ◌∙◌, Bool, true, false, Option, none, some, List, [],
  ◌∷◌, ltb, ◌==◌, if◌then◌else◌, arith,
}

-- `Barrier` with its `countWg`, and its callers by where they stand.
pub record Barrier : Type 0 where
  pub size : ℕ
  pub arrived : ℕ  -- in the channel of the latch
  pub taken : ℕ  -- received by the goroutine that counts them
  pub opened : Bool  -- the channel `done`
  pub waiting : ℕ  -- in the select of Wait
  pub released : ℕ  -- returned nil
  pub cancelled : ℕ  -- returned the error of the context

-- `NewBarrier`
unfoldable pub new_barrier : ℕ → Barrier
new_barrier n = record {
  size = n;
  arrived = 0;
  taken = 0;
  opened = false;
  waiting = 0;
  released = 0;
  cancelled = 0;
}

pub data Action : Type 0 where
  arrive : Action
  take : Action
  unlock : Action
  release : Action
  cancel : Action

-- `arrive`, the first thing that Wait does; `none` where the send blocks.
unfoldable pub arrive_at : Barrier → Option Barrier
arrive_at b =
    if ltb b.arrived b.size
    then some (record b { arrived = b.arrived + 1; waiting = b.waiting + 1 })
    else none

-- One receive of `countWg.wait`.
unfoldable pub take_one : Barrier → Option Barrier
take_one b =
    if ltb b.taken b.size
    then (if ltb 0 b.arrived
        then some (record b { arrived = b.arrived - 1; taken = b.taken + 1 })
        else none)
    else none

-- `close(done)`, after `countWg.wait`.
unfoldable pub open_up : Barrier → Option Barrier
open_up b =
    if b.opened
    then none
    else (if b.taken == b.size then some (record b { opened = true }) else none)

-- The select of Wait: true where it takes the branch of `done`, false for that of the context.
unfoldable pub leave : Bool → Barrier → Option Barrier
leave true b =
    if ltb 0 b.waiting
    then (if b.opened
        then some (record b { waiting = b.waiting - 1; released = b.released + 1 })
        else none)
    else none
leave false b =
    if ltb 0 b.waiting
    then some (record b { waiting = b.waiting - 1; cancelled = b.cancelled + 1 })
    else none

unfoldable pub step : Action → Barrier → Option Barrier
unfolding arrive_at take_one open_up leave
step arrive b = arrive_at b
step take b = take_one b
step unlock b = open_up b
step release b = leave true b
step cancel b = leave false b

-- A schedule of steps.
unfoldable pub run : List Action → Barrier → Option Barrier
unfolding step
run [] b = some b
run (a ∷ actions) b = elim (step a b) [ none ↦ none | some b' ↦ run actions b' ]

-- How often Wait has been called.
abbrev pub calls : Barrier → ℕ
calls b = b.waiting + b.released + b.cancelled

-- Every call was counted or is in the channel; the barrier is open only once enough were counted.
record IsHeld (b : Barrier) : Type 0 where
  counted : b.arrived + b.taken ≡ calls b
  bound : b.arrived ≤ b.size
  limit : b.taken ≤ b.size
  enough : b.opened ≡ true → b.taken ≡ b.size
  past : 0 < b.released → b.opened ≡ true

step-IsHeld : (a : Action) (b b' : Barrier) → IsHeld b → step a b ≡ some b' → IsHeld b'
unfolding step arrive_at take_one open_up leave
step-IsHeld arrive b b' h e = ground arith
step-IsHeld take b b' h e = ground arith
step-IsHeld unlock b b' h e = ground arith
step-IsHeld release b b' h e = ground arith
step-IsHeld cancel b b' h e = ground arith

run-IsHeld :
    (actions : List Action) (b b' : Barrier) → IsHeld b → run actions b ≡ some b' → IsHeld b'
unfolding run
run-IsHeld [] b b' h e = ground (arith, h, e)
run-IsHeld (a ∷ actions) b b' h e = stepped (step a b) refl (λ c. run-IsHeld actions c b')
  where
    stepped :
        (r : Option Barrier)
        → step a b ≡ r
        → ((c : Barrier) → IsHeld c → run actions c ≡ some b' → IsHeld b')
        → IsHeld b'
    stepped none q next = absurd (ground (arith, q, e))
    stepped (some c) q next = next c (step-IsHeld a b c h q) (ground (arith, q, e))

run-size : (actions : List Action) (b b' : Barrier) → run actions b ≡ some b' → b'.size ≡ b.size
unfolding run step arrive_at take_one open_up leave
run-size [] b b' e = ground (arith, e)
run-size (a ∷ actions) b b' e = stepped (step a b) refl (λ c. run-size actions c b')
  where
    kept : (x : Action) (c : Barrier) → step x b ≡ some c → c.size ≡ b.size
    kept arrive c q = ground arith
    kept take c q = ground arith
    kept unlock c q = ground arith
    kept release c q = ground arith
    kept cancel c q = ground arith

    stepped :
        (r : Option Barrier)
        → step a b ≡ r
        → ((c : Barrier) → run actions c ≡ some b' → b'.size ≡ c.size)
        → b'.size ≡ b.size
    stepped none q next = absurd (ground (arith, q, e))
    stepped (some c) q next = next c (ground (arith, q, e)) ∙ kept a c q

-- The steps by which the goroutine of the barrier counts the rest and opens it.
abbrev pub opening : ℕ → List Action
opening zero = unlock ∷ []
opening (suc n) = take ∷ opening n

run-opening :
    (n : ℕ) (b : Barrier)
    → b.taken + n ≡ b.size
    → n ≤ b.arrived
    → b.opened ≡ false
    → (b' : Barrier) × ((run (opening n) b ≡ some b') × (b'.opened ≡ true))
unfolding run step take_one open_up
run-opening zero b e l o = (record b { opened = true }, (ground (arith, e, o), refl))
run-opening (suc n) b e l o =
    let c : Barrier = record b { arrived = b.arrived - 1; taken = b.taken + 1 } in
    let q : step take b ≡ some c = ground (arith, e, l) in
    let (b', (r, p)) = run-opening n c (omega (arith, e)) (omega (arith, l)) o in
    (b', (ground (arith, q, r), p))

new-IsHeld : (n : ℕ) → IsHeld (new_barrier n)
unfolding new_barrier
new-IsHeld n = record {
  counted = omega arith;
  bound = omega arith;
  limit = omega arith;
  enough = λ o. absurd (ground (arith, o));
  past = λ o. absurd (omega (arith, o));
}

-- Whatever the callers and the goroutine of a new barrier do, in whatever order, nobody is released
-- before Wait has been called as often as the barrier's size.
barrier-Holds :
    (n : ℕ) (actions : List Action) (b : Barrier)
    → run actions (new_barrier n) ≡ some b
    → 0 < b.released
    → n ≤ calls b
unfolding new_barrier
barrier-Holds n actions b e r =
    let h = run-IsHeld actions (new_barrier n) b (new-IsHeld n) e in
    let s : b.size ≡ n = run-size actions (new_barrier n) b e in
    let t = h.enough (h.past r) in let c = h.counted in omega (arith, t, c, s)

-- However a new barrier has come to its state, once Wait has been called as often as its size, the
-- goroutine that counts opens it by its own steps, unless it is open.
pub barrier-Opens :
    (n : ℕ) (actions : List Action) (b : Barrier)
    → run actions (new_barrier n) ≡ some b
    → n ≤ calls b
    → b.opened ≡ false
    → (b' : Barrier) × ((run (opening (n - b.taken)) b ≡ some b') × (b'.opened ≡ true))
unfolding new_barrier
barrier-Opens n actions b e l o =
    let h = run-IsHeld actions (new_barrier n) b (new-IsHeld n) e in
    let s : b.size ≡ n = run-size actions (new_barrier n) b e in
    run-opening (n - b.taken) b (let t = h.limit in omega (arith, t, s))
      (let c = h.counted in omega (arith, c, l)) o
