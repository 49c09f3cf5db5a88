-- ===== src/Lock/Keepalive.antt =====
-- The keepalive goroutine of a lock and the calls of `Release`, pkg/lock/lock.go, a step at a time.
use gkit_go.Prelude.{
  ℕ, ◌+◌, ◌-◌, ◌<◌, ◌≡◌, refl, Bool, true, false, ◌||◌, Option, none, some, List, [], ◌∷◌, ltb,
  if◌then◌else◌, arith,
}

-- The channels of a lock, its goroutine, and the calls of `Release` by where they stand. `late`
-- counts the renewals that began after a release script.
pub record Holder : Type 0 where
  pub stop_closed : Bool
  pub done_closed : Bool
  pub renewing : Bool
  pub checked : ℕ  -- has found `stop` open, and is to close it
  pub waiting : ℕ  -- for `done`
  pub releasing : ℕ  -- before the script
  pub released : ℕ
  pub renewals : ℕ
  pub late : ℕ
  pub panics : ℕ

-- The part of `TryAcquire` that makes the channels and starts the goroutine.
unfoldable pub new_holder : Holder
new_holder = record {
  stop_closed = false;
  done_closed = false;
  renewing = false;
  checked = 0;
  waiting = 0;
  releasing = 0;
  released = 0;
  renewals = 0;
  late = 0;
  panics = 0;
}

pub data Action : Type 0 where
  ticked : Action  -- the goroutine
  renewed : Action
  stopped : Action
  release_called : Action  -- Release
  stop_closing : Action
  wait_over : Action
  script_run : Action

-- The branches of the select of `keepalive`.
unfoldable pub renew : Holder → Option Holder
renew h =
    if h.done_closed || h.renewing
    then none
    else some (record h {
      renewing = true;
      renewals = h.renewals + 1;
      late = if ltb 0 h.released then h.late + 1 else h.late;
    })

unfoldable pub stop : Holder → Option Holder
stop h =
    if h.done_closed || h.renewing
    then none
    else (if h.stop_closed then some (record h { done_closed = true }) else none)

-- The select of `Release`.
unfoldable pub check_stop : Holder → Holder
check_stop h =
    if h.stop_closed
    then record h { waiting = h.waiting + 1 }
    else record h { checked = h.checked + 1 }

-- Its default branch: to close a closed channel panics.
unfoldable pub close_stop : Holder → Option Holder
close_stop h =
    if ltb 0 h.checked
    then (if h.stop_closed
        then some (record h { checked = h.checked - 1; panics = h.panics + 1 })
        else some
            (record h { checked = h.checked - 1; stop_closed = true; waiting = h.waiting + 1 }))
    else none

-- `<-l.done`
unfoldable pub await_done : Holder → Option Holder
await_done h =
    if ltb 0 h.waiting
    then (if h.done_closed
        then some (record h { waiting = h.waiting - 1; releasing = h.releasing + 1 })
        else none)
    else none

unfoldable pub step : Action → Holder → Option Holder
unfolding renew stop check_stop close_stop await_done
step ticked h = renew h
step renewed h = if h.renewing then some (record h { renewing = false }) else none
step stopped h = stop h
step release_called h = some (check_stop h)
step stop_closing h = close_stop h
step wait_over h = await_done h
step script_run h =
    if ltb 0 h.releasing
    then some (record h { releasing = h.releasing - 1; released = h.released + 1 })
    else none

-- A schedule of steps.
unfoldable pub run : List Action → Holder → Option Holder
unfolding step
run [] h = some h
run (a ∷ actions) h = elim (step a h) [ none ↦ none | some h' ↦ run actions h' ]

-- A release script comes only after the goroutine has returned.
record IsQuiet (h : Holder) : Type 0 where
  done_quiet : h.done_closed ≡ true → h.renewing ≡ false
  after_done : 0 < h.releasing + h.released → h.done_closed ≡ true
  never_late : h.late ≡ 0

step-IsQuiet : (a : Action) (h h' : Holder) → IsQuiet h → step a h ≡ some h' → IsQuiet h'
unfolding step renew stop check_stop close_stop await_done
step-IsQuiet ticked h h' i e = ground arith
step-IsQuiet renewed h h' i e = ground arith
step-IsQuiet stopped h h' i e = ground arith
step-IsQuiet release_called h h' i e = ground arith
step-IsQuiet stop_closing h h' i e = ground arith
step-IsQuiet wait_over h h' i e = ground arith
step-IsQuiet script_run h h' i e = ground arith

run-IsQuiet :
    (actions : List Action) (h h' : Holder) → IsQuiet h → run actions h ≡ some h' → IsQuiet h'
unfolding run
run-IsQuiet [] h h' i e = ground (arith, i, e)
run-IsQuiet (a ∷ actions) h h' i e = stepped (step a h) refl (λ k. run-IsQuiet actions k h')
  where
    stepped :
        (r : Option Holder)
        → step a h ≡ r
        → ((k : Holder) → IsQuiet k → run actions k ≡ some h' → IsQuiet h')
        → IsQuiet h'
    stepped none q next = absurd (ground (arith, q, e))
    stepped (some k) q next = next k (step-IsQuiet a h k i q) (ground (arith, q, e))

-- However the ticks of the keepalive and the calls of Release of a lock interleave: no renewal
-- begins after a release script, and none is under way once one has run.
pub keepalive-IsQuiet :
    (actions : List Action) (h : Holder)
    → run actions new_holder ≡ some h
    → 0 < h.released
    → (h.late ≡ 0) × ((h.renewing ≡ false) × (step ticked h ≡ none))
unfolding new_holder step renew
keepalive-IsQuiet actions h e l =
    let start : IsQuiet new_holder = record {
      done_quiet = λ d. refl;
      after_done = λ r. absurd (omega (arith, r));
      never_late = refl;
    } in
    let i = run-IsQuiet actions new_holder h start e in
    let d : h.done_closed ≡ true = i.after_done (omega (arith, l)) in
    (i.never_late, (i.done_quiet d, ground (arith, d)))
