-- ===== src/Async/Debounce.antt =====
-- `Debounce` of pkg/async/semaphore.go, a step at a time, on a clock `now` in units of the timer.
use gkit_go.Prelude.{
  ℕ, ◌+◌, Bool, true, false, Option, none, some, List, [], ◌∷◌, leb, ltb, if◌then◌else◌,
}

-- The trigger channel and the timer, which is set for `deadline` or has sent its time (`expired`).
-- `reset_at`, `signals`, `calls` and `early` are a record of what has happened: when the timer was
-- last set, how often, how often the function was called, and how often earlier than an interval
-- after the timer was set.
pub record Debouncer : Type 0 where
  pub interval : ℕ
  pub now : ℕ
  pub trigger : Bool
  pub deadline : Option ℕ
  pub expired : Bool
  pub reset_at : ℕ
  pub signals : ℕ
  pub calls : ℕ
  pub early : ℕ

unfoldable pub debounce : ℕ → Debouncer
debounce interval = record {
  interval = interval;
  now = 0;
  trigger = false;
  deadline = none;
  expired = false;
  reset_at = 0;
  signals = 0;
  calls = 0;
  early = 0;
}

pub data Action : Type 0 where
  call : Action  -- of the function that Debounce returns
  pass : ℕ → Action  -- time passes
  expire : Action  -- the timer sends
  reset : Action  -- the branch of the trigger
  fire : Action  -- the branch of the timer

-- The function that `Debounce` returns.
unfoldable pub signal : Debouncer → Debouncer
signal d = record d { trigger = true }

-- The timer sends when its time has come.
unfoldable pub expire_at : Option ℕ → Debouncer → Option Debouncer
expire_at none d = none
expire_at (some t) d =
    if leb t d.now then some (record d { deadline = none; expired = true }) else none

-- The branch of the trigger: the timer is stopped, or else drained, and set again.
unfoldable pub reset_timer : Debouncer → Option Debouncer
reset_timer d =
    if d.trigger
    then some (record d {
      trigger = false;
      expired = elim d.deadline [ some t ↦ d.expired | none ↦ false ];
      deadline = some (d.now + d.interval);
      reset_at = d.now;
      signals = d.signals + 1;
    })
    else none

-- The branch of the timer.
unfoldable pub call_fn : Debouncer → Option Debouncer
call_fn d =
    if d.expired
    then some (record d {
      expired = false;
      calls = d.calls + 1;
      early = if ltb d.now (d.reset_at + d.interval) then d.early + 1 else d.early;
    })
    else none

unfoldable pub step : Action → Debouncer → Option Debouncer
unfolding signal expire_at reset_timer call_fn
step call d = some (signal d)
step (pass n) d = some (record d { now = d.now + n })
step expire d = expire_at d.deadline d
step reset d = reset_timer d
step fire d = call_fn d

-- A schedule of steps.
unfoldable pub run : List Action → Debouncer → Option Debouncer
unfolding step
run [] d = some d
run (a ∷ actions) d = elim (step a d) [ none ↦ none | some d' ↦ run actions d' ]
