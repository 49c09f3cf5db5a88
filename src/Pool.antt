-- ===== src/Pool.antt =====
-- The worker pool, pkg/pool/pool.go, as a machine whose steps are those of its goroutines: a send or
-- a receive of the channel, a load or a store of the flag, an update of a counter. Counters are
-- taken to stay in their range, and the queue to hold at least one job.
pub mod Counting
mod Tests
use gkit_go.Prelude.{
  ℕ, zero, suc, ◌+◌, ◌-◌, Bool, true, false, Option, none, some, List, [], ◌∷◌, ◌++◌, length, ltb,
  ◌==◌, if◌then◌else◌,
}

-- `Pool`, with the goroutines between two of their steps, by where they stand.
pub record Pool (T : Type 0) : Type 0 where
  pub workers : ℕ
  pub capacity : ℕ
  pub stopped : Bool
  pub closed : Bool  -- the channel
  pub jobs : List T
  pub submitted : ℕ
  pub completed : ℕ
  pub errors : ℕ
  pub in_flight : ℕ
  pub sending : ℕ  -- past the check of `stopped`, not yet sent
  pub sent : ℕ  -- sent, not yet counted
  pub idle : ℕ  -- workers before a receive
  pub spawned : ℕ  -- workers that Start has made
  pub received : ℕ  -- received, not yet counted in flight
  pub running : ℕ  -- in flight, in the worker function
  pub returned : ℕ  -- out of flight, not yet counted as completed
  pub failing : ℕ  -- completed with an error, not yet counted
  pub panics : ℕ  -- sends on a closed channel, and closes of one

-- `New`; `none` is its panic.
unfoldable pub new : {T : Type 0} → ℕ → ℕ → Option (Pool T)
new workers queue_size =
    if ltb workers 1
    then none
    else some (record {
      workers = workers;
      capacity = queue_size;
      stopped = false;
      closed = false;
      jobs = [];
      submitted = 0;
      completed = 0;
      errors = 0;
      in_flight = 0;
      sending = 0;
      sent = 0;
      idle = 0;
      spawned = 0;
      received = 0;
      running = 0;
      returned = 0;
      failing = 0;
      panics = 0;
    })

-- The steps of goroutines.
pub data Action (T : Type 0) : Type 0 where
  check_stopped : Action T  -- Submit and TrySubmit
  send : T → Action T
  give_up : Action T  -- a full queue or the end of a context
  count_submitted : Action T
  start : Action T  -- Start
  receive : Action T  -- run
  leave : Action T
  count_in_flight : Action T
  end_flight : Action T
  count_completed : Bool → Action T  -- true where the function has returned an error
  count_error : Action T
  set_stopped : Action T  -- Stop
  close_jobs : Action T

-- The workers that are not waiting for a job.
abbrev pub busy : {T : Type 0} → Pool T → ℕ
busy p = p.received + p.running + p.returned + p.failing

module _ {T : Type 0} where
  unfoldable pub take_job : List T → Pool T → Option (Pool T)
  take_job [] p = none
  take_job (job ∷ jobs) p =
      some (record p { jobs = jobs; idle = p.idle - 1; received = p.received + 1 })

  -- The end of the range over the channel, once it is closed and empty.
  unfoldable pub leave_run : List T → Pool T → Option (Pool T)
  leave_run [] p = if p.closed then some (record p { idle = p.idle - 1 }) else none
  leave_run (job ∷ jobs) p = none

  -- A step, or `none` where no goroutine stands before it.
  unfoldable pub step : Action T → Pool T → Option (Pool T)
  unfolding take_job leave_run
  step check_stopped p = if p.stopped then some p else some (record p { sending = p.sending + 1 })
  step (send job) p =
      if ltb 0 p.sending
      then (if p.closed
          then some (record p { sending = p.sending - 1; panics = p.panics + 1 })
          else (if ltb (length p.jobs) p.capacity
              then some (record p {
                jobs = p.jobs ++ job ∷ [];
                sending = p.sending - 1;
                sent = p.sent + 1;
              })
              else none))
      else none
  step give_up p = if ltb 0 p.sending then some (record p { sending = p.sending - 1 }) else none
  step count_submitted p =
      if ltb 0 p.sent
      then some (record p { sent = p.sent - 1; submitted = p.submitted + 1 })
      else none
  step start p = some (record p { idle = p.idle + p.workers; spawned = p.spawned + p.workers })
  step receive p = if ltb 0 p.idle then take_job p.jobs p else none
  step leave p = if ltb 0 p.idle then leave_run p.jobs p else none
  step count_in_flight p =
      if ltb 0 p.received
      then some (record p {
        received = p.received - 1;
        running = p.running + 1;
        in_flight = p.in_flight + 1;
      })
      else none
  step end_flight p =
      if ltb 0 p.running
      then some (record p {
        running = p.running - 1;
        returned = p.returned + 1;
        in_flight = p.in_flight - 1;
      })
      else none
  step (count_completed err) p =
      if ltb 0 p.returned
      then some (record p {
        returned = p.returned - 1;
        completed = p.completed + 1;
        failing = if err then p.failing + 1 else p.failing;
        idle = if err then p.idle else p.idle + 1;
      })
      else none
  step count_error p =
      if ltb 0 p.failing
      then some (record p { failing = p.failing - 1; errors = p.errors + 1; idle = p.idle + 1 })
      else none
  step set_stopped p = some (record p { stopped = true })
  step close_jobs p =
      if p.stopped
      then (if p.closed
          then some (record p { panics = p.panics + 1 })
          else some (record p { closed = true }))
      else none

  -- A schedule of steps.
  unfoldable pub run : List (Action T) → Pool T → Option (Pool T)
  unfolding step
  run [] p = some p
  run (a ∷ actions) p = elim (step a p) [ none ↦ none | some p' ↦ run actions p' ]

-- `Stats`
pub record Stats : Type 0 where
  pub submitted : ℕ
  pub completed : ℕ
  pub errors : ℕ
  pub in_flight : ℕ
  pub queue_depth : ℕ

-- `Stats()`, whose loads come one after another: the pools are those that they find, in their order.
unfoldable pub stats : {T : Type 0} → Pool T → Pool T → Pool T → Pool T → Pool T → Stats
stats p₁ p₂ p₃ p₄ p₅ = record {
  submitted = p₁.submitted;
  completed = p₂.completed;
  errors = p₃.errors;
  in_flight = p₄.in_flight;
  queue_depth = length p₅.jobs;
}
