-- ===== src/Sched.antt =====
-- The scheduler, pkg/sched/scheduler.go, as a machine whose steps are those of its goroutines: the
-- one of each schedule, and those of the jobs that it dispatches. The channel `sem` is the number
-- of its slots that are taken.
pub mod Slots
mod Tests
use gkit_go.Prelude.{
  ℕ, zero, suc, ◌+◌, ◌-◌, Bool, true, false, Option, none, some, List, [], ◌∷◌, ◌++◌, length, ltb,
  if◌then◌else◌,
}

-- `schedule`
pub record Schedule (J : Type 0) : Type 0 where
  pub job : J
  pub interval : ℕ  -- 0 means run once
  pub delay : ℕ

-- `Scheduler`, before its start.
pub record Scheduler (J : Type 0) : Type 0 where
  pub workers : ℕ
  pub schedules : List (Schedule J)

-- The goroutines after the start: those that wait for a tick or a timer, those that wait for a slot,
-- and the jobs with theirs.
pub record Running (J : Type 0) : Type 0 where
  pub workers : ℕ
  pub cancelled : Bool
  pub slots : ℕ
  pub waiting : List (Schedule J)
  pub dispatching : List (Schedule J)
  pub jobs : List J
  pub ended : ℕ  -- goroutines of schedules that have returned

-- Each names by its index the goroutine that steps, any of those that stand before the step.
pub data Action : Type 0 where
  cancel : Action
  fire : ℕ → Action  -- a tick, or the end of a delay, of one that waits
  leave : ℕ → Action  -- one that waits sees the end of the context
  acquire : ℕ → Action  -- one that dispatches gets a slot
  give_up : ℕ → Action  -- or sees the end of the context
  finish : ℕ → Action  -- a job ends and releases its slot

-- The element at an index, with the others.
unfoldable pub pick : {A : Type 0} → ℕ → List A → Option (A × List A)
pick i [] = none
pick zero (x ∷ l) = some (x, l)
pick (suc i) (x ∷ l) = elim (pick i l) [ none ↦ none | some (y, rest) ↦ some (y, x ∷ rest) ]

module _ {J : Type 0} where
  -- `New`, `Every` and `After`
  unfoldable pub new : ℕ → Scheduler J
  new workers = record { workers = workers; schedules = [] }

  unfoldable pub every : ℕ → J → Scheduler J → Scheduler J
  every interval job s = record s {
    schedules = s.schedules ++ record { job = job; interval = interval; delay = 0 } ∷ [];
  }

  unfoldable pub after : ℕ → J → Scheduler J → Scheduler J
  after delay job s = record s {
    schedules = s.schedules ++ record { job = job; interval = 0; delay = delay } ∷ [];
  }

  -- The periodic schedules, which dispatch at once, and those that wait for their delay.
  unfoldable pub periodic : List (Schedule J) → List (Schedule J)
  periodic [] = []
  periodic (s ∷ schedules) =
      let rest = periodic schedules in if ltb 0 s.interval then s ∷ rest else rest

  unfoldable pub deferred : List (Schedule J) → List (Schedule J)
  deferred [] = []
  deferred (s ∷ schedules) =
      let rest = deferred schedules in if ltb 0 s.interval then rest else s ∷ rest

  -- `Start`
  unfoldable pub start : Scheduler J → Running J
  unfolding periodic deferred
  start s = record {
    workers = s.workers;
    cancelled = false;
    slots = 0;
    waiting = deferred s.schedules;
    dispatching = periodic s.schedules;
    jobs = [];
    ended = 0;
  }

  -- A goroutine that is done with a dispatch: `runPeriodic` waits for its next tick, `runOnce` returns.
  unfoldable pub dispatched : Schedule J → Running J → Running J
  dispatched s r =
      if ltb 0 s.interval
      then record r { waiting = r.waiting ++ s ∷ [] }
      else record r { ended = r.ended + 1 }

  -- The select of `runPeriodic` and `runOnce`, by the goroutine of `s`, where `waiting` are the others.
  unfoldable pub step_fire :
      Option (Schedule J × List (Schedule J)) → Running J → Option (Running J)
  step_fire none r = none
  step_fire (some (s, waiting)) r =
      some (record r { waiting = waiting; dispatching = r.dispatching ++ s ∷ [] })

  unfoldable pub step_leave :
      Option (Schedule J × List (Schedule J)) → Running J → Option (Running J)
  step_leave none r = none
  step_leave (some (s, waiting)) r =
      if r.cancelled then some (record r { waiting = waiting; ended = r.ended + 1 }) else none

  -- The select of `dispatch`, which starts the job with the slot or returns, by any goroutine there.
  unfoldable pub step_acquire :
      Option (Schedule J × List (Schedule J)) → Running J → Option (Running J)
  unfolding dispatched
  step_acquire none r = none
  step_acquire (some (s, dispatching)) r =
      if ltb r.slots r.workers
      then some (
          dispatched s (record r {
            slots = r.slots + 1;
            dispatching = dispatching;
            jobs = r.jobs ++ s.job ∷ [];
          }))
      else none

  unfoldable pub step_give_up :
      Option (Schedule J × List (Schedule J)) → Running J → Option (Running J)
  unfolding dispatched
  step_give_up none r = none
  step_give_up (some (s, dispatching)) r =
      if r.cancelled then some (dispatched s (record r { dispatching = dispatching })) else none

  -- The goroutine of a job, any of those that run, ends and releases its slot.
  unfoldable pub step_finish : Option (J × List J) → Running J → Option (Running J)
  step_finish none r = none
  step_finish (some (job, jobs)) r = some (record r { jobs = jobs; slots = r.slots - 1 })

  -- A step, or `none` where no goroutine stands before it.
  unfoldable pub step : Action → Running J → Option (Running J)
  unfolding pick step_fire step_leave step_acquire step_give_up step_finish
  step cancel r = some (record r { cancelled = true })
  step (fire i) r = step_fire (pick i r.waiting) r
  step (leave i) r = step_leave (pick i r.waiting) r
  step (acquire i) r = step_acquire (pick i r.dispatching) r
  step (give_up i) r = step_give_up (pick i r.dispatching) r
  step (finish i) r = step_finish (pick i r.jobs) r

  unfoldable pub run : List Action → Running J → Option (Running J)
  unfolding step
  run [] r = some r
  run (a ∷ actions) r = elim (step a r) [ none ↦ none | some r' ↦ run actions r' ]

  -- Whether the `wg.Wait()` of `Stop` returns.
  unfoldable pub stopped : Running J → Bool
  stopped r = elim r.waiting [
    | s ∷ waiting ↦ false
    | [] ↦ elim r.dispatching [
      | s ∷ dispatching ↦ false
      | [] ↦ elim r.jobs [ job ∷ jobs ↦ false | [] ↦ r.cancelled ]
    ]
  ]
