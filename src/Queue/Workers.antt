-- ===== src/Queue/Workers.antt =====
-- The workers of the job queue, pkg/queue/queue.go: `Register`, `Start`, `Stop` and `workerLoop`, a
-- step of a goroutine at a time. `Start` is called once.
use gkit_go.Prelude.{
  ℕ, zero, suc, ◌+◌, ◌-◌, Bool, true, false, ◌||◌, Option, none, some, List, [], ◌∷◌, ltb,
  if◌then◌else◌, replicate,
}

-- Where a worker stands.
pub data Worker : Type 0 where
  selecting : Worker
  working : Worker  -- in processBatch
  exited : Worker

-- `Queue`: the channels `stop` and `done`, the workers, and the calls of `Stop` by where they stand.
pub record Workers : Type 0 where
  pub workers : List Worker
  pub stop_closed : Bool
  pub context_done : Bool
  pub once : Bool
  pub done_closed : Bool
  pub stopping : ℕ
  pub stopped : ℕ
  pub batches : ℕ
  pub panics : ℕ

-- `Start`
unfoldable pub start : ℕ → Workers
start n = record {
  workers = replicate n selecting;
  stop_closed = false;
  context_done = false;
  once = false;
  done_closed = false;
  stopping = 0;
  stopped = 0;
  batches = 0;
  panics = 0;
}

pub data Action : Type 0 where
  ticked : ℕ → Action
  processed : ℕ → Action
  quit : ℕ → Action
  all_exited : Action
  stop_called : Action
  stop_returned : Action
  context_ended : Action

-- The worker at a place moves on from where it must stand; `none` where it does not.
unfoldable pub advance : ℕ → Worker → Worker → List Worker → Option (List Worker)
advance i from to [] = none
advance (suc i) from to (w ∷ ws) =
    let rest = advance i from to ws in elim rest [ none ↦ none | some ws' ↦ some (w ∷ ws') ]
advance zero selecting to (selecting ∷ ws) = some (to ∷ ws)
advance zero working to (working ∷ ws) = some (to ∷ ws)
advance zero from to (w ∷ ws) = none

unfoldable pub have_exited : List Worker → Bool
have_exited [] = true
have_exited (exited ∷ ws) = have_exited ws
have_exited (w ∷ ws) = false

-- The branch of the ticker: a batch begins.
unfoldable pub tick : ℕ → Workers → Option Workers
unfolding advance
tick i q = elim (advance i selecting working q.workers) [
  | none ↦ none
  | some ws ↦ some (record q { workers = ws; batches = q.batches + 1 })
]

-- The batch ends, with an error or without.
unfoldable pub process : ℕ → Workers → Option Workers
unfolding advance
process i q = elim (advance i working selecting q.workers) [
  | none ↦ none
  | some ws ↦ some (record q { workers = ws })
]

-- The branches of `stop` and of the context.
unfoldable pub leave : ℕ → Workers → Option Workers
unfolding advance
leave i q =
    if q.stop_closed || q.context_done
    then elim (advance i selecting exited q.workers) [
      | none ↦ none
      | some ws ↦ some (record q { workers = ws })
    ]
    else none

-- The goroutine that waits for the workers.
unfoldable pub close_done : Workers → Option Workers
unfolding have_exited
close_done q =
    if q.done_closed
    then none
    else (if have_exited q.workers then some (record q { done_closed = true }) else none)

-- `Stop` up to its wait; only the first call closes the channel.
unfoldable pub call_stop : Workers → Workers
call_stop q = if q.once then record q { stopping = q.stopping + 1 } else record q {
  once = true;
  stopping = q.stopping + 1;
  panics = if q.stop_closed then q.panics + 1 else q.panics;
  stop_closed = true;
}

-- `<-q.done`
unfoldable pub return_stop : Workers → Option Workers
return_stop q =
    if ltb 0 q.stopping
    then (if q.done_closed
        then some (record q { stopping = q.stopping - 1; stopped = q.stopped + 1 })
        else none)
    else none

unfoldable pub step : Action → Workers → Option Workers
unfolding tick process leave close_done call_stop return_stop
step (ticked i) q = tick i q
step (processed i) q = process i q
step (quit i) q = leave i q
step all_exited q = close_done q
step stop_called q = some (call_stop q)
step stop_returned q = return_stop q
step context_ended q = some (record q { context_done = true })

-- A schedule of steps.
unfoldable pub run : List Action → Workers → Option Workers
unfolding step
run [] q = some q
run (a ∷ actions) q = elim (step a q) [ none ↦ none | some q' ↦ run actions q' ]
