-- ===== src/Queue/Tests.antt =====
-- Runs of the job queue and its theorems at concrete inputs (pkg/queue/queue.go).
use Prim.Native.String.{String}
use gkit_go.Prelude.{
  ◌≤◌, ◌<◌, ℕ, ◌+◌, ◌^◌, ◌<◌, ◌≡◌, refl, Bool, true, false, ◌==◌, Option, none, some, List, [], ◌∷◌,
  All, arith,
}
use gkit_go.Queue.{pending, dead, Job, Row, enqueue, backoff, doubled, add_duration}
use gkit_go.Queue.Accounting.{IsAccounted}
use gkit_go.Queue.Cycles.{poll-IsAccounted}
use gkit_go.Queue.Polling.{due_jobs, poll}
use gkit_go.Queue.Selection.{IsUnique}
use gkit_go.Queue.Requests.{enqueue_request, with_max_attempts}
use gkit_go.Queue.Retries.{executions, executions-dead}
use gkit_go.Queue.Stopping.{stop-IsFinal}
use gkit_go.Queue.Workers
use gkit_go.Queue.Workers.{
  Worker, exited, Workers, start, Action, ticked, processed, quit, all_exited, stop_called,
  stop_returned, tick, process, have_exited,
}

abbrev refusing : ℕ → ℕ → Option ℕ × ℕ
refusing payload w = (some payload, w + 1)

abbrev accepting : ℕ → ℕ → Option ℕ × ℕ
accepting payload w = (none, w + payload)

abbrev all_refuse : String → Option (ℕ → ℕ → Option ℕ × ℕ)
all_refuse t = some refusing

abbrev all_accept : String → Option (ℕ → ℕ → Option ℕ × ℕ)
all_accept t = some accepting

abbrev mail : ℕ → Job ℕ
mail id = record { id = id; job_type = "send-email"; payload = 5; attempts = 0; max_attempts = 2 }

abbrev waiting : ℕ → Row ℕ ℕ
waiting id = record { job = mail id; status = pending; run_at = 0; last_error = none }

abbrev rows : List (Row ℕ ℕ)
rows = waiting 1 ∷ waiting 2 ∷ waiting 3 ∷ []

enqueued : enqueue 1 0 "send-email" 5 2 0 [] ≡ waiting 1 ∷ []
unfolding enqueue
enqueued = refl

-- From 30 attempts on, the delay is negative, and then 0.
backoff_negative : add_duration (10 ^ 20) (backoff 30) < 10 ^ 20
unfolding add_duration backoff doubled
backoff_negative = omega arith

backoff_zero : backoff 64 ≡ 0
unfolding backoff doubled
backoff_zero = refl

-- Of three jobs that are due, another transaction has locked the second.
abbrev second_locked : ℕ → Bool
second_locked id = id == 2

polled : due_jobs second_locked 5 rows ≡ mail 1 ∷ mail 3 ∷ []
unfolding due_jobs
polled = refl

poll-IsAccounted_example :
    All IsAccounted (poll all_accept (λ w. w) second_locked 5 (rows, 0)).0
    × IsUnique (poll all_accept (λ w. w) second_locked 5 (rows, 0)).0
poll-IsAccounted_example =
    poll-IsAccounted all_accept (λ w. w) second_locked 5 rows 0
      (
        ((λ p. ground (arith, p)), ((λ p. ground (arith, p)), tt)),
        (((λ p. ground (arith, p)), tt), (tt, tt)),
      )
      (ground arith)

executions-dead_example :
    ((k : ℕ)
      → k ≤ 1
      → ((executions all_refuse (λ w. w) k (waiting 1) 0).0.status ≡ pending)
        × ((executions all_refuse (λ w. w) k (waiting 1) 0).0.job.attempts
            ≡ (waiting 1).job.attempts + k))
    × ((k : ℕ)
        → 1 < k
        → ((executions all_refuse (λ w. w) k (waiting 1) 0).0.status ≡ dead)
          × ((executions all_refuse (λ w. w) k (waiting 1) 0).0.job.attempts
              ≡ (waiting 1).job.max_attempts))
executions-dead_example =
    executions-dead all_refuse (λ w. w) refusing (λ p w. (p, refl)) 1 (waiting 1) 0 refl refl refl

-- Two calls of Stop while one of two workers is in a batch.
abbrev stops : List Action
stops =
    ticked 0
    ∷ stop_called
    ∷ quit 1
    ∷ stop_called
    ∷ processed 0
    ∷ quit 0
    ∷ all_exited
    ∷ stop_returned
    ∷ []

abbrev stopped : Workers
stopped = record {
  workers = exited ∷ exited ∷ [];
  stop_closed = true;
  context_done = false;
  once = true;
  done_closed = true;
  stopping = 1;
  stopped = 1;
  batches = 1;
  panics = 0;
}

run-stops : Workers.run stops (start 2) ≡ some stopped
unfolding Workers.run start
run-stops = refl

stop-IsFinal_example :
    (stopped.panics ≡ 0)
    × ((have_exited stopped.workers ≡ true)
        × ((tick 1 stopped ≡ none) × (process 1 stopped ≡ none)))
stop-IsFinal_example = stop-IsFinal 2 1 stops stopped run-stops (omega arith)

-- The last of two options counts.
requested :
    enqueue_request {E = ℕ}
      (λ r. some r)
      1
      0
      "send-email"
      5
      (with_max_attempts 7 ∷ with_max_attempts 2 ∷ [])
      []
    ≡ some (waiting 1 ∷ [])
unfolding enqueue_request
requested = refl
