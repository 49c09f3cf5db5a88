-- ===== src/Pool/Tests.antt =====
-- Schedules of a pool and the theorem at a concrete input (pkg/pool/pool.go).
use gkit_go.Prelude.{ℕ, ◌≤◌, ◌≡◌, refl, true, false, some, List, [], ◌∷◌}
use gkit_go.Pool.{
  Pool, new, Action, check_stopped, send, count_submitted, receive, count_in_flight, end_flight,
  start, leave_run, count_completed, count_error, set_stopped, close_jobs, busy, step, take_job,
  run, stats,
}
use gkit_go.Pool.Counting.{starts, IsCounted, pool-IsCounted}

abbrev blank : Pool ℕ
blank = record {
  workers = 1;
  capacity = 2;
  stopped = false;
  closed = false;
  jobs = [];
  submitted = 0;
  completed = 0;
  errors = 0;
  in_flight = 0;
  sending = 0;
  sent = 0;
  idle = 0;
  spawned = 0;
  received = 0;
  running = 0;
  returned = 0;
  failing = 0;
  panics = 0;
}

blank-new : new 1 2 ≡ some blank
unfolding new
blank-new = refl

abbrev two_sent : List (Action ℕ)
two_sent =
    start
    ∷ check_stopped
    ∷ send 7
    ∷ check_stopped
    ∷ count_submitted
    ∷ receive
    ∷ send 8
    ∷ count_in_flight
    ∷ end_flight
    ∷ count_completed true
    ∷ []

abbrev after_two : Pool ℕ
after_two = record blank {
  jobs = 8 ∷ [];
  spawned = 1;
  submitted = 1;
  sent = 1;
  completed = 1;
  failing = 1;
}

two_sent_runs : run two_sent blank ≡ some after_two
unfolding run step take_job leave_run
two_sent_runs = refl

-- A submission that has passed its check when the pool stops sends on a closed channel.
late :
    run (check_stopped ∷ set_stopped ∷ close_jobs ∷ send 7 ∷ []) blank
    ≡ some (record blank { stopped = true; closed = true; panics = 1 })
unfolding run step take_job leave_run
late = refl

-- Loads of `Stats` that find the pool at moments apart: more errors than completed jobs.
abbrev failed_later : Pool ℕ
failed_later = record after_two { idle = 1; failing = 0; errors = 1 }

more_errors :
    stats blank blank failed_later failed_later failed_later
    ≡ record { submitted = 0; completed = 0; errors = 1; in_flight = 0; queue_depth = 1 }
unfolding stats
more_errors = refl

failed_later_runs : run (count_error ∷ []) after_two ≡ some failed_later
unfolding run step
failed_later_runs = refl

pool-IsCounted_example : IsCounted after_two × (busy after_two ≤ 1)
unfolding starts
pool-IsCounted_example = pool-IsCounted 1 2 two_sent blank after_two blank-new two_sent_runs
