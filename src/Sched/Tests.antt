-- ===== src/Sched/Tests.antt =====
-- The scheduler at a concrete input (pkg/sched/scheduler.go).
use gkit_go.Prelude.{◌≡◌, refl, ℕ, false, true, none, some, [], ◌∷◌}
use gkit_go.Sched.{
  Scheduler, Running, cancel, fire, leave, acquire, finish, new, every, after, pick, dispatched,
  step_fire, step_leave, step_acquire, step_finish, step, run,
}

-- A job every 30, and one after 5; jobs stand by numbers.
abbrev two_jobs : Scheduler ℕ
unfolding new every after
two_jobs = after 5 2 (every 30 1 (new 1))

-- The first job runs and the second waits for its slot.
abbrev one_runs : Running ℕ
one_runs = record {
  workers = 1;
  cancelled = false;
  slots = 1;
  waiting = record { job = 1; interval = 30; delay = 0 } ∷ [];
  dispatching = record { job = 2; interval = 0; delay = 5 } ∷ [];
  jobs = 1 ∷ [];
  ended = 0;
}

no_slot : run (acquire 0 ∷ []) one_runs ≡ none
unfolding run step pick step_fire step_leave step_acquire step_finish dispatched
no_slot = refl

drains :
    run (finish 0 ∷ acquire 0 ∷ cancel ∷ leave 0 ∷ finish 0 ∷ []) one_runs
    ≡ some (record {
      workers = 1;
      cancelled = true;
      slots = 0;
      waiting = [];
      dispatching = [];
      jobs = [];
      ended = 2;
    })
unfolding run step pick step_fire step_leave step_acquire step_finish dispatched
drains = refl

-- The second of two jobs ends before the first, and the goroutine that came last gets its slot.
abbrev two_jobs_run : Running ℕ
two_jobs_run = record one_runs { workers = 2; slots = 2; jobs = 1 ∷ 2 ∷ [] }

ends_first :
    run (finish 1 ∷ fire 0 ∷ acquire 1 ∷ []) two_jobs_run
    ≡ some (record two_jobs_run { jobs = 1 ∷ 1 ∷ [] })
unfolding run step pick step_fire step_acquire step_finish dispatched
ends_first = refl
