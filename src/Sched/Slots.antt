-- ===== src/Sched/Slots.antt =====
-- How many jobs run at once, and where the schedules are (pkg/sched/scheduler.go).
use gkit_go.Prelude.{ℕ, ◌+◌, ◌≤◌, ◌≡◌, length}
use gkit_go.Sched.{Running}

module _ {J : Type 0} where
  -- A slot for each job, no more jobs than workers, and a place for each of `n` schedules.
  pub record IsBounded (n : ℕ) (r : Running J) : Type 0 where
    pub slots_taken : r.slots ≡ length r.jobs
    pub bounded : r.slots ≤ r.workers
    pub placed : length r.waiting + length r.dispatching + r.ended ≡ n
