-- ===== src/Pool/Counting.antt =====
-- What the counters of a pool say, at every moment (pkg/pool/pool.go).
use gkit_go.Prelude.{
  ℕ, suc, ◌*◌, ap, ◌∙◌, ◌+◌, ◌≤◌, ◌<◌, ◌≡◌, refl, true, Option, none, some, List, [], ◌∷◌, arith,
  length, length-append,
}
use gkit_go.Pool.{
  Pool, new, Action, check_stopped, send, give_up, count_submitted, start, receive, leave,
  count_in_flight, end_flight, count_completed, count_error, set_stopped, close_jobs, busy, step,
  take_job, leave_run, run,
}

module _ {T : Type 0} where
  -- The calls of Start among the steps.
  unfoldable pub starts : List (Action T) → ℕ
  starts [] = 0
  starts (start ∷ actions) = suc (starts actions)
  starts (a ∷ actions) = starts actions

  -- Every job that was sent is queued, in work or completed; the counters are behind by what their
  -- goroutines have yet to count; the workers are those that Start has made, and the queue is within
  -- its capacity.
  pub record IsCounted (p : Pool T) : Type 0 where
    pub jobs_kept :
        p.submitted + p.sent ≡ p.completed + p.received + p.running + p.returned + length p.jobs
    pub flight_counted : p.in_flight ≡ p.running
    pub queue_bound : length p.jobs ≤ p.capacity
    pub worker_bound : busy p + p.idle ≤ p.spawned
    pub errors_counted : p.errors + p.failing ≤ p.completed
    pub closed_stopped : p.closed ≡ true → p.stopped ≡ true
    pub panics_closed : 0 < p.panics → p.closed ≡ true

  step-IsCounted : (a : Action T) (p p' : Pool T) → IsCounted p → step a p ≡ some p' → IsCounted p'
  unfolding step take_job leave_run
  step-IsCounted check_stopped p p' h e = ground arith
  step-IsCounted (send job) p p' h e = ground (arith, length-append p.jobs (job ∷ []))
  step-IsCounted give_up p p' h e = ground arith
  step-IsCounted count_submitted p p' h e = ground arith
  step-IsCounted start p p' h e = ground arith
  step-IsCounted receive p p' h e = ground arith
  step-IsCounted leave p p' h e = ground arith
  step-IsCounted count_in_flight p p' h e = ground arith
  step-IsCounted end_flight p p' h e = ground arith
  step-IsCounted (count_completed err) p p' h e = ground arith
  step-IsCounted count_error p p' h e = ground arith
  step-IsCounted set_stopped p p' h e = ground arith
  step-IsCounted close_jobs p p' h e = ground arith

  run-IsCounted :
      (actions : List (Action T)) (p p' : Pool T)
      → IsCounted p
      → run actions p ≡ some p'
      → IsCounted p'
  unfolding run
  run-IsCounted [] p p' h e = ground (arith, h, e)
  run-IsCounted (a ∷ actions) p p' h e = stepped (step a p) refl (λ p₁. run-IsCounted actions p₁ p')
    where
      stepped :
          (r : Option (Pool T))
          → step a p ≡ r
          → ((p₁ : Pool T) → IsCounted p₁ → run actions p₁ ≡ some p' → IsCounted p')
          → IsCounted p'
      stepped none q next = absurd (ground (arith, q, e))
      stepped (some p₁) q next = next p₁ (step-IsCounted a p p₁ h q) (ground (arith, q, e))

  step-spawned :
      (a : Action T) (actions : List (Action T)) (p p' : Pool T)
      → step a p ≡ some p'
      → (p'.spawned + starts actions * p'.workers ≡ p.spawned + starts (a ∷ actions) * p.workers)
        × (p'.workers ≡ p.workers)
  unfolding step take_job leave_run starts
  step-spawned check_stopped actions p p' e = ground arith
  step-spawned (send job) actions p p' e = ground arith
  step-spawned give_up actions p p' e = ground arith
  step-spawned count_submitted actions p p' e = ground arith
  step-spawned start actions p p' e = ground arith
  step-spawned receive actions p p' e = ground arith
  step-spawned leave actions p p' e = ground arith
  step-spawned count_in_flight actions p p' e = ground arith
  step-spawned end_flight actions p p' e = ground arith
  step-spawned (count_completed err) actions p p' e = ground arith
  step-spawned count_error actions p p' e = ground arith
  step-spawned set_stopped actions p p' e = ground arith
  step-spawned close_jobs actions p p' e = ground arith

  new-IsCounted :
      (workers queue_size : ℕ) (p : Pool T) → new workers queue_size ≡ some p → IsCounted p
  unfolding new
  new-IsCounted workers queue_size p e = ground (arith, e)

  run-spawned :
      (actions : List (Action T)) (p p' : Pool T)
      → run actions p ≡ some p'
      → p'.spawned ≡ p.spawned + starts actions * p.workers
  unfolding run starts
  run-spawned [] p p' e = ground (arith, e)
  run-spawned (a ∷ actions) p p' e = stepped (step a p) refl (λ p₁. run-spawned actions p₁ p')
    where
      stepped :
          (r : Option (Pool T))
          → step a p ≡ r
          → ((p₁ : Pool T)
              → run actions p₁ ≡ some p'
              → p'.spawned ≡ p₁.spawned + starts actions * p₁.workers)
          → p'.spawned ≡ p.spawned + starts (a ∷ actions) * p.workers
      stepped none q next = absurd (ground (arith, q, e))
      stepped (some p₁) q next = next p₁ (ground (arith, q, e)) ∙ (step-spawned a actions p p₁ q).0

  -- Whatever steps the goroutines of a new pool take, in whatever order: the jobs submitted are
  -- those completed, in flight and queued, but for the goroutines between a step and its count; the
  -- workers at work are at most those of the pool for each call of Start, the queue is within its
  -- capacity, no more errors are counted than completed jobs, and nothing has panicked unless the
  -- channel is closed.
  pub pool-IsCounted :
      (workers queue_size : ℕ) (actions : List (Action T)) (p₀ p : Pool T)
      → new workers queue_size ≡ some p₀
      → run actions p₀ ≡ some p
      → IsCounted p × (busy p ≤ starts actions * workers)
  unfolding new
  pool-IsCounted workers queue_size actions p₀ p e q =
      let h = run-IsCounted actions p₀ p (new-IsCounted workers queue_size p₀ e) q in
      let zero_spawned : p₀.spawned ≡ 0 = ground (arith, e) in
      let same : p₀.workers ≡ workers = ground (arith, e) in
      let n : p.spawned ≡ 0 + starts actions * workers =
        run-spawned actions p₀ p q
        ∙ ap (λ m. m + starts actions * p₀.workers) zero_spawned
        ∙ ap (λ m. 0 + starts actions * m) same in
      (h, omega (arith, h.worker_bound, n))
