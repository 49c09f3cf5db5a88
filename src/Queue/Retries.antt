-- ===== src/Queue/Retries.antt =====
-- How often a job is tried (pkg/queue/queue.go).
use Prim.Native.String.{String}
use gkit_go.Prelude.{
  ℕ, zero, suc, ◌+◌, ◌≤◌, ◌<◌, ◌≡◌, refl, Bool, true, false, Option, some, arith, if◌then◌else◌,
}
use gkit_go.Queue.{
  Status, pending, dead, Job, Row, set_dead, set_pending, set, execute_job, handler_error,
  add_duration, backoff,
}

abbrev pub is_pending : Status → Bool
is_pending pending = true
is_pending _ = false

module _ {P E W : Type 0} (handlers : String → Option (P → W → Option E × W)) (clock : W → ℕ) where
  -- The executions of one job, each on the row that the one before has left; only a row that is
  -- pending is taken to be executed.
  unfoldable pub executions : ℕ → Row P E → W → Row P E × W
  executions zero r w = (r, w)
  executions (suc n) r w =
      let (u, w') = execute_job handlers clock r.job w in
      let rest = executions n (set u r) w' in if is_pending r.status then rest else (r, w)

  module _ (h : P → W → Option E × W)
      (fails : (p : P) (w : W) → (e : E) × ((h p w).0 ≡ some e)) where
    retried :
        (job : Job P) (w : W)
        → handlers job.job_type ≡ some h
        → job.attempts + 1 < job.max_attempts
        → (e : E) × (execute_job handlers clock job w ≡ (
          set_pending
              (job.attempts + 1)
              (handler_error e)
              (add_duration (clock (h job.payload w).1) (backoff (job.attempts + 1))),
          (h job.payload w).1,
        ))
    unfolding execute_job
    retried job w p less = let (e, q) = fails job.payload w in (e, ground (arith, p, q))

    buried :
        (job : Job P) (w : W)
        → handlers job.job_type ≡ some h
        → job.max_attempts ≤ job.attempts + 1
        → (e : E) × (execute_job handlers clock job w
            ≡ (set_dead (job.attempts + 1) (handler_error e), (h job.payload w).1))
    unfolding execute_job
    buried job w p over = let (e, q) = fails job.payload w in (e, ground (arith, p, q))

    waits :
        (n k : ℕ) (r : Row P E) (w : W)
        → handlers r.job.job_type ≡ some h
        → r.status ≡ pending
        → r.job.attempts + suc n ≡ r.job.max_attempts
        → k ≤ n
        → ((executions k r w).0.status ≡ pending)
          × ((executions k r w).0.job.attempts ≡ r.job.attempts + k)
    unfolding executions set
    waits n zero r w p q m l = (q, omega arith)
    waits zero (suc k) r w p q m l = absurd (omega (arith, l))
    waits (suc n) (suc k) r w p q m l =
        let (e, s) = retried r.job w p (omega arith) in
        let next : Row P E =
          set
            (set_pending (r.job.attempts + 1) (handler_error e)
              (add_duration (clock (h r.job.payload w).1) (backoff (r.job.attempts + 1))))
            r in
        let rest = waits n k next (h r.job.payload w).1 p refl (omega arith) (omega (arith, l)) in
        rw (s, q, rest.0, rest.1) (refl, omega arith)

    rests : (m : ℕ) (r : Row P E) (w : W) → r.status ≡ dead → executions m r w ≡ (r, w)
    unfolding executions
    rests zero r w q = refl
    rests (suc m) r w q = ground (arith, q)

    ends :
        (n k : ℕ) (r : Row P E) (w : W)
        → handlers r.job.job_type ≡ some h
        → r.status ≡ pending
        → r.job.attempts + suc n ≡ r.job.max_attempts
        → n < k
        → ((executions k r w).0.status ≡ dead)
          × ((executions k r w).0.job.attempts ≡ r.job.max_attempts)
    unfolding executions set
    ends n zero r w p q m l = absurd (omega (arith, l))
    ends zero (suc k) r w p q m l =
        let (e, s) = buried r.job w p (omega arith) in
        let last : Row P E = set (set_dead (r.job.attempts + 1) (handler_error e)) r in
        rw (s, q, rests k last (h r.job.payload w).1 refl) (refl, omega arith)
    ends (suc n) (suc k) r w p q m l =
        let (e, s) = retried r.job w p (omega arith) in
        let next : Row P E =
          set
            (set_pending (r.job.attempts + 1) (handler_error e)
              (add_duration (clock (h r.job.payload w).1) (backoff (r.job.attempts + 1))))
            r in
        let rest = ends n k next (h r.job.payload w).1 p refl (omega arith) (omega (arith, l)) in
        rw (s, q, rest.0, rest.1) (refl, refl)

    -- A job whose handler always fails is pending after each execution before the last that its
    -- maximum leaves it, one attempt more each time, and dead from that one on, with its attempts
    -- at the maximum.
    pub executions-dead :
        (n : ℕ) (r : Row P E) (w : W)
        → handlers r.job.job_type ≡ some h
        → r.status ≡ pending
        → r.job.attempts + suc n ≡ r.job.max_attempts
        → ((k : ℕ)
            → k ≤ n
            → ((executions k r w).0.status ≡ pending)
              × ((executions k r w).0.job.attempts ≡ r.job.attempts + k))
          × ((k : ℕ)
              → n < k
              → ((executions k r w).0.status ≡ dead)
                × ((executions k r w).0.job.attempts ≡ r.job.max_attempts))
    executions-dead n r w p q m = (λ k l. waits n k r w p q m l, λ k l. ends n k r w p q m l)
