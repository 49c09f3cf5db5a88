-- ===== src/Queue/Accounting.antt =====
-- What the attempts of a job say of its status, batch after batch (pkg/queue/queue.go).
use Prim.Native.String.{String}
use gkit_go.Prelude.{
  ℕ, ◌+◌, ◌≤◌, ◌<◌, ◌≡◌, ◌≢◌, refl, true, Option, none, some, List, [], ◌∷◌, ◌⊎◌, inl, inr, arith,
  Option-cases, Bool-cases, leb, ◌==◌, All, is_some, max,
}
use gkit_go.Queue.{
  Status, pending, done, failed, dead, Job, Row, LastError, Update, set_failed, set_done, set_dead,
  set_pending, set, set_where, execute_job, process_batch, no_handler, handler_error, add_duration,
  backoff,
}

-- No two jobs of the batch have the same id.
abbrev pub IsDistinct : {P : Type 0} → List (Job P) → Type 0
IsDistinct [] = Unit
IsDistinct {P = P} (j ∷ jobs) = All (λ (k : Job P). k.id ≢ j.id) jobs × IsDistinct jobs

module _ {P E : Type 0} where
  abbrev Standing : Status → Row P E → Type 0
  Standing pending r = (r.job.attempts ≡ 0) ⊎ (r.job.attempts < r.job.max_attempts)
  Standing done r = 1 ≤ r.job.attempts
  Standing failed r = is_some r.last_error ≡ true
  Standing dead r = (r.job.max_attempts ≤ r.job.attempts) × (is_some r.last_error ≡ true)

  -- A pending job has attempts to go, and a dead one has used them all and says why; no job is
  -- tried more often than its maximum, or once.
  abbrev pub IsAccounted : Row P E → Type 0
  IsAccounted r = (r.job.attempts ≤ max 1 r.job.max_attempts) × Standing r.status r

  -- The row of a job of the batch is pending and is what the batch has read.
  abbrev pub IsLocked : List (Row P E) → Job P → Type 0
  IsLocked rows job =
      All (λ (r : Row P E). r.job.id ≡ job.id → (r.job ≡ job) × (r.status ≡ pending)) rows

  -- A statement that keeps the row of a pending job accounted for, and the id of any row.
  abbrev IsSound : Job P → Update E → Type 0
  IsSound job u =
      (r : Row P E) → r.job ≡ job → r.status ≡ pending → IsAccounted r → IsAccounted (set u r)

  pub set-id : (u : Update E) (r : Row P E) → (set u r).job.id ≡ r.job.id
  unfolding set
  set-id (set_failed e) r = refl
  set-id (set_done n) r = refl
  set-id (set_dead n e) r = refl
  set-id (set_pending n e at) r = refl

  set_where-IsAccounted :
      (job : Job P) (u : Update E) (rows : List (Row P E))
      → IsSound job u
      → IsLocked rows job
      → All IsAccounted rows
      → All IsAccounted (set_where job.id u rows)
  unfolding set_where
  set_where-IsAccounted job u [] sound lock h = tt
  set_where-IsAccounted job u (r ∷ rows) sound lock h =
      let rest = set_where-IsAccounted job u rows sound lock.1 h.1 in
      elim (Bool-cases (r.job.id == job.id)) [
        | inl p ↦ let same = lock.0 (ground arith) in rw (p) (sound r same.0 same.1 h.0, rest)
        | inr p ↦ rw (p) (h.0, rest)
      ]

  set_where-IsLocked :
      (job k : Job P) (u : Update E) (rows : List (Row P E))
      → k.id ≢ job.id
      → IsLocked rows k
      → IsLocked (set_where job.id u rows) k
  unfolding set_where
  set_where-IsLocked job k u [] other lock = tt
  set_where-IsLocked job k u (r ∷ rows) other lock =
      let rest = set_where-IsLocked job k u rows other lock.1 in
      elim (Bool-cases (r.job.id == job.id)) [
        | inl p ↦ rw (p) ((λ q. ground (arith, set-id u r)), rest)
        | inr p ↦ rw (p) (lock.0, rest)
      ]

  set_where-AllLocked :
      (job : Job P) (u : Update E) (rows : List (Row P E)) (jobs : List (Job P))
      → All (λ (k : Job P). k.id ≢ job.id) jobs
      → All (IsLocked rows) jobs
      → All (IsLocked (set_where job.id u rows)) jobs
  set_where-AllLocked job u rows [] other lock = tt
  set_where-AllLocked job u rows (k ∷ jobs) other lock = (
    set_where-IsLocked job k u rows other.0 lock.0,
    set_where-AllLocked job u rows jobs other.1 lock.1,
  )

  failed-IsSound : (job : Job P) (e : LastError E) → IsSound job (set_failed e)
  unfolding set
  failed-IsSound job e r p q h = ground arith

  done-IsSound : (job : Job P) → IsSound job (set_done (job.attempts + 1))
  unfolding set
  done-IsSound job r p q h = ground arith

  dead-IsSound :
      (job : Job P) (e : LastError E)
      → job.max_attempts ≤ job.attempts + 1
      → IsSound job (set_dead (job.attempts + 1) e)
  unfolding set
  dead-IsSound job e over r p q h = ground arith

  pending-IsSound :
      (job : Job P) (e : LastError E) (at : ℕ)
      → job.attempts + 1 < job.max_attempts
      → IsSound job (set_pending (job.attempts + 1) e at)
  unfolding set
  pending-IsSound job e at under r p q h = ground arith

module _ {P E W : Type 0} (handlers : String → Option (P → W → Option E × W)) (clock : W → ℕ) where
  ran :
      (job : Job P) (w w' : W) (h : P → W → Option E × W) (err : Option E)
      → handlers job.job_type ≡ some h
      → h job.payload w ≡ (err, w')
      → IsSound job (execute_job handlers clock job w).0
  unfolding execute_job
  ran job w w' h none p q = rw (p, q, execute_job) (done-IsSound job)
  ran job w w' h (some e) p q = elim (Bool-cases (leb job.max_attempts (job.attempts + 1))) [
    | inl over ↦ rw (p, q, over, execute_job) (dead-IsSound job (handler_error e) (ground arith))
    | inr under ↦
        rw (p, q, under, execute_job)
          (pending-IsSound job (handler_error e)
            (add_duration (clock (h job.payload w).1) (backoff (job.attempts + 1))) (ground arith))
  ]

  execute_job-IsSound : (job : Job P) (w : W) → IsSound job (execute_job handlers clock job w).0
  unfolding execute_job
  execute_job-IsSound job w = elim (Option-cases (handlers job.job_type)) [
    | inl p ↦ rw (p, execute_job) (failed-IsSound job (no_handler job.job_type))
    | inr (h, p) ↦ ran job w (h job.payload w).1 h (h job.payload w).0 p refl
  ]

  -- Where the rows of the batch are pending, as the batch has read them, and the batch has no job
  -- twice, a batch keeps every row accounted for: a pending job has attempts to go, a dead one has
  -- used them all and says why, and none is tried more often than its maximum, or once.
  pub process_batch-IsAccounted :
      (jobs : List (Job P)) (rows : List (Row P E)) (w : W)
      → IsDistinct jobs
      → All (IsLocked rows) jobs
      → All IsAccounted rows
      → All IsAccounted (process_batch handlers clock jobs (rows, w)).0
  unfolding process_batch
  process_batch-IsAccounted [] rows w distinct lock h = h
  process_batch-IsAccounted (job ∷ jobs) rows w distinct lock h =
      let (u, w') = execute_job handlers clock job w in
      process_batch-IsAccounted jobs (set_where job.id u rows) w' distinct.1
        (set_where-AllLocked job u rows jobs distinct.0 lock.1)
        (set_where-IsAccounted job u rows (execute_job-IsSound job w) lock.0 h)
