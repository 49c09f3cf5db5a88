-- ===== src/Queue/Polling.antt =====
-- A poll of the job queue, pkg/queue/queue.go: the SELECT of `processBatch` on the rows, and the batch
-- of the jobs that it returns. The rows that other transactions have locked are `locked`.
use gkit_go.Prelude.{
  ℕ, Bool, true, false, not, ◌&&◌, Option, List, [], ◌∷◌, map, take, leb, if◌then◌else◌,
}
use Prim.Native.String.{String}
use gkit_go.Queue.{Job, Row, Status, pending, done, failed, dead, process_batch}

unfoldable pub is_pending : Status → Bool
is_pending pending = true
is_pending done = false
is_pending failed = false
is_pending dead = false

module _ {P E : Type 0} where
  -- The WHERE clause, and SKIP LOCKED.
  unfoldable pub is_due : (ℕ → Bool) → ℕ → Row P E → Bool
  unfolding is_pending
  is_due locked now r = is_pending r.status && (leb r.run_at now && not (locked r.job.id))

  unfoldable pub select_due : (ℕ → Bool) → ℕ → List (Row P E) → List (Row P E)
  unfolding is_due
  select_due locked now [] = []
  select_due locked now (r ∷ rows) =
      let rest = select_due locked now rows in if is_due locked now r then r ∷ rest else rest

  unfoldable pub insert_by_time : Row P E → List (Row P E) → List (Row P E)
  insert_by_time r [] = r ∷ []
  insert_by_time r (q ∷ rows) =
      let rest = insert_by_time r rows in if leb r.run_at q.run_at then r ∷ q ∷ rows else q ∷ rest

  -- ORDER BY run_at
  unfoldable pub by_time : List (Row P E) → List (Row P E)
  unfolding insert_by_time
  by_time [] = []
  by_time (r ∷ rows) = insert_by_time r (by_time rows)

  -- The jobs that the SELECT returns.
  unfoldable pub due_jobs : (ℕ → Bool) → ℕ → List (Row P E) → List (Job P)
  unfolding select_due by_time
  due_jobs locked now rows =
      map (λ (r : Row P E). r.job) (take 10 (by_time (select_due locked now rows)))

-- `processBatch`, whose database does not fail.
unfoldable pub poll :
    {P E W : Type 0}
    → (String → Option (P → W → Option E × W))
    → (W → ℕ)
    → (ℕ → Bool)
    → ℕ
    → List (Row P E) × W
    → List (Row P E) × W
unfolding due_jobs
poll handlers clock locked now (rows, w) =
    process_batch handlers clock (due_jobs locked now rows) (rows, w)
