-- ===== src/Queue/Cycles.antt =====
-- What a poll of the job queue keeps (pkg/queue/queue.go).
use Prim.Native.String.{String}
use gkit_go.Prelude.{ℕ, Bool, Option, List, [], ◌∷◌, take, All}
use gkit_go.Queue.{Job, Row, set_where, execute_job, process_batch}
use gkit_go.Queue.Accounting.{IsAccounted, process_batch-IsAccounted}
use gkit_go.Queue.Polling.{select_due, by_time, due_jobs, poll}
use gkit_go.Queue.Selection.{
  IsUnique, Stands, take-IsDistinct, by_time-IsUnique, select_due-IsUnique, Stands-jobs, take-All,
  by_time-All, select_due-Stands, set_where-IsUnique,
}

module _ {P E W : Type 0} (handlers : String → Option (P → W → Option E × W)) (clock : W → ℕ) where
  process_batch-IsUnique :
      (jobs : List (Job P)) (rows : List (Row P E)) (w : W)
      → IsUnique rows
      → IsUnique (process_batch handlers clock jobs (rows, w)).0
  unfolding process_batch
  process_batch-IsUnique [] rows w h = h
  process_batch-IsUnique (job ∷ jobs) rows w h =
      let (u, w') = execute_job handlers clock job w in
      process_batch-IsUnique jobs (set_where job.id u rows) w' (set_where-IsUnique job.id u rows h)

  -- A poll of a table in which no id stands twice, whatever the handlers do, whatever rows others
  -- have locked and whatever the time: it keeps every row accounted for (a pending job has attempts
  -- to go, a dead one has used them all and says why, and none is tried more often than its maximum,
  -- or once), and no id stands twice in the table after it.
  pub poll-IsAccounted :
      (locked : ℕ → Bool) (now : ℕ) (rows : List (Row P E)) (w : W)
      → IsUnique rows
      → All IsAccounted rows
      → All IsAccounted (poll handlers clock locked now (rows, w)).0
        × IsUnique (poll handlers clock locked now (rows, w)).0
  unfolding poll due_jobs
  poll-IsAccounted locked now rows w u h =
      let found = select_due locked now rows in
      (
        process_batch-IsAccounted handlers clock (due_jobs locked now rows) rows w
            (take-IsDistinct 10 (by_time found)
              (by_time-IsUnique found (select_due-IsUnique locked now rows u)))
            (Stands-jobs rows (take 10 (by_time found)) u (
              take-All (Stands rows) 10 (by_time found)
                (by_time-All (Stands rows) found (select_due-Stands locked now rows))))
            h,
        process_batch-IsUnique (due_jobs locked now rows) rows w u,
      )
