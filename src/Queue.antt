-- ===== src/Queue.antt =====
-- The job queue, pkg/queue/queue.go. A job's handler and the clock act on the world `W`; a statement
-- on the jobs table is what its SQL text does to the rows. Times are in nanoseconds.
pub mod Accounting
pub mod Backoff
pub mod Cycles
pub mod Polling
pub mod Requests
pub mod Retries
mod Selection
pub mod Stopping
pub mod Workers
mod Tests
use Prim.Native.String.{String}
use gkit_go.Prelude.{
  ℕ, ◌+◌, ◌-◌, ◌*◌, ◌^◌, ◌%◌, Bool, true, false, Option, none, some, List, [], ◌∷◌, map, ltb, leb,
  ◌==◌, ◌&&◌, if◌then◌else◌,
}

-- What the `status` column holds.
pub data Status : Type 0 where
  pending : Status
  done : Status
  failed : Status
  dead : Status

-- `Job`, as the batch reads it.
pub record Job (P : Type 0) : Type 0 where
  pub id : ℕ
  pub job_type : String
  pub payload : P
  pub attempts : ℕ
  pub max_attempts : ℕ

-- What `last_error` holds.
pub data LastError (E : Type 0) : Type 0 where
  no_handler : String → LastError E
  handler_error : E → LastError E

-- A row of the jobs table.
pub record Row (P E : Type 0) : Type 0 where
  pub job : Job P
  pub status : Status
  pub run_at : ℕ
  pub last_error : Option (LastError E)

-- The statements of `executeJob`, all on the row with the job's id.
pub data Update (E : Type 0) : Type 0 where
  set_failed : LastError E → Update E
  set_done : ℕ → Update E
  set_dead : ℕ → LastError E → Update E
  set_pending : ℕ → LastError E → ℕ → Update E

-- `time.Hour`
abbrev pub hour : ℕ
hour = 3600 * 10 ^ 9

-- The bits of the product, in the 64 bits of a duration.
unfoldable pub doubled : ℕ → ℕ
doubled attempts = (2 ^ attempts % 2 ^ 64 * 10 * 10 ^ 9) % 2 ^ 64

-- The delay before a retry; a duration of `2 ^ 63` and more is negative, and not above the cap.
unfoldable pub backoff : ℕ → ℕ
backoff attempts =
    if ltb hour (doubled attempts) && ltb (doubled attempts) (2 ^ 63)
    then hour
    else doubled attempts

-- `now.Add(d)`, of a duration by its bits.
unfoldable pub add_duration : ℕ → ℕ → ℕ
add_duration now d = if ltb d (2 ^ 63) then now + d else now - (2 ^ 64 - d)

module _ {P E : Type 0} where
  -- Enqueue's INSERT, with the defaults of the table's columns; a delay counts when positive.
  unfoldable pub enqueue : ℕ → ℕ → String → P → ℕ → ℕ → List (Row P E) → List (Row P E)
  enqueue id now job_type payload max_attempts delay rows =
      record {
        job = record {
          id = id;
          job_type = job_type;
          payload = payload;
          attempts = 0;
          max_attempts = max_attempts;
        };
        status = pending;
        run_at = if ltb 0 delay then now + delay else now;
        last_error = none;
      }
      ∷ rows

  -- What a statement sets in its row.
  unfoldable pub set : Update E → Row P E → Row P E
  set (set_failed e) r = record r { status = failed; last_error = some e }
  set (set_done n) r = record r { status = done; job = record r.job { attempts = n } }
  set (set_dead n e) r = record r {
    status = dead;
    job = record r.job { attempts = n };
    last_error = some e;
  }
  set (set_pending n e at) r = record r {
    status = pending;
    job = record r.job { attempts = n };
    last_error = some e;
    run_at = at;
  }

  -- `WHERE id=`
  unfoldable pub set_where : ℕ → Update E → List (Row P E) → List (Row P E)
  set_where id u [] = []
  set_where id u (r ∷ rows) =
      let rest = set_where id u rows in if r.job.id == id then set u r ∷ rest else r ∷ rest

module _ {P E W : Type 0} (handlers : String → Option (P → W → Option E × W)) (clock : W → ℕ) where
  -- `executeJob`: the statement that it issues, and the world after the handler.
  unfoldable pub execute_job : Job P → W → Update E × W
  execute_job job w = elim (handlers job.job_type) [
    | none ↦ (set_failed (no_handler job.job_type), w)
    | some h ↦
        let (err, w') = h job.payload w in
        let attempts = job.attempts + 1 in
        elim err [
          | none ↦ (set_done attempts, w')
          | some e ↦
              if leb job.max_attempts attempts then (set_dead attempts (handler_error e), w') else (
                set_pending attempts (handler_error e) (add_duration (clock w') (backoff attempts)),
                w',
              )
        ]
  ]

  -- The loop of `processBatch` over the jobs that its SELECT has locked.
  unfoldable pub process_batch : List (Job P) → List (Row P E) × W → List (Row P E) × W
  process_batch [] s = s
  process_batch (job ∷ jobs) (rows, w) =
      let (u, w') = execute_job job w in process_batch jobs (set_where job.id u rows, w')
