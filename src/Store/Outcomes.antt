-- ===== src/Store/Outcomes.antt =====
-- What MarkDone and MarkFailed of internal/store/store.go leave in a job's row, column by column.
use dist_task_queue.Prelude.{◌+◌, ◌≤◌, ◌<◌, ◌≡◌, refl, true, none, some, arith}
use dist_task_queue.Prelude.Tests.{Bytes}
use dist_task_queue.Store.Types.{Uuid, Time, queued, done, dead, Job, Db, to_micros}
use dist_task_queue.Store.Jobs.{done_stmt, fail_stmt, find_job}
use dist_task_queue.Store.Invariant.{Inv}
use dist_task_queue.Store.Lookup.{is_active}
use dist_task_queue.Store.Statements.{Done, done_stmt-Done, fail_stmt-Done}

-- The columns that neither statement changes.
pub record SameJob (j r : Job) : Type 0 where
  pub id : r.id ≡ j.id
  pub user_id : r.user_id ≡ j.user_id
  pub gmail_message_id : r.gmail_message_id ≡ j.gmail_message_id
  pub stage : r.stage ≡ j.stage
  pub payload : r.payload ≡ j.payload
  pub is_synthetic : r.is_synthetic ≡ j.is_synthetic
  pub max_attempts : r.max_attempts ≡ j.max_attempts
  pub claimed_at : r.claimed_at ≡ j.claimed_at
  pub created_at : r.created_at ≡ j.created_at

-- The row of a job that is done.
pub record IsFinished (now : Time) (j r : Job) : Type 0 where
  pub same : SameJob j r
  pub status : r.status ≡ done
  pub completed_at : r.completed_at ≡ some now
  pub worker_id : r.worker_id ≡ j.worker_id
  pub attempts : r.attempts ≡ j.attempts
  pub last_error : r.last_error ≡ j.last_error
  pub next_run_at : r.next_run_at ≡ j.next_run_at
  pub updated_at : r.updated_at ≡ now

-- The row of a job that has failed: one attempt more, queued again while attempts are left, and dead
-- else; nobody holds it.
pub record IsFailed (msg : Bytes) (next now : Time) (j r : Job) : Type 0 where
  pub same : SameJob j r
  pub attempts : r.attempts ≡ j.attempts + 1
  pub requeued : j.attempts + 1 < j.max_attempts → r.status ≡ queued
  pub buried : j.max_attempts ≤ j.attempts + 1 → r.status ≡ dead
  pub worker_id : r.worker_id ≡ none
  pub last_error : r.last_error ≡ some msg
  pub next_run_at : r.next_run_at ≡ to_micros next
  pub completed_at : r.completed_at ≡ j.completed_at
  pub updated_at : r.updated_at ≡ now

module _ (id : Uuid) (now : Time) (db : Db) (v : Inv db) where
  -- In a well-formed table, on a row with the id, whatever its status and its worker: MarkDone's
  -- statement succeeds, sets the row's status to done and the times of its completion and its update,
  -- and changes no other column and no other row.
  pub done_stmt_lem :
      (j : Job)
      → find_job id db.jobs ≡ some j
      → (r : Job) × IsFinished now j r × Done id r db (done_stmt id now db)
  done_stmt_lem j h = (
    _,
    record {
      same = record {
        id = refl;
        user_id = refl;
        gmail_message_id = refl;
        stage = refl;
        payload = refl;
        is_synthetic = refl;
        max_attempts = refl;
        claimed_at = refl;
        created_at = refl;
      };
      status = refl;
      completed_at = refl;
      worker_id = refl;
      attempts = refl;
      last_error = refl;
      next_run_at = refl;
      updated_at = refl;
    },
    done_stmt-Done id now db v j h,
  )

  -- In a well-formed table, on a job that is queued or running, whoever holds it: MarkFailed's
  -- statement succeeds and counts an attempt; the job is queued again, without a worker, if that leaves
  -- attempts, and dead if it does not; its error and the time of its next run, in whole microseconds,
  -- are stored, and no other column but the time of the update, and no other row, is changed.
  pub fail_stmt_lem :
      (j : Job) (msg : Bytes) (next : Time)
      → find_job id db.jobs ≡ some j
      → is_active j ≡ true
      → (r : Job) × IsFailed msg next now j r × Done id r db (fail_stmt id msg next now db)
  fail_stmt_lem j msg next h a = (
    _,
    record {
      same = record {
        id = refl;
        user_id = refl;
        gmail_message_id = refl;
        stage = refl;
        payload = refl;
        is_synthetic = refl;
        max_attempts = refl;
        claimed_at = refl;
        created_at = refl;
      };
      attempts = refl;
      requeued = λ left. ground (arith, left);
      buried = λ none_left. ground (arith, none_left);
      worker_id = refl;
      last_error = refl;
      next_run_at = refl;
      completed_at = refl;
      updated_at = refl;
    },
    fail_stmt-Done id now db v j h msg next a,
  )
