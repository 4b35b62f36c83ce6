-- ===== src/Store/Statements.antt =====
-- What each statement on one job does, on every branch, to the map from ids to rows.
use dist_task_queue.Prelude.{◌≡◌, ◌≢◌, refl, Bool, true, false, none, some, List, [], ◌∷◌, arith}
use dist_task_queue.Prelude.Tests.{Bytes, ==_iff}
use dist_task_queue.Prelude.Lists.{All}
use dist_task_queue.World.{Result, Error, ok, err, job_not_claimable, job_not_found}
use dist_task_queue.Store.Types.{Uuid, Time, queued, running, Job, Db}
use dist_task_queue.Store.Jobs.{
  update_jobs, claimed, finished, after_failure, advanced, has_id, claim_stmt, done_stmt, fail_stmt,
  advance_stmt, find_job,
}
use dist_task_queue.Store.Table.{DullAt, update_jobs_missing, update_jobs_done}
use dist_task_queue.Store.Invariant.{Inv}
use dist_task_queue.Store.Lookup.{
  find_job-id, affected-some, affected_missing, affected_refused, All-of, claimed-DullAt,
  finished-DullAt, advanced-DullAt, is_active, after_failure-DullAt, is_in-id, has_id-id, Becomes,
  update-Becomes, find_job_only,
}

-- A statement that is done, and changes one row.
abbrev pub Done : Uuid → Job → Db → Result (Unit {0}) × Db → Type 0
Done id j db r = (r.0 ≡ ok tt) × Becomes id j db r.1

module _ (missing : Error) (p : Job → Bool) (f : Job → Job) (id : Uuid) (db : Db) (v : Inv db)
    (same : (i : Job) → (f i).id ≡ i.id) (only : (i : Job) → p i ≡ true → i.id ≡ id) where
  update-Done :
      (j : Job)
      → All (DullAt p f) db.jobs
      → find_job id db.jobs ≡ some j
      → p j ≡ true
      → Done id (f j) db (update_jobs missing p f db)
  update-Done j dull h hp =
      rw (update_jobs_done p f missing db dull v.index (affected-some p id db.jobs j h hp))
        (refl, update-Becomes p f id j db same only h hp)

  update_missing : find_job id db.jobs ≡ none → update_jobs missing p f db ≡ (err missing, db)
  update_missing h =
      update_jobs_missing p f missing db v.index (affected_missing p id only db.jobs h)

  update_refused :
      (j : Job)
      → find_job id db.jobs ≡ some j
      → p j ≡ false
      → update_jobs missing p f db ≡ (err missing, db)
  update_refused j h hp =
      update_jobs_missing p f missing db v.index (affected_refused p id only db.jobs j v.ids h hp)

module _ (id : Uuid) (now : Time) (db : Db) (v : Inv db) where
  module _ (j : Job) (h : find_job id db.jobs ≡ some j) where
    -- ClaimJob on a queued job.
    pub claim_stmt-Done :
        (worker : Bytes)
        → j.status ≡ queued
        → Done id (claimed worker now j) db (claim_stmt id worker now db)
    unfolding claim_stmt
    claim_stmt-Done worker s =
        update-Done _ _ _ id db v (λ i. refl) (is_in-id queued id) j
          (All-of _ (claimed-DullAt worker now id) db.jobs) h
          (ground (arith, find_job-id id db.jobs j h, ==_iff j.id id))

    pub claim_stmt_refused :
        (worker : Bytes)
        → j.status ≢ queued
        → claim_stmt id worker now db ≡ (err job_not_claimable, db)
    unfolding claim_stmt
    claim_stmt_refused worker s =
        update_refused _ _ _ id db v (λ i. refl) (is_in-id queued id) j h (ground arith)

    pub advance_stmt-Done :
        (stage : Bytes)
        → j.status ≡ running
        → Done id (advanced stage now j) db (advance_stmt id stage now db)
    unfolding advance_stmt
    advance_stmt-Done stage s =
        update-Done _ _ _ id db v (λ i. refl) (is_in-id running id) j
          (All-of _ (advanced-DullAt stage now id) db.jobs) h
          (ground (arith, find_job-id id db.jobs j h, ==_iff j.id id))

    pub advance_stmt_refused :
        (stage : Bytes)
        → j.status ≢ running
        → advance_stmt id stage now db ≡ (err job_not_found, db)
    unfolding advance_stmt
    advance_stmt_refused stage s =
        update_refused _ _ _ id db v (λ i. refl) (is_in-id running id) j h (ground arith)

    -- In a well-formed table, MarkDone's statement finishes the row with the id whatever its status
    -- and its worker, and changes no other row.
    pub done_stmt-Done : Done id (finished now j) db (done_stmt id now db)
    unfolding done_stmt
    done_stmt-Done =
        update-Done _ _ _ id db v (λ i. refl) (has_id-id id) j
          (All-of _ (finished-DullAt now (has_id id)) db.jobs) h
          ((==_iff j.id id).1 (find_job-id id db.jobs j h))

    -- In a well-formed table, MarkFailed's statement on a job that is queued or running, whoever
    -- holds it, requeues its row or makes it dead by its attempts, and changes no other row.
    pub fail_stmt-Done :
        (msg : Bytes) (next : Time)
        → is_active j ≡ true
        → Done id (after_failure msg next now j) db (fail_stmt id msg next now db)
    unfolding fail_stmt
    fail_stmt-Done msg next a =
        update-Done _ _ _ id db v (λ i. refl) (has_id-id id) j
          (dull db.jobs (find_job_only id db.jobs j v.ids h)) h
          ((==_iff j.id id).1 (find_job-id id db.jobs j h))
      where
        dull :
            (js : List Job)
            → All (λ i. has_id id i ≡ true → i ≡ j) js
            → All (DullAt (has_id id) (after_failure msg next now)) js
        dull [] o = tt
        dull (i ∷ js) (oi, os) = (
          (λ t. rw (oi t) (after_failure-DullAt msg next now (has_id id) j a (rw (oi t) at t))),
          dull js os,
        )

  module _ (h : find_job id db.jobs ≡ none) where
    pub claim_stmt_missing :
        (worker : Bytes) → claim_stmt id worker now db ≡ (err job_not_claimable, db)
    unfolding claim_stmt
    claim_stmt_missing worker = update_missing _ _ _ id db v (λ i. refl) (is_in-id queued id) h

    pub advance_stmt_missing :
        (stage : Bytes) → advance_stmt id stage now db ≡ (err job_not_found, db)
    unfolding advance_stmt
    advance_stmt_missing stage = update_missing _ _ _ id db v (λ i. refl) (is_in-id running id) h

    pub done_stmt_missing : done_stmt id now db ≡ (err job_not_found, db)
    unfolding done_stmt
    done_stmt_missing = update_missing _ _ _ id db v (λ i. refl) (has_id-id id) h

    pub fail_stmt_missing :
        (msg : Bytes) (next : Time) → fail_stmt id msg next now db ≡ (err job_not_found, db)
    unfolding fail_stmt
    fail_stmt_missing msg next = update_missing _ _ _ id db v (λ i. refl) (has_id-id id) h
