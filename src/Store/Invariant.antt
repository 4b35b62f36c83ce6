-- ===== src/Store/Invariant.antt =====
-- The invariant of pipeline_jobs under each statement.
use dist_task_queue.Prelude.{
  ◌≤◌, ◌<◌, ◌≡◌, ◌≢◌, refl, sym, subst, Bool, true, false, Option, none, List, [], ◌∷◌, ◌++◌, arith,
  ◌⊎◌, inl, inr,
}
use dist_task_queue.Prelude.Tests.{Bytes, is_some, Bool-cases, Option-cases}
use dist_task_queue.Prelude.Lists.{All, All-append, exists}
use dist_task_queue.Services.{Env}
use dist_task_queue.World.{World, Result, Error, call_cases}
use dist_task_queue.Store.Types.{Uuid, Time, queued, running, done, dead, Job, NewJob, Db}
use dist_task_queue.Store.Jobs.{
  index_ok, update_where, update_jobs, claimed, finished, after_failure, advanced, has_id, is_in,
  claim_stmt, done_stmt, fail_stmt, advance_stmt, insert_row, insert_stmt, new_row, payload_text,
  clash, run, enqueue_job, claim_job, mark_done, mark_failed, advance_job,
}
use dist_task_queue.Store.Table.{All-update, index_ok-append}

-- A row agrees with its status.
pub record RowOk (j : Job) : Type 0 where
  pub retries_left : (j.status ≡ queued) ⊎ (j.status ≡ running) → j.attempts < j.max_attempts
  pub owned : j.status ≡ running → is_some j.worker_id ≡ true
  pub unowned : j.status ≡ queued → j.worker_id ≡ none
  pub completed : j.status ≡ done → is_some j.completed_at ≡ true
  pub exhausted : j.status ≡ dead → (j.max_attempts ≤ j.attempts) × (is_some j.last_error ≡ true)

-- No two rows have one id.
abbrev pub DistinctIds : List Job → Type 0
DistinctIds [] = Unit {0}
DistinctIds (j ∷ js) = All (λ (i : Job). i.id ≢ j.id) js × DistinctIds js

pub record Inv (db : Db) : Type 0 where
  pub rows : All RowOk db.jobs
  pub ids : DistinctIds db.jobs
  pub index : index_ok db.jobs ≡ true

claimed-RowOk :
    (w : Bytes) (t : Time) (id : Uuid) (j : Job)
    → RowOk j
    → is_in queued id j ≡ true
    → RowOk (claimed w t j)
claimed-RowOk w t id j r h = ground arith

finished-RowOk : (t : Time) (j : Job) → RowOk j → RowOk (finished t j)
finished-RowOk t j r = ground arith

after_failure-RowOk : (m : Bytes) (n t : Time) (j : Job) → RowOk (after_failure m n t j)
after_failure-RowOk m n t j = ground arith

advanced-RowOk :
    (s : Bytes) (t : Time) (id : Uuid) (j : Job)
    → RowOk j
    → is_in running id j ≡ true
    → RowOk (advanced s t j)
advanced-RowOk s t id j r h = ground arith

new_row-RowOk : (id : Uuid) (t : Time) (p : Bytes) (nj : NewJob) → RowOk (new_row id t p nj)
new_row-RowOk id t p nj = ground arith

module _ (p : Job → Bool) (f : Job → Job) (same : (j : Job) → (f j).id ≡ j.id) where
  update-All_ne :
      (k : Uuid) (js : List Job)
      → All (λ (i : Job). i.id ≢ k) js
      → All (λ (i : Job). i.id ≢ k) (update_where p f js)
  update-All_ne k js =
      All-update p f (λ (i : Job). i.id ≢ k) (λ j ne _. λ e. ne (subst (λ n. n ≡ k) (same j) e)) js

  update-DistinctIds : (js : List Job) → DistinctIds js → DistinctIds (update_where p f js)
  unfolding update_where
  update-DistinctIds [] d = tt
  update-DistinctIds (j ∷ js) (dj, ds) = elim (Bool-cases (p j)) [
    | inl e ↦ rw e (rw (same j) (update-All_ne j.id js dj), update-DistinctIds js ds)
    | inr e ↦ rw e (update-All_ne j.id js dj, update-DistinctIds js ds)
  ]

  update_jobs-Inv :
      (missing : Error) (db : Db)
      → ((j : Job) → RowOk j → p j ≡ true → RowOk (f j))
      → Inv db
      → Inv (update_jobs missing p f db).1
  unfolding update_jobs
  update_jobs-Inv missing db keep v = elim (Bool-cases (index_ok (update_where p f db.jobs))) [
    | inl e ↦
        ground
          (arith, e, All-update p f RowOk keep db.jobs v.rows, update-DistinctIds db.jobs v.ids)
    | inr e ↦ rw (e, update_jobs) v
  ]

exists_none :
    (id : Uuid) (js : List Job) → exists (has_id id) js ≡ false → All (λ (i : Job). i.id ≢ id) js
exists_none id [] h = tt
exists_none id (j ∷ js) h = (λ e. ground (arith, h), exists_none id js (ground (arith, h)))

append-DistinctIds :
    (js : List Job) (i : Job)
    → All (λ (j : Job). j.id ≢ i.id) js
    → DistinctIds js
    → DistinctIds (js ++ i ∷ [])
append-DistinctIds [] i h d = (tt, tt)
append-DistinctIds (j ∷ js) i (hj, hs) (dj, ds) =
    (All-append _ js (i ∷ []) dj ((λ e. hj (sym e)), tt), append-DistinctIds js i hs ds)

insert_row-Inv : (row : Job) (db : Db) → RowOk row → Inv db → Inv (insert_row row db).1
unfolding insert_row
insert_row-Inv row db r v = elim (Bool-cases (exists (has_id row.id) db.jobs)) [
  | inl e ↦ rw (e, insert_row) v
  | inr fresh ↦ elim (Bool-cases (exists (clash row) db.jobs)) [
    | inl e ↦ rw (fresh, e, insert_row) v
    | inr free ↦ ground (
      arith,
      fresh,
      free,
      All-append RowOk db.jobs (row ∷ []) v.rows (r, tt),
      append-DistinctIds db.jobs row (exists_none row.id db.jobs fresh) v.ids,
      index_ok-append db.jobs row v.index free,
    )
  ]
]

insert_stmt-Inv :
    (jsonb : Bytes → Option Bytes) (id : Uuid) (t : Time) (nj : NewJob) (db : Db)
    → Inv db
    → Inv (insert_stmt jsonb id t nj db).1
unfolding insert_stmt
insert_stmt-Inv jsonb id t nj db v = elim (Option-cases (jsonb (payload_text nj.payload))) [
  | inl e ↦ rw (e, insert_stmt) v
  | inr (p, e) ↦ rw (e, insert_stmt) (insert_row-Inv _ db (new_row-RowOk id t p nj) v)
]

-- The five methods that write to pipeline_jobs.
pub data JobWrite : Type 0 where
  enqueue : NewJob → JobWrite
  claim : Uuid → Bytes → JobWrite
  finish : Uuid → JobWrite
  refuse : Uuid → Bytes → Time → JobWrite
  advance : Uuid → Bytes → JobWrite

pub claim_stmt-Inv :
    (id : Uuid) (worker : Bytes) (t : Time) (db : Db) → Inv db → Inv (claim_stmt id worker t db).1
unfolding claim_stmt
claim_stmt-Inv id worker t db =
    update_jobs-Inv _ _ (λ j. refl) _ db (λ j. claimed-RowOk worker t id j)

module _ (e : Env) where
  pub write : JobWrite → World e → World e
  write (enqueue nj) w = (enqueue_job e nj w).1
  write (claim id worker) w = (claim_job e id worker w).1
  write (finish id) w = (mark_done e id w).1
  write (refuse id msg next) w = (mark_failed e id msg next w).1
  write (advance id stage) w = (advance_job e id stage w).1

  abbrev pub InvW : World e → Type 0
  InvW w = Inv w.db

  pub run-Inv :
      {A : Type 0} (stmt : Time → Db → Result A × Db)
      → ((t : Time) (db : Db) → Inv db → Inv (stmt t db).1)
      → (w : World e) → InvW w
      → InvW (run e stmt w).1
  run-Inv stmt keep w v = call_cases e InvW _ w v (keep _ w.db v)

  pub enqueue_job-Inv : (nj : NewJob) (w : World e) → InvW w → InvW (enqueue_job e nj w).1
  unfolding enqueue_job
  enqueue_job-Inv nj w = run-Inv _ (λ t db. insert_stmt-Inv e.jsonb _ t nj db) w

  pub claim_job-Inv :
      (id : Uuid) (worker : Bytes) (w : World e) → InvW w → InvW (claim_job e id worker w).1
  unfolding claim_job
  claim_job-Inv id worker = run-Inv _ (claim_stmt-Inv id worker)

  pub mark_done-Inv : (id : Uuid) (w : World e) → InvW w → InvW (mark_done e id w).1
  unfolding mark_done done_stmt
  mark_done-Inv id =
      run-Inv _ λ t db. update_jobs-Inv _ _ (λ j. refl) _ db (λ j r _. finished-RowOk t j r)

  pub mark_failed-Inv :
      (id : Uuid) (msg : Bytes) (next : Time) (w : World e)
      → InvW w
      → InvW (mark_failed e id msg next w).1
  unfolding mark_failed fail_stmt
  mark_failed-Inv id msg next =
      run-Inv _
        λ t db. update_jobs-Inv _ _ (λ j. refl) _ db (λ j _ _. after_failure-RowOk msg next t j)

  pub advance_job-Inv :
      (id : Uuid) (stage : Bytes) (w : World e) → InvW w → InvW (advance_job e id stage w).1
  unfolding advance_job advance_stmt
  advance_job-Inv id stage =
      run-Inv _ λ t db. update_jobs-Inv _ _ (λ j. refl) _ db (λ j. advanced-RowOk stage t id j)

  -- Every method that writes to pipeline_jobs, under every fault of its call, keeps the table's
  -- invariant: rows, ids and unique index.
  pub write-Inv : (x : JobWrite) (w : World e) → InvW w → InvW (write x w)
  unfolding write
  write-Inv (enqueue nj) = enqueue_job-Inv nj
  write-Inv (claim id worker) = claim_job-Inv id worker
  write-Inv (finish id) = mark_done-Inv id
  write-Inv (refuse id msg next) = mark_failed-Inv id msg next
  write-Inv (advance id stage) = advance_job-Inv id stage
