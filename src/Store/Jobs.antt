-- ===== src/Store/Jobs.antt =====
-- internal/store/store.go: the statements on pipeline_jobs. Each SQL statement is a function of the
-- table, with the table's constraints; each method is one call that runs its statement.
use dist_task_queue.Prelude.{
  ℕ, ◌+◌, Bool, true, false, ◌&&◌, ◌||◌, not, Option, none, some, List, [], ◌∷◌, ◌++◌,
}
use dist_task_queue.Prelude.Tests.{Bytes, bytes_eq, ltb, leb, ◌==◌, if◌then◌else◌, is_some}
use dist_task_queue.Prelude.Lists.{select, exists, length}
use dist_task_queue.Services.{Env}
use dist_task_queue.World.{
  M, Result, ok, err, Error, job_not_found, duplicate_job, job_not_claimable, constraint, bad_json,
  call,
}
use dist_task_queue.Store.Types.{
  Uuid, Time, JobStatus, queued, running, done, dead, is_status, Job, NewJob, User, Db, to_micros,
}

abbrev pub option_eq : {A : Type 0} → (A → A → Bool) → Option A → Option A → Bool
option_eq eq (some a) (some b) = eq a b
option_eq eq _ _ = false

-- The rows that pipeline_jobs_user_message_unique covers.
unfoldable pub indexed : Job → Bool
indexed j =
    not (is_status j.status done || is_status j.status dead)
    && not j.is_synthetic
    && is_some j.user_id
    && is_some j.gmail_message_id

-- Two rows that the index does not let stand together.
unfoldable pub clash : Job → Job → Bool
clash i j =
    indexed i
    && indexed j
    && option_eq ◌==◌ i.user_id j.user_id
    && option_eq bytes_eq i.gmail_message_id j.gmail_message_id

unfoldable pub index_ok : List Job → Bool
index_ok [] = true
index_ok (j ∷ js) = not (exists (clash j) js) && index_ok js

-- UPDATE pipeline_jobs SET … WHERE …: the rows, and how many were changed.
unfoldable pub update_where : (Job → Bool) → (Job → Job) → List Job → List Job
update_where p f [] = []
update_where p f (j ∷ js) = (if p j then f j else j) ∷ update_where p f js

unfoldable pub affected : (Job → Bool) → List Job → ℕ
affected p js = length (select p js)

-- An update that would break the unique index fails and changes nothing. With no row to change it
-- reports `missing`.
unfoldable pub update_jobs : Error → (Job → Bool) → (Job → Job) → Db → Result (Unit {0}) × Db
update_jobs missing p f db =
    let jobs' = update_where p f db.jobs in
    if index_ok jobs'
    then if affected p db.jobs == 0 then (err missing, db) else (ok tt, record db { jobs = jobs' })
    else (err constraint, db)

abbrev pub claimed : Bytes → Time → Job → Job
claimed worker now j = record j {
  status = running;
  worker_id = some worker;
  claimed_at = some now;
  updated_at = now;
}

abbrev pub finished : Time → Job → Job
finished now j = record j { status = done; completed_at = some now; updated_at = now }

abbrev pub after_failure : Bytes → Time → Time → Job → Job
after_failure msg next_run now j = record j {
  attempts = j.attempts + 1;
  status = if leb j.max_attempts (j.attempts + 1) then dead else queued;
  worker_id = none;
  last_error = some msg;
  next_run_at = to_micros next_run;
  updated_at = now;
}

abbrev pub advanced : Bytes → Time → Job → Job
advanced stage now j = record j {
  stage = stage;
  status = queued;
  worker_id = none;
  claimed_at = none;
  updated_at = now;
}

abbrev pub has_id : Uuid → Job → Bool
has_id id j = j.id == id

abbrev pub is_in : JobStatus → Uuid → Job → Bool
is_in s id j = j.id == id && is_status j.status s

unfoldable pub claim_stmt : Uuid → Bytes → Time → Db → Result (Unit {0}) × Db
claim_stmt id worker now = update_jobs job_not_claimable (is_in queued id) (claimed worker now)

unfoldable pub done_stmt : Uuid → Time → Db → Result (Unit {0}) × Db
done_stmt id now = update_jobs job_not_found (has_id id) (finished now)

unfoldable pub fail_stmt : Uuid → Bytes → Time → Time → Db → Result (Unit {0}) × Db
fail_stmt id msg next_run now =
    update_jobs job_not_found (has_id id) (after_failure msg next_run now)

unfoldable pub advance_stmt : Uuid → Bytes → Time → Db → Result (Unit {0}) × Db
advance_stmt id stage now = update_jobs job_not_found (is_in running id) (advanced stage now)

abbrev pub new_row : Uuid → Time → Bytes → NewJob → Job
new_row id now payload nj = record {
  id = id;
  user_id = nj.user_id;
  gmail_message_id = nj.gmail_message_id;
  stage = nj.stage;
  status = queued;
  payload = payload;
  is_synthetic = nj.is_synthetic;
  worker_id = none;
  attempts = 0;
  max_attempts = 8;
  last_error = none;
  next_run_at = now;
  claimed_at = none;
  completed_at = none;
  created_at = now;
  updated_at = now;
}

-- user_id REFERENCES users (id).
abbrev pub user_known : Option Uuid → List User → Bool
user_known none us = true
user_known (some u) us = exists (λ (x : User). x.id == u) us

-- INSERT … RETURNING: the primary key is tested, then the unique index, then the foreign key.
unfoldable pub insert_row : Job → Db → Result Job × Db
insert_row row db =
    if exists (has_id row.id) db.jobs
    then (err constraint, db)
    else if exists (clash row) db.jobs
    then (err duplicate_job, db)
    else if user_known row.user_id db.users
    then (ok row, record db { jobs = db.jobs ++ row ∷ [] })
    else (err constraint, db)

-- `payload == nil` is "{}".
abbrev pub payload_text : Option Bytes → Bytes
payload_text none = b'{' ∷ b'}' ∷ []
payload_text (some b) = b

unfoldable pub insert_stmt : (Bytes → Option Bytes) → Uuid → Time → NewJob → Db → Result Job × Db
insert_stmt jsonb id now nj db = elim (jsonb (payload_text nj.payload)) [
  | none ↦ (err bad_json, db)
  | some p ↦ insert_row (new_row id now p nj) db
]

unfoldable pub find_job : Uuid → List Job → Option Job
find_job id [] = none
find_job id (j ∷ js) = if has_id id j then some j else find_job id js

abbrev pub is_running : Job → Bool
is_running j = is_status j.status running

-- WHERE status = 'queued' AND last_error IS NOT NULL AND next_run_at <= now()
abbrev pub is_ready_retry : Time → Job → Bool
is_ready_retry now j = is_status j.status queued && is_some j.last_error && leb j.next_run_at now

-- WHERE status = 'queued' AND last_error IS NULL AND created_at < now() - threshold
abbrev pub is_stale_queued : Time → Time → Job → Bool
is_stale_queued threshold now j =
    is_status j.status queued && not (is_some j.last_error) && ltb (j.created_at + threshold) now

-- WHERE user_id = … AND gmail_message_id = …
abbrev pub is_for_message : Uuid → Bytes → Job → Bool
is_for_message u m j =
    option_eq ◌==◌ j.user_id (some u) && option_eq bytes_eq j.gmail_message_id (some m)

abbrev pub or_not_found : Option Job → Result Job
or_not_found none = err job_not_found
or_not_found (some j) = ok j

module _ (e : Env) where
  -- A statement as a command: it changes the tables only.
  abbrev pub run : {A : Type 0} → (Time → Db → Result A × Db) → M e A
  run stmt = call e λ now w. ((stmt now w.db).0, record w { db = (stmt now w.db).1 })

  abbrev pub query : {A : Type 0} → (Time → Db → A) → M e A
  query q = run λ now db. (ok (q now db), db)

  unfoldable pub enqueue_job : NewJob → M e Job
  enqueue_job nj w = run (λ now. insert_stmt e.jsonb (e.new_uuid w.calls) now nj) w

  unfoldable pub claim_job : Uuid → Bytes → M e (Unit {0})
  claim_job id worker = run (claim_stmt id worker)

  unfoldable pub mark_done : Uuid → M e (Unit {0})
  mark_done id = run (done_stmt id)

  unfoldable pub mark_failed : Uuid → Bytes → Time → M e (Unit {0})
  mark_failed id msg next_run = run (fail_stmt id msg next_run)

  unfoldable pub advance_job : Uuid → Bytes → M e (Unit {0})
  advance_job id stage = run (advance_stmt id stage)

  unfoldable pub get_job : Uuid → M e Job
  get_job id = run λ now db. (or_not_found (find_job id db.jobs), db)

  unfoldable pub list_running_jobs : M e (List Job)
  list_running_jobs = query λ now db. select is_running db.jobs

  unfoldable pub list_ready_retry_jobs : M e (List Job)
  list_ready_retry_jobs = query λ now db. select (is_ready_retry now) db.jobs

  unfoldable pub list_stale_queued_jobs : Time → M e (List Job)
  list_stale_queued_jobs threshold = query λ now db. select (is_stale_queued threshold now) db.jobs

  unfoldable pub has_job_for_message : Uuid → Bytes → M e Bool
  has_job_for_message u m = query λ now db. exists (is_for_message u m) db.jobs
