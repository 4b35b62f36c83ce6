-- ===== src/Api/Batch.antt =====
-- What enqueueSynthetic of internal/api/demo.go leaves in the table and in the queue, whichever of its
-- calls fail.
use dist_task_queue.Prelude.{
  ℕ, zero, suc, ap, ◌+◌, ◌≤◌, ◌≡◌, refl, Option, [], ◌∷◌, arith, inl, inr,
}
use dist_task_queue.Prelude.Tests.{Bytes, bytes_eq_refl, Bool-cases, Option-cases}
use dist_task_queue.Prelude.Lists.{length, length-append, exists}
use dist_task_queue.Services.{Env, Fault, fine, lost, late}
use dist_task_queue.World.{World, Result, ok, err, call}
use dist_task_queue.Store.Types.{Uuid, Time, Job, NewJob, Db}
use dist_task_queue.Store.Jobs.{
  enqueue_job, insert_stmt, insert_row, payload_text, has_id, clash, user_known, new_row,
}
use dist_task_queue.Queue.{key, push}
use dist_task_queue.Queue.Moves.{waiting}
use dist_task_queue.Api.Demo.{
  on_pushed, on_inserted, enqueue_loop, enqueue_synthetic, synthetic_job,
}

-- A number that is `least` to `most` more than another.
abbrev Between : ℕ → ℕ → ℕ → ℕ → Type 0
Between least most n m = (n + least ≤ m) × (m ≤ n + most)

abbrev rows : Db → ℕ
rows db = length db.jobs

-- What an insert does: one row more with an answer, and none without.
abbrev Inserted : Db → Result Job × Db → Type 0
Inserted db (ok j, db2) = rows db2 ≡ rows db + 1
Inserted db (err x, db2) = db2 ≡ db

insert_row-Inserted : (row : Job) (db : Db) → Inserted db (insert_row row db)
unfolding insert_row
insert_row-Inserted row db = elim (Bool-cases (exists (has_id row.id) db.jobs)) [
  | inl there ↦ rw there refl
  | inr absent ↦ elim (Bool-cases (exists (clash row) db.jobs)) [
    | inl there ↦ rw (absent, there) refl
    | inr apart ↦ elim (Bool-cases (user_known row.user_id db.users)) [
      | inl known ↦ rw (absent, apart, known) (length-append db.jobs (row ∷ []))
      | inr unknown ↦ rw (absent, apart, unknown) refl
    ]
  ]
]

insert_stmt-Inserted :
    (jsonb : Bytes → Option Bytes) (id : Uuid) (now : Time) (nj : NewJob) (db : Db)
    → Inserted db (insert_stmt jsonb id now nj db)
unfolding insert_stmt
insert_stmt-Inserted jsonb id now nj db = elim (Option-cases (jsonb (payload_text nj.payload))) [
  | inl bad ↦ rw (Inserted, insert_stmt, bad) refl
  | inr (p, good) ↦ rw (Inserted, insert_stmt, good) (insert_row-Inserted (new_row id now p nj) db)
]

Inserted-Between :
    (db : Db) (r : Result Job × Db) → Inserted db r → Between 0 1 (rows db) (rows r.1)
Inserted-Between db (ok j, db2) h = (omega (arith, h), omega (arith, h))
Inserted-Between db (err x, db2) h = (omega (arith, ap rows h), omega (arith, ap rows h))

module _ (e : Env) (stage : Bytes) where
  abbrev queued_jobs : World e → ℕ
  queued_jobs w = length (waiting stage w)

  -- Between so many rows, and so many waiting jobs, more than before.
  abbrev Grown : ℕ → ℕ → World e → World e → Type 0
  Grown least most w v =
      Between least most (rows w.db) (rows v.db)
      × Between least most (queued_jobs w) (queued_jobs v)

  -- An insert leaves the queues, and an answer is a row more.
  abbrev Enqueued : World e → Result Job × World e → Type 0
  Enqueued w (r, v) =
      (v.redis ≡ w.redis)
      × Between 0 1 (rows w.db) (rows v.db)
      × ((j : Job) → r ≡ ok j → rows v.db ≡ rows w.db + 1)

  by_answer :
      (db : Db) (r : Result Job × Db)
      → Inserted db r
      → (j : Job) → r.0 ≡ ok j
      → rows r.1 ≡ rows db + 1
  by_answer db (ok i, db2) h j a = h
  by_answer db (err x, db2) h j a = cc

  enqueue_job-Enqueued : (nj : NewJob) (w : World e) → Enqueued w (enqueue_job e nj w)
  unfolding enqueue_job call
  enqueue_job-Enqueued nj w = by_fault (e.fault w.calls) refl
    where
      inserted : Inserted w.db (insert_stmt e.jsonb (e.new_uuid w.calls) (e.now w.calls) nj w.db)
      inserted = insert_stmt-Inserted e.jsonb (e.new_uuid w.calls) (e.now w.calls) nj w.db

      by_fault : (f : Fault) → e.fault w.calls ≡ f → Enqueued w (enqueue_job e nj w)
      by_fault fine h =
          rw (enqueue_job, call, h)
            (refl, Inserted-Between w.db _ inserted, by_answer w.db _ inserted)
      by_fault lost h = rw (enqueue_job, call, h) (refl, (omega arith, omega arith), λ j a. cc)
      by_fault late h =
          rw (enqueue_job, call, h) (refl, Inserted-Between w.db _ inserted, λ j a. cc)

  -- A push leaves the tables, and a success is a waiting job more.
  abbrev Pushed : World e → Result (Unit {0}) × World e → Type 0
  Pushed w (r, v) =
      (v.db ≡ w.db)
      × Between 0 1 (queued_jobs w) (queued_jobs v)
      × (r ≡ ok tt → queued_jobs v ≡ queued_jobs w + 1)

  push-Pushed : (job : Bytes) (w : World e) → Pushed w (push e stage job w)
  unfolding push call
  push-Pushed job w = by_fault (e.fault w.calls) refl
    where
      longer :
          length (e.redis.lrange (key stage) (e.redis.lpush (key stage) job w.redis))
          ≡ queued_jobs w + 1
      longer =
          rw (e.redis.lrange-lpush (key stage) job (key stage) w.redis, bytes_eq_refl (key stage))
            (omega arith)

      by_fault : (f : Fault) → e.fault w.calls ≡ f → Pushed w (push e stage job w)
      by_fault fine h =
          rw (push, call, h) (refl, (omega (arith, longer), omega (arith, longer)), λ a. longer)
      by_fault lost h = rw (push, call, h) (refl, (omega arith, omega arith), λ a. cc)
      by_fault late h =
          rw (push, call, h) (refl, (omega (arith, longer), omega (arith, longer)), λ a. cc)

  -- What holds of the count and of the world behind some rounds.
  abbrev Counted : ℕ → ℕ → World e → ℕ × World e → Type 0
  Counted most pushed w (n, v) = (k : ℕ) × (n ≡ pushed + k) × (k ≤ most) × Grown k most w v

  on_pushed-Counted :
      (pushed : ℕ) (w u : World e) (r : Result (Unit {0}) × World e)
      → u.redis ≡ w.redis
      → rows u.db ≡ rows w.db + 1
      → Pushed u r
      → Counted 1 pushed w (on_pushed e stage pushed r)
  on_pushed-Counted pushed w u (ok done, v) s more (same, (low, high), sure) =
      let grown = rw s at (sure refl) in
      (
        1,
        refl,
        omega arith,
        (
          (rw same (omega (arith, more)), rw same (omega (arith, more))),
          (omega (arith, grown), omega (arith, grown)),
        ),
      )
  on_pushed-Counted pushed w u (err x, v) s more (same, (low, high), sure) =
      let low2 = rw s at low in
      let high2 = rw s at high in
      (
        0,
        omega arith,
        omega arith,
        (
          (rw same (omega (arith, more)), rw same (omega (arith, more))),
          (omega (arith, low2), omega (arith, high2)),
        ),
      )

  on_inserted-Counted :
      (pushed : ℕ) (w : World e) (r : Result Job × World e)
      → Enqueued w r
      → Counted 1 pushed w (on_inserted e stage pushed r)
  on_inserted-Counted pushed w (ok j, u) (same, between, sure) =
      on_pushed-Counted pushed w u (push e stage (e.format_uuid j.id) u) same (sure j refl)
        (push-Pushed (e.format_uuid j.id) u)
  on_inserted-Counted pushed w (err x, u) (same, between, sure) =
      (0, omega arith, omega arith, (between, rw same (omega arith, omega arith)))

  enqueue_loop-Counted :
      (n : ℕ) (payload : Bytes) (pushed : ℕ) (w : World e)
      → Counted n pushed w (enqueue_loop e stage n payload pushed w)
  unfolding enqueue_loop
  enqueue_loop-Counted zero payload pushed w =
      (0, omega arith, omega arith, ((omega arith, omega arith), (omega arith, omega arith)))
  enqueue_loop-Counted (suc n) payload pushed w =
      let r = enqueue_job e (synthetic_job stage payload) w in
      let next = on_inserted e stage pushed r in
      let (k, count, few, ((db_low, db_high), (low, high))) =
        on_inserted-Counted pushed w r (enqueue_job-Enqueued (synthetic_job stage payload) w) in
      let (k2, count2, few2, ((db_low2, db_high2), (low2, high2))) =
        enqueue_loop-Counted n payload next.0 next.1 in
      (
        k + k2,
        omega (arith, count, count2),
        omega (arith, few, few2),
        (
          (omega (arith, db_low, db_low2), omega (arith, db_high, db_high2)),
          (omega (arith, low, low2), omega (arith, high, high2)),
        ),
      )

  -- Whichever of its calls fail: a batch of n synthetic jobs reports at most n as enqueued, and at least
  -- as many rows as it reports, and at most n, are new in the job table, and so are the jobs that wait
  -- in the stage's queue.
  pub enqueue_synthetic_lem :
      (n : ℕ) (payload : Bytes) (w : World e)
      → let (reported, v) = enqueue_synthetic e stage n payload w in
        (reported ≤ n)
        × (length w.db.jobs + reported ≤ length v.db.jobs)
        × (length v.db.jobs ≤ length w.db.jobs + n)
        × (length (waiting stage w) + reported ≤ length (waiting stage v))
        × (length (waiting stage v) ≤ length (waiting stage w) + n)
  unfolding enqueue_synthetic
  enqueue_synthetic_lem n payload w =
      let (k, count, few, ((db_low, db_high), (low, high))) = enqueue_loop-Counted n payload 0 w in
      (
        omega (arith, count, few),
        omega (arith, count, db_low),
        db_high,
        omega (arith, count, low),
        high,
      )
