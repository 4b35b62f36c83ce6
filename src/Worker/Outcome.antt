-- ===== src/Worker/Outcome.antt =====
-- What ProcessOne makes of a popped job, branch by branch, where no call fails.
use dist_task_queue.Prelude.{suc, ◌+◌, ◌≡◌, ◌≢◌, refl, true, Option, none, some, [], ◌∷◌, arith}
use dist_task_queue.Prelude.Tests.{Bytes}
use dist_task_queue.Services.{Env}
use dist_task_queue.World.{World, Calm, Result, ok, call_fine}
use dist_task_queue.Store.Types.{Uuid, Time, queued, running, Job, Db}
use dist_task_queue.Store.Jobs.{
  run, claimed, finished, after_failure, advanced, claim_stmt, done_stmt, fail_stmt, advance_stmt,
  claim_job, get_job, or_not_found, mark_done, mark_failed, advance_job, find_job,
}
use dist_task_queue.Store.Invariant.{Inv, claim_stmt-Inv}
use dist_task_queue.Store.Lookup.{Becomes}
use dist_task_queue.Store.Statements.{
  claim_stmt-Done, claim_stmt_refused, advance_stmt-Done, done_stmt-Done, fail_stmt-Done,
}
use dist_task_queue.Queue.{key, push}
use dist_task_queue.Worker.Backoff.{compute}
use dist_task_queue.Worker.Process.{
  Config, settle, settle_failure, settle_advance, handle_claimed, claim_and_handle, process_popped,
}

module _ {e : Env} where
  -- The world behind a statement that reached the database.
  abbrev pub ran : {A : Type 0} → (Time → Db → Result A × Db) → World e → World e
  ran stmt w = record w { db = (stmt (e.now w.calls) w.db).1; calls = suc w.calls }

  run_calm :
      Calm e
      → {A : Type 0} (stmt : Time → Db → Result A × Db) (w : World e)
      → run e stmt w ≡ ((stmt (e.now w.calls) w.db).0, ran stmt w)
  run_calm calm stmt w = rw (call_fine e _ w (calm _)) refl

module _ {e : Env} (c : Config e) where
  -- The row that a handler's answer leads to, for the row `j` that the worker holds.
  abbrev pub next_row : Bytes × Option Bytes → Job → World e → Job
  next_row (next, some msg) j w =
      after_failure msg (e.now w.calls + compute (c.jitter w.calls) (j.attempts + 1))
        (e.now w.calls) j
  next_row ([], none) j w = finished (e.now w.calls) j
  next_row (b ∷ next, none) j w = advanced (b ∷ next) (e.now w.calls) j

  -- An advanced job is pushed to its next stage, and nothing else.
  abbrev pub next_redis : Bytes × Option Bytes → Uuid → e.redis.State → e.redis.State
  next_redis (next, some msg) id s = s
  next_redis ([], none) id s = s
  next_redis (b ∷ next, none) id s = e.redis.lpush (key (b ∷ next)) (e.format_uuid id) s

  module _ (calm : Calm e) (id : Uuid) (j : Job) where
    pub settle_lem :
        (answer : Bytes × Option Bytes) (w : World e)
        → Inv w.db
        → find_job id w.db.jobs ≡ some j
        → j.status ≡ running
        → ((settle c id j (answer, w)).0 ≡ ok true)
          × Becomes id (next_row answer j w) w.db (settle c id j (answer, w)).1.db
          × ((settle c id j (answer, w)).1.redis ≡ next_redis answer id w.redis)
    unfolding settle settle_failure settle_advance mark_done mark_failed advance_job push
    settle_lem (next, some msg) w v h s =
        let t = e.now w.calls in
        let n = e.now w.calls + compute (c.jitter w.calls) (j.attempts + 1) in
        let (done, become) = fail_stmt-Done id t w.db v j h msg n (ground arith) in
        rw (run_calm calm (fail_stmt id msg n) w, done) (refl, become, refl)
    settle_lem ([], none) w v h s =
        let (done, become) = done_stmt-Done id (e.now w.calls) w.db v j h in
        rw (run_calm calm (done_stmt id) w, done) (refl, become, refl)
    settle_lem (b ∷ next, none) w v h s =
        let (done, become) = advance_stmt-Done id (e.now w.calls) w.db v j h (b ∷ next) s in
        rw
          (
            run_calm calm (advance_stmt id (b ∷ next)) w,
            done,
            call_fine e _ (ran (advance_stmt id (b ∷ next)) w) (calm _),
          )
          (refl, become, refl)

-- A handler that calls neither Redis nor Postgres, as NoopHandler, or that leaves them as they were.
abbrev pub Quiet : {e : Env} → Config e → Type 0
Quiet {e} c =
    (j : Job) (w : World e) → ((c.handler j w).1.db ≡ w.db) × ((c.handler j w).1.redis ≡ w.redis)

Becomes-trans :
    (id : Uuid) (i j : Job) (a b d : Db) → Becomes id i a b → Becomes id j b d → Becomes id j a d
Becomes-trans id i j a b d hi hj k = ground (arith, hi k, hj k)

module _ {e : Env} (c : Config e) (calm : Calm e) (id : Uuid) (j : Job) where
  -- The row that the worker holds behind its claim, and the world in which the handler starts.
  abbrev pub held_row : World e → Job
  held_row w = claimed c.worker_id (e.now w.calls) j

  abbrev pub claimed_world : World e → World e
  claimed_world w = record w {
    db = (claim_stmt id c.worker_id (e.now w.calls) w.db).1;
    calls = suc (suc w.calls);
  }

  abbrev pub answer : World e → (Bytes × Option Bytes) × World e
  answer w = c.handler (held_row w) (claimed_world w)

  module _ (w : World e) (v : Inv w.db) (h : find_job id w.db.jobs ≡ some j) where
    module _ (s : j.status ≡ queued) where
      claim : Becomes id (held_row w) w.db (claimed_world w).db
      claim = (claim_stmt-Done id (e.now w.calls) w.db v j h c.worker_id s).1

      held_found : find_job id (claimed_world w).db.jobs ≡ some (held_row w)
      held_found = ground (arith, claim id)

      claim_and_handle_step : claim_and_handle c id w ≡ settle c id (held_row w) (answer w)
      unfolding claim_and_handle claim_job handle_claimed get_job
      claim_and_handle_step =
          rw
            (
              run_calm calm (claim_stmt id c.worker_id) w,
              (claim_stmt-Done id (e.now w.calls) w.db v j h c.worker_id s).0,
            )
            (rw
              (
                run_calm calm (λ now db. (or_not_found (find_job id db.jobs), db))
                    (ran (claim_stmt id c.worker_id) w),
                held_found,
              )
              refl)

      -- A popped job that is queued is claimed and handled, and its row goes where the answer says.
      pub process_popped_lem :
          Quiet c
          → (raw : Bytes) → e.parse_uuid raw ≡ some id
          → ((process_popped c raw w).0 ≡ ok true)
            × Becomes id
                (next_row c (answer w).0 (held_row w) (answer w).1)
                w.db
                (process_popped c raw w).1.db
            × ((process_popped c raw w).1.redis ≡ next_redis c (answer w).0 id w.redis)
      unfolding process_popped
      process_popped_lem quiet raw hp =
          let (qd, qr) = quiet (held_row w) (claimed_world w) in
          let (done, become, redis) =
            settle_lem c calm id (held_row w) (answer w).0 (answer w).1
              (rw qd (claim_stmt-Inv id c.worker_id _ w.db v)) (rw qd held_found) refl in
          rw (hp, claim_and_handle_step)
            (
              done,
              Becomes-trans id (held_row w) _ w.db (claimed_world w).db
                  (settle c id (held_row w) (answer w)).1.db claim (rw qd at become),
              rw qr at redis,
            )

    -- One that is not queued any more was claimed by another worker, and is let go.
    pub process_popped_lost :
        j.status ≢ queued
        → (raw : Bytes) → e.parse_uuid raw ≡ some id
        → process_popped c raw w ≡ (ok true, record w { calls = suc w.calls })
    unfolding process_popped claim_and_handle claim_job
    process_popped_lost s raw hp =
        rw
          (
            hp,
            run_calm calm (claim_stmt id c.worker_id) w,
            claim_stmt_refused id (e.now w.calls) w.db v j h c.worker_id s,
          )
          refl
