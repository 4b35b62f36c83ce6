-- ===== src/Sweeper/Orphans.antt =====
-- reviveOrphans of internal/sweeper/sweeper.go for a job whose worker lives, where no call fails.
use dist_task_queue.Prelude.{
  ◌≡◌, ◌≢◌, inl, inr, refl, sym, ap, subst, ◌∙◌, Bool, true, false, Option, none, some, List, [],
  ◌∷◌, arith,
}
use dist_task_queue.Prelude.Tests.{Bytes, ◌==◌, ==_iff, Bool-cases, Option-cases}
use dist_task_queue.Prelude.Lists.{All, All-select, select}
use dist_task_queue.Services.{Env}
use dist_task_queue.World.{World, Calm, Result, ok, tick, call_fine, for_each}
use dist_task_queue.Store.Types.{Uuid, Time, Job, Db}
use dist_task_queue.Store.Jobs.{
  update_where, affected, index_ok, update_jobs, after_failure, has_id, fail_stmt, mark_failed,
  find_job, is_running, list_running_jobs,
}
use dist_task_queue.Store.Invariant.{Inv}
use dist_task_queue.Store.Table.{picked}
use dist_task_queue.Store.Lookup.{on_some, find_job-id, find_job-update, find_job_only}
use dist_task_queue.Queue.{is_worker_alive}
use dist_task_queue.Sweeper.{if_dead, fail_dead, revive_job, revive_orphans}
use dist_task_queue.Sweeper.Reclaims.{alive_fine}
use dist_task_queue.Sweeper.Living.{Living, Living-fine}

-- A failed row of another id.
fail_stmt_other :
    (id k : Uuid) (msg : Bytes) (next now : Time) (db : Db)
    → k ≢ id
    → find_job k (fail_stmt id msg next now db).1.jobs ≡ find_job k db.jobs
unfolding fail_stmt update_jobs
fail_stmt_other id k msg next now db ne =
    let f = after_failure msg next now in
    elim (Bool-cases (index_ok (update_where (has_id id) f db.jobs))) [
      | inr broken ↦ rw broken refl
      | inl fits ↦ elim (Bool-cases (affected (has_id id) db.jobs == 0)) [
        | inl missing ↦ rw (fits, missing) refl
        | inr there ↦
            rw (fits, there)
              (find_job-update (has_id id) f (λ i. refl) k db.jobs
                ∙ untouched f (find_job k db.jobs) (λ i h. find_job-id k db.jobs i h))
      ]
    ]
  where
    untouched :
        (f : Job → Job) (o : Option Job)
        → ((i : Job) → o ≡ some i → i.id ≡ k)
        → on_some (picked (has_id id) f) o ≡ o
    untouched f none h = refl
    untouched f (some i) h = elim (Bool-cases (has_id id i)) [
      | inl here ↦ absurd (ne (sym (h i refl) ∙ (==_iff i.id id).0 here))
      | inr off ↦ rw off refl
    ]

module _ (e : Env) (calm : Calm e) (stage worker : Bytes) (k : Uuid) where
  mark_failed_other :
      (id : Uuid) (msg : Bytes) (next : Time) (w : World e)
      → k ≢ id
      → (find_job k (mark_failed e id msg next w).1.db.jobs ≡ find_job k w.db.jobs)
        × ((mark_failed e id msg next w).1.redis ≡ w.redis)
  unfolding mark_failed
  mark_failed_other id msg next w ne =
      rw (call_fine e _ w (calm _)) (fail_stmt_other id k msg next (e.now w.calls) w.db ne, refl)

  -- What a round leaves as it was.
  abbrev Kept : World e → World e → Type 0
  Kept w v = Living e calm stage worker v.redis × (find_job k v.db.jobs ≡ find_job k w.db.jobs)

  -- A row with the id has the worker.
  abbrev OwnWorker : Job → Type 0
  OwnWorker i = i.id ≡ k → i.worker_id ≡ some worker

  answers : Bool → World e → Result Bool × World e
  answers b v = (ok b, v)

  true_ne_false : (v : World e) → answers true v ≢ answers false v
  unfolding answers
  true_ne_false v h = cc

  same_worker : (x y : Bytes) → some x ≡ some y → x ≡ y
  same_worker x y h = cc

  fail_dead-Kept :
      (i : Job) (v : Bytes) (w : World e)
      → OwnWorker i
      → i.worker_id ≡ some v
      → Living e calm stage worker w.redis
      → is_worker_alive e v w ≡ (ok false, tick e w)
      → Kept w (fail_dead e i (tick e w))
  unfolding answers
  fail_dead-Kept i v w own has d gone = elim (Bool-cases (k == i.id)) [
    | inl same ↦
        let mine : v ≡ worker =
          same_worker v worker (sym has ∙ own (sym ((==_iff k i.id).0 same))) in
        absurd (
          true_ne_false (tick e w) (
            sym (Living-fine e calm stage worker w d)
            ∙ ap (λ (x : Bytes). is_worker_alive e x w) (sym mine)
            ∙ gone))
    | inr other ↦
        let (row, redis) = mark_failed_other i.id _ _ (tick e w) (λ x. ground (arith, other, x)) in
        (subst (Living e calm stage worker) (sym redis) d, row)
  ]

  revive_job-Kept :
      (i : Job) (w : World e)
      → OwnWorker i
      → Living e calm stage worker w.redis
      → Kept w (revive_job e i w)
  unfolding revive_job
  revive_job-Kept i w own d = elim (Option-cases i.worker_id) [
    | inl free ↦ rw free (d, refl)
    | inr (v, has) ↦ rw has (by_answer v has (alive_fine e calm v w).0 (alive_fine e calm v w).1)
  ]
    where
      by_answer :
          (v : Bytes)
          → i.worker_id ≡ some v
          → (b : Bool) → is_worker_alive e v w ≡ (ok b, tick e w)
          → Kept w (if_dead e (fail_dead e i) (is_worker_alive e v w))
      by_answer v has true a = rw a (d, refl)
      by_answer v has false a = rw a (fail_dead-Kept i v w own has d a)

  loop-Kept :
      (js : List Job) (w : World e)
      → All OwnWorker js
      → Living e calm stage worker w.redis
      → find_job k (for_each (revive_job e) js w).db.jobs ≡ find_job k w.db.jobs
  unfolding for_each
  loop-Kept [] w own d = refl
  loop-Kept (i ∷ js) w (own, owns) d =
      let (still, same) = revive_job-Kept i w own d in
      loop-Kept js (revive_job e i w) owns still ∙ same

  -- Where no call fails, in a well-formed table, for a job with a worker that has a heartbeat at every
  -- time that the clock shows and no list under the heartbeat's key: reviveOrphans leaves the job's row
  -- as it is, whatever it does to the jobs of other workers.
  pub revive_orphans-Living :
      (j : Job) (w : World e)
      → Inv w.db
      → find_job k w.db.jobs ≡ some j
      → j.worker_id ≡ some worker
      → Living e calm stage worker w.redis
      → find_job k (revive_orphans e w).1.db.jobs ≡ some j
  unfolding revive_orphans list_running_jobs
  revive_orphans-Living j w v h has d = rw (call_fine e _ w (calm _)) (
      loop-Kept (select is_running w.db.jobs) (tick e w)
        (All-select _ is_running w.db.jobs (owned w.db.jobs (find_job_only k w.db.jobs j v.ids h)))
        d
      ∙ h)
    where
      owned : (js : List Job) → All (λ i. has_id k i ≡ true → i ≡ j) js → All OwnWorker js
      owned [] o = tt
      owned (i ∷ js) (oi, os) =
          (λ x. ap (λ (i : Job). i.worker_id) (oi ((==_iff i.id k).1 x)) ∙ has, owned js os)
