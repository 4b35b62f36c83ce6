-- ===== src/Sweeper/Invariant.antt =====
-- The invariant of the job table under the sweeper.
use dist_task_queue.Prelude.{
  inl, inr, ◌+◌, ℕ, zero, suc, Bool, true, false, Option, none, some, List, [],
}
use dist_task_queue.Prelude.Tests.{Bytes, Bool-cases, ◌==◌, if◌then◌else◌}
use dist_task_queue.Services.{Env}
use dist_task_queue.World.{
  World, M, Result, ok, err, Error, and_then_keeps, pure, for_each, for_each_keeps,
}
use dist_task_queue.Store.Types.{Job}
use dist_task_queue.Store.Jobs.{list_running_jobs, list_ready_retry_jobs, list_stale_queued_jobs}
use dist_task_queue.Store.Invariant.{InvW, mark_failed-Inv, run-Inv}
use dist_task_queue.Queue.{
  ProcessingRef, redis_call, push, is_worker_alive, list_pages, list_processing, reclaim_after,
  reclaim_loop, reclaim_processing, add_refs, processing_prefix,
}
use dist_task_queue.Worker.Invariant.{redis_call-InvW}
use dist_task_queue.Sweeper.{
  Config, if_dead, reclaim_ref, revive_held, revive_job, push_job, reclaim_refs, reclaim_pass,
  revive_orphans, promote_delayed, repush_stale, sweep_once, run, worker_died, reclaim_dead,
  fail_dead,
}

module _ (e : Env) where
  if_dead-InvW :
      (act : World e → World e) (r : Result Bool × World e)
      → ((w : World e) → InvW e w → InvW e (act w))
      → InvW e r.1
      → InvW e (if_dead e act r)
  if_dead-InvW act (ok false, w) keep v = keep w v
  if_dead-InvW act (ok true, w) keep v = v
  if_dead-InvW act (err x, w) keep v = v

  reclaim_after-InvW :
      (moved : ℕ) (again : World e → (ℕ × Option Error) × World e)
      (r : Result (Option Bytes) × World e)
      → ((w : World e) → InvW e w → InvW e (again w).1)
      → InvW e r.1
      → InvW e (reclaim_after e moved again r).1
  reclaim_after-InvW moved again (err x, w) keep v = v
  reclaim_after-InvW moved again (ok none, w) keep v = v
  reclaim_after-InvW moved again (ok (some b), w) keep v = keep w v

  reclaim_loop-InvW :
      (fuel : ℕ) (stage worker : Bytes) (moved : ℕ) (w : World e)
      → InvW e w
      → InvW e (reclaim_loop e fuel stage worker moved w).1
  unfolding reclaim_loop
  reclaim_loop-InvW zero stage worker moved w v = v
  reclaim_loop-InvW (suc fuel) stage worker moved w v =
      reclaim_after-InvW moved _ (redis_call e _ w)
        (reclaim_loop-InvW fuel stage worker (moved + 1)) (redis_call-InvW _ w v)

  is_worker_alive-InvW :
      (worker : Bytes) (w : World e) → InvW e w → InvW e (is_worker_alive e worker w).1
  unfolding is_worker_alive
  is_worker_alive-InvW worker w v = redis_call-InvW _ w v

  reclaim_dead-InvW : (r : ProcessingRef) (w : World e) → InvW e w → InvW e (reclaim_dead e r w)
  unfolding reclaim_processing
  reclaim_dead-InvW r w v = reclaim_loop-InvW _ r.stage r.worker_id 0 w v

  reclaim_ref-InvW : (r : ProcessingRef) (w : World e) → InvW e w → InvW e (reclaim_ref e r w)
  unfolding reclaim_ref
  reclaim_ref-InvW r w v =
      if_dead-InvW (reclaim_dead e r) (is_worker_alive e r.worker_id w) (reclaim_dead-InvW r)
        (is_worker_alive-InvW r.worker_id w v)

  revive_held-InvW :
      (j : Job) (o : Option Bytes) (w : World e) → InvW e w → InvW e (revive_held e j o w)
  revive_held-InvW j none w v = v
  revive_held-InvW j (some worker) w v =
      if_dead-InvW (fail_dead e j) (is_worker_alive e worker w)
        (λ u h. mark_failed-Inv e j.id worker_died (e.now u.calls) u h)
        (is_worker_alive-InvW worker w v)

  revive_job-InvW : (j : Job) (w : World e) → InvW e w → InvW e (revive_job e j w)
  unfolding revive_job
  revive_job-InvW j w v = revive_held-InvW j j.worker_id w v

  push_job-InvW : (j : Job) (w : World e) → InvW e w → InvW e (push_job e j w)
  unfolding push_job push
  push_job-InvW j w v = redis_call-InvW _ w v

  abbrev KeepsInv : {A : Type 0} → M e A → Type 0
  KeepsInv m = (w : World e) → InvW e w → InvW e (m w).1

  page-InvW :
      (page : List Bytes × ℕ) (out : List ProcessingRef) (rest : M e (Option (List ProcessingRef)))
      → KeepsInv rest
      → KeepsInv (λ w. (if page.1 == 0 then pure (some out) else rest) w)
  page-InvW page out rest keep w v = elim (Bool-cases (page.1 == 0)) [
    | inl last ↦ rw last v
    | inr more ↦ rw more (keep w v)
  ]

  list_pages-InvW :
      (fuel cursor : ℕ) (out : List ProcessingRef) → KeepsInv (list_pages e fuel cursor out)
  unfolding list_pages
  list_pages-InvW zero cursor out w v = v
  list_pages-InvW (suc fuel) cursor out w v =
      and_then_keeps (InvW e) _
        (redis_call e (λ now s. (e.redis.scan processing_prefix s cursor, s)) w)
        (redis_call-InvW _ w v)
        λ page u h.
          page-InvW page (add_refs page.0 out) (list_pages e fuel page.1 (add_refs page.0 out))
            (list_pages-InvW fuel page.1 (add_refs page.0 out)) u h

  for_each-InvW :
      {A : Type 0} (body : A → World e → World e)
      → ((x : A) (w : World e) → InvW e w → InvW e (body x w))
      → (xs : List A) (w : World e) → InvW e w
      → InvW e (for_each body xs w)
  for_each-InvW body keep xs w v = for_each_keeps (InvW e) body xs w keep v

  reclaim_refs-InvW : (o : Option (List ProcessingRef)) → KeepsInv (reclaim_refs e o)
  unfolding reclaim_refs
  reclaim_refs-InvW none w v = v
  reclaim_refs-InvW (some refs) w v = for_each-InvW (reclaim_ref e) reclaim_ref-InvW refs w v

  reclaim_pass-InvW : KeepsInv (reclaim_pass e)
  unfolding reclaim_pass list_processing
  reclaim_pass-InvW w v =
      and_then_keeps (InvW e) _ (list_processing e w) (list_pages-InvW _ 0 [] w v)
        λ o u h. reclaim_refs-InvW o u h

  revive_orphans-InvW : KeepsInv (revive_orphans e)
  unfolding revive_orphans list_running_jobs
  revive_orphans-InvW w v =
      and_then_keeps (InvW e) _ (list_running_jobs e w) (run-Inv e _ (λ t db h. h) w v)
        λ jobs u h. for_each-InvW (revive_job e) revive_job-InvW jobs u h

  promote_delayed-InvW : KeepsInv (promote_delayed e)
  unfolding promote_delayed list_ready_retry_jobs
  promote_delayed-InvW w v =
      and_then_keeps (InvW e) _ (list_ready_retry_jobs e w) (run-Inv e _ (λ t db h. h) w v)
        λ jobs u h. for_each-InvW (push_job e) push_job-InvW jobs u h

  repush_stale-InvW : (c : Config) → KeepsInv (repush_stale e c)
  unfolding repush_stale list_stale_queued_jobs
  repush_stale-InvW c w v =
      and_then_keeps (InvW e) _ (list_stale_queued_jobs e c.stale_threshold w)
        (run-Inv e _ (λ t db h. h) w v)
        λ jobs u h. for_each-InvW (push_job e) push_job-InvW jobs u h

  -- A sweep, cut short by a failed call or not, keeps the invariant of the job table, whichever of its calls fail.
  pub sweep_once-InvW : (c : Config) (w : World e) → InvW e w → InvW e (sweep_once e c w).1
  unfolding sweep_once
  sweep_once-InvW c w v =
      and_then_keeps (InvW e) _ (reclaim_pass e w) (reclaim_pass-InvW w v) λ _ w1 v1.
        and_then_keeps (InvW e) _ (revive_orphans e w1) (revive_orphans-InvW w1 v1) λ _ w2 v2.
          and_then_keeps (InvW e) _ (promote_delayed e w2) (promote_delayed-InvW w2 v2)
            λ _ w3 v3. repush_stale-InvW c w3 v3

  run-InvW : (c : Config) (ticks : ℕ) (w : World e) → InvW e w → InvW e (run e c ticks w)
  unfolding run
  run-InvW c zero w v = v
  run-InvW c (suc ticks) w v = run-InvW c ticks _ (sweep_once-InvW c w v)
