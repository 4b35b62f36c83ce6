-- ===== src/Sweeper.antt =====
-- internal/sweeper/sweeper.go. A failure of one item is logged and the loop goes on.
pub mod Invariant
pub mod Living
pub mod Orphans
pub mod Pushes
pub mod Reclaims
use dist_task_queue.Prelude.{ℕ, zero, suc, true, false, Option, none, some, List, [], ◌∷◌, Bool}
use dist_task_queue.Prelude.Tests.{Bytes, ◌==◌, if◌then◌else◌}
use dist_task_queue.Services.{Env}
use dist_task_queue.World.{World, M, for_each, Result, ok, err, io, ◌>>=◌, ◌>>◌}
use dist_task_queue.Store.Types.{Time, Job}
use dist_task_queue.Store.Jobs.{
  mark_failed, list_running_jobs, list_ready_retry_jobs, list_stale_queued_jobs,
}
use dist_task_queue.Queue.{
  ProcessingRef, push, is_worker_alive, list_processing, reclaim_processing,
}

pub record Config : Type 0 where
  pub interval : Time
  pub stale_threshold : Time

-- `New` fills in 5 s and 60 s.
unfoldable pub new : Config → Config
new c = record {
  interval = if c.interval == 0 then 5000000000 else c.interval;
  stale_threshold = if c.stale_threshold == 0 then 60000000000 else c.stale_threshold;
}

-- "worker died"
abbrev pub worker_died : Bytes
worker_died = b'w' ∷ b'o' ∷ b'r' ∷ b'k' ∷ b'e' ∷ b'r' ∷ b' ' ∷ b'd' ∷ b'i' ∷ b'e' ∷ b'd' ∷ []

module _ (e : Env) where
  -- `if err != nil { continue }; if alive { continue }`, and what is done for a dead worker.
  abbrev pub if_dead : (World e → World e) → Result Bool × World e → World e
  if_dead act (ok false, w) = act w
  if_dead act (ok true, w) = w
  if_dead act (err x, w) = w

  abbrev pub reclaim_dead : ProcessingRef → World e → World e
  reclaim_dead ref w = (reclaim_processing e ref.stage ref.worker_id w).1

  abbrev pub fail_dead : Job → World e → World e
  fail_dead j w = (mark_failed e j.id worker_died (e.now w.calls) w).1

  -- One processing list: moved back to the queue if its worker's heartbeat is gone.
  unfoldable pub reclaim_ref : ProcessingRef → World e → World e
  reclaim_ref ref w = if_dead (reclaim_dead ref) (is_worker_alive e ref.worker_id w)

  abbrev pub revive_held : Job → Option Bytes → World e → World e
  revive_held j none w = w
  revive_held j (some worker) w = if_dead (fail_dead j) (is_worker_alive e worker w)

  -- One running job: failed on behalf of its worker if the worker's heartbeat is gone.
  unfoldable pub revive_job : Job → World e → World e
  revive_job j w = revive_held j j.worker_id w

  unfoldable pub push_job : Job → World e → World e
  push_job j w = (push e j.stage (e.format_uuid j.id) w).1

  -- The cases of `err != nil` and of a SCAN that does not end stop a pass.
  unfoldable pub reclaim_refs : Option (List ProcessingRef) → M e (Unit {0})
  reclaim_refs none w = (err io, w)
  reclaim_refs (some refs) w = (ok tt, for_each reclaim_ref refs w)

  unfoldable pub reclaim_pass : M e (Unit {0})
  reclaim_pass = do refs ← list_processing e; reclaim_refs refs

  unfoldable pub revive_orphans : M e (Unit {0})
  revive_orphans = do running ← list_running_jobs e; λ w. (ok tt, for_each revive_job running w)

  unfoldable pub promote_delayed : M e (Unit {0})
  promote_delayed = do ready ← list_ready_retry_jobs e; λ w. (ok tt, for_each push_job ready w)

  unfoldable pub repush_stale : Config → M e (Unit {0})
  repush_stale c = do
    stale ← list_stale_queued_jobs e c.stale_threshold
    λ w. (ok tt, for_each push_job stale w)

  unfoldable pub sweep_once : Config → M e (Unit {0})
  sweep_once c = do reclaim_pass; revive_orphans; promote_delayed; repush_stale c

  -- Run, for a number of ticks: an error is logged, and the next tick sweeps again.
  unfoldable pub run : Config → ℕ → World e → World e
  run c zero w = w
  run c (suc ticks) w = run c ticks (sweep_once c w).1
