-- ===== src/Worker/Invariant.antt =====
-- The invariant of the job table under the worker.
use dist_task_queue.Prelude.{inl, inr, ℕ, zero, suc, Bool, true, false, Option, none, some, [], ◌∷◌}
use dist_task_queue.Prelude.Tests.{Bytes, Bool-cases}
use dist_task_queue.Services.{Env}
use dist_task_queue.World.{
  World, Result, ok, err, Error, empty, job_not_claimable, call_cases, post_claim, and_then_keeps,
}
use dist_task_queue.Store.Types.{Uuid, Time, Job}
use dist_task_queue.Store.Jobs.{get_job}
use dist_task_queue.Store.Invariant.{
  InvW, claim_job-Inv, mark_done-Inv, mark_failed-Inv, advance_job-Inv, run-Inv,
}
use dist_task_queue.Queue.{redis_call, push, ack, blocking_pop, heartbeat, or_empty}
use dist_task_queue.Worker.Process.{
  Config, settled, pushed, on_advanced, settle, settle_failure, settle_advance, on_job,
  handle_claimed, on_claimed, claim_and_handle, on_parsed, process_popped, acked, on_popped,
  process_one, on_round, run_loop, run, heartbeat_ticks, heartbeat_loop,
}

module _ {e : Env} where
  pub redis_call-InvW :
      {A : Type 0} (op : Time → e.redis.State → A × e.redis.State) (w : World e)
      → InvW e w
      → InvW e (redis_call e op w).1
  redis_call-InvW op w v = call_cases e (InvW e) _ w v v

module _ {e : Env} (c : Config e)
    (handler-InvW : (j : Job) (w : World e) → InvW e w → InvW e (c.handler j w).1) where
  settled-InvW : (r : Result (Unit {0}) × World e) → InvW e r.1 → InvW e (settled r).1
  settled-InvW (ok u, w) v = v
  settled-InvW (err x, w) v = v

  pushed-InvW : (r : Result (Unit {0}) × World e) → InvW e r.1 → InvW e (pushed c r).1
  pushed-InvW (ok u, w) v = v
  pushed-InvW (err x, w) v = v

  on_advanced-InvW :
      (id : Uuid) (next : Bytes) (r : Result (Unit {0}) × World e)
      → InvW e r.1
      → InvW e (on_advanced c id next r).1
  unfolding push
  on_advanced-InvW id next (err x, w) v = v
  on_advanced-InvW id next (ok u, w) v = pushed-InvW _ (redis_call-InvW _ w v)

  settle-InvW :
      (id : Uuid) (j : Job) (a : (Bytes × Option Bytes) × World e)
      → InvW e a.1
      → InvW e (settle c id j a).1
  unfolding settle settle_failure settle_advance
  settle-InvW id j ((next, some msg), w) v = settled-InvW _ (mark_failed-Inv e id msg _ w v)
  settle-InvW id j (([], none), w) v = settled-InvW _ (mark_done-Inv e id w v)
  settle-InvW id j ((b ∷ next, none), w) v =
      on_advanced-InvW id (b ∷ next) _ (advance_job-Inv e id (b ∷ next) w v)

  on_job-InvW : (id : Uuid) (r : Result Job × World e) → InvW e r.1 → InvW e (on_job c id r).1
  on_job-InvW id (err x, w) v = v
  on_job-InvW id (ok j, w) v = settle-InvW id j (c.handler j w) (handler-InvW j w v)

  handle_claimed-InvW : (id : Uuid) (w : World e) → InvW e w → InvW e (handle_claimed c id w).1
  unfolding handle_claimed get_job
  handle_claimed-InvW id w v = on_job-InvW id _ (run-Inv e _ (λ t db h. h) w v)

  on_claimed-InvW :
      (id : Uuid) (r : Result (Unit {0}) × World e) → InvW e r.1 → InvW e (on_claimed c id r).1
  on_claimed-InvW id (ok u, w) v = handle_claimed-InvW id w v
  on_claimed-InvW id (err job_not_claimable, w) v = v
  on_claimed-InvW id (err _, w) v = v

  on_parsed-InvW : (o : Option Uuid) (w : World e) → InvW e w → InvW e (on_parsed c o w).1
  unfolding claim_and_handle
  on_parsed-InvW none w v = v
  on_parsed-InvW (some id) w v = on_claimed-InvW id _ (claim_job-Inv e id c.worker_id w v)

  acked-InvW : (raw : Bytes) (r : Result Bool × World e) → InvW e r.1 → InvW e (acked c raw r).1
  unfolding ack
  acked-InvW raw (r, w) v = redis_call-InvW _ w v

  on_popped-InvW : (r : Result Bytes × World e) → InvW e r.1 → InvW e (on_popped c r).1
  unfolding process_popped
  on_popped-InvW (ok raw, w) v =
      acked-InvW raw (on_parsed c (e.parse_uuid raw) w) (on_parsed-InvW (e.parse_uuid raw) w v)
  on_popped-InvW (err empty, w) v = v
  on_popped-InvW (err _, w) v = v

  blocking_pop-InvW :
      (stage worker : Bytes) (w : World e) → InvW e w → InvW e (blocking_pop e stage worker w).1
  unfolding blocking_pop
  blocking_pop-InvW stage worker w v =
      and_then_keeps (InvW e) (or_empty e) _ (redis_call-InvW _ w v) or_empty-InvW
    where
      or_empty-InvW : (o : Option Bytes) (u : World e) → InvW e u → InvW e (or_empty e o u).1
      or_empty-InvW none u h = h
      or_empty-InvW (some x) u h = h

  -- One round of a worker keeps the invariant of the job table, whichever of its calls fail, if the
  -- handler's own writes do.
  pub process_one-InvW : (w : World e) → InvW e w → InvW e (process_one c w).1
  unfolding process_one
  process_one-InvW w v = on_popped-InvW _ (blocking_pop-InvW c.stage c.worker_id w v)

  on_round-InvW :
      (again : World e → Option Error × World e) (cancelled : Bool) (r : Result Bool × World e)
      → ((w : World e) → InvW e w → InvW e (again w).1)
      → InvW e r.1
      → InvW e (on_round c again cancelled r).1
  on_round-InvW again cancelled (ok b, w) keep v = keep w v
  on_round-InvW again true (err x, w) keep v = v
  on_round-InvW again false (err (post_claim x), w) keep v = v
  on_round-InvW again false (err _, w) keep v = keep w v

  run_loop-InvW :
      (rounds : ℕ) (cancelled : ℕ → Bool) (w : World e)
      → InvW e w
      → InvW e (run_loop c rounds cancelled w).1
  unfolding run_loop
  run_loop-InvW zero cancelled w v = v
  run_loop-InvW (suc rounds) cancelled w v = elim (Bool-cases (cancelled w.calls)) [
    | inl stop ↦ rw (stop, run_loop) v
    | inr on ↦
        rw (on, run_loop)
          (on_round-InvW _ (cancelled (process_one c w).1.calls) (process_one c w)
            (run_loop-InvW rounds cancelled) (process_one-InvW w v))
  ]

  -- A worker's run of any number of rounds keeps the invariant of the job table, whichever calls
  -- fail and whenever it is cancelled, if the handler's own writes do.
  pub run-InvW :
      (rounds : ℕ) (cancelled : ℕ → Bool) (w : World e)
      → InvW e w
      → InvW e (run c rounds cancelled w).1
  unfolding run heartbeat
  run-InvW rounds cancelled w v = run_loop-InvW rounds cancelled _ (redis_call-InvW _ w v)

  heartbeat_ticks-InvW : (ticks : ℕ) (w : World e) → InvW e w → InvW e (heartbeat_ticks c ticks w)
  unfolding heartbeat_ticks heartbeat
  heartbeat_ticks-InvW zero w v = v
  heartbeat_ticks-InvW (suc ticks) w v = heartbeat_ticks-InvW ticks _ (redis_call-InvW _ w v)

  heartbeat_loop-InvW : (ticks : ℕ) (w : World e) → InvW e w → InvW e (heartbeat_loop c ticks w)
  unfolding heartbeat_loop heartbeat
  heartbeat_loop-InvW ticks w v = heartbeat_ticks-InvW ticks _ (redis_call-InvW _ w v)
