-- ===== src/Queue/Moves.antt =====
-- The jobs that wait and the jobs that are held, under each operation of the queue.
use mathlib.Core.List.{Perm, perm_append_comm}
use mathlib.Core.List.Perm
use dist_task_queue.Prelude.{ℕ, zero, suc, ◌+◌, ◌≢◌, Option, none, some, List, ◌++◌}
use dist_task_queue.Prelude.Tests.{Bytes}
use dist_task_queue.Services.Lists.{lmove_perm}
use dist_task_queue.Services.{Env, left, right}
use dist_task_queue.World.{World, ok, err, Error, call_cases, Result, and_then_keeps}
use dist_task_queue.Queue.{
  key, processing_key, redis_call, blocking_pop, reclaim_loop, reclaim_processing, or_empty,
  reclaim_after,
}
use dist_task_queue.Queue.Keys.{key-ne-processing_key, processing_key-ne-key}

module _ {e : Env} where
  -- The waiting jobs of a stage, next one last; and the jobs that a worker holds, newest first.
  abbrev pub waiting : Bytes → World e → List Bytes
  waiting stage w = e.redis.lrange (key stage) w.redis

  abbrev pub held : Bytes → Bytes → World e → List Bytes
  held stage worker w = e.redis.lrange (processing_key stage worker) w.redis

  -- Both together.
  abbrev pub in_redis : Bytes → Bytes → World e → List Bytes
  in_redis stage worker w = waiting stage w ++ held stage worker w

perm_crossed : (xs ys us vs : List Bytes) → Perm (xs ++ ys) (us ++ vs) → Perm (ys ++ xs) (vs ++ us)
perm_crossed xs ys us vs h =
    Perm.trans (perm_append_comm ys xs) (Perm.trans h (perm_append_comm us vs))

module _ (e : Env) (stage worker : Bytes) where
  pop_ne : key stage ≢ processing_key stage worker
  pop_ne = key-ne-processing_key stage stage worker

  reclaim_ne : processing_key stage worker ≢ key stage
  reclaim_ne = processing_key-ne-key stage stage worker

  -- Whatever becomes of the call, the jobs waiting for the stage and held by the worker are the same
  -- behind a pop as before, up to order.
  pub blocking_pop_perm :
      (w : World e)
      → Perm (in_redis stage worker (blocking_pop e stage worker w).1) (in_redis stage worker w)
  unfolding blocking_pop
  blocking_pop_perm w =
      and_then_keeps (λ v. Perm (in_redis stage worker v) (in_redis stage worker w)) (or_empty e) _
        (call_cases e (λ v. Perm (in_redis stage worker v) (in_redis stage worker w)) _ w
          (Perm.refl _) (lmove_perm e.redis left _ _ pop_ne w.redis))
        or_empty_keeps
    where
      or_empty_keeps :
          (o : Option Bytes) (v : World e)
          → Perm (in_redis stage worker v) (in_redis stage worker w)
          → Perm (in_redis stage worker (or_empty e o v).1) (in_redis stage worker w)
      or_empty_keeps none v h = h
      or_empty_keeps (some x) v h = h

  -- One LMOVE of a reclaim.
  abbrev pub give_back : World e → Result (Option Bytes) × World e
  give_back = redis_call e λ now. e.redis.lmove right (processing_key stage worker) (key stage)

  give_back_perm :
      (w : World e) → Perm (in_redis stage worker (give_back w).1) (in_redis stage worker w)
  give_back_perm w =
      call_cases e (λ v. Perm (in_redis stage worker v) (in_redis stage worker w)) _ w (Perm.refl _)
        (perm_crossed
          (e.redis.lrange (processing_key stage worker)
            (e.redis.lmove right (processing_key stage worker) (key stage) w.redis).1)
          (e.redis.lrange (key stage)
            (e.redis.lmove right (processing_key stage worker) (key stage) w.redis).1)
          (held stage worker w) (waiting stage w) (lmove_perm e.redis right _ _ reclaim_ne w.redis))

  reclaim_after_keeps :
      (P : World e → Type 0) (moved : ℕ) (again : World e → (ℕ × Option Error) × World e)
      (r : Result (Option Bytes) × World e)
      → P r.1
      → ((w : World e) → P w → P (again w).1)
      → P (reclaim_after e moved again r).1
  reclaim_after_keeps P moved again (err x, w) h keep = h
  reclaim_after_keeps P moved again (ok none, w) h keep = h
  reclaim_after_keeps P moved again (ok (some v), w) h keep = keep w h

  reclaim_loop_perm :
      (fuel moved : ℕ) (w : World e)
      → Perm
          (in_redis stage worker (reclaim_loop e fuel stage worker moved w).1)
          (in_redis stage worker w)
  unfolding reclaim_loop
  reclaim_loop_perm zero moved w = Perm.refl _
  reclaim_loop_perm (suc fuel) moved w =
      reclaim_after_keeps (λ v. Perm (in_redis stage worker v) (in_redis stage worker w)) moved _ _
        (give_back_perm w) λ v h. Perm.trans (reclaim_loop_perm fuel (moved + 1) v) h

  -- Whichever of its calls fail, the jobs waiting for the stage and held by the worker are the same
  -- behind a reclaim as before, up to order.
  pub reclaim_processing_perm :
      (w : World e)
      → Perm
          (in_redis stage worker (reclaim_processing e stage worker w).1)
          (in_redis stage worker w)
  unfolding reclaim_processing
  reclaim_processing_perm w = reclaim_loop_perm _ 0 w
