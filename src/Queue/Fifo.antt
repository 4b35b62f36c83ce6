-- ===== src/Queue/Fifo.antt =====
-- The queue of a stage against a first-in first-out queue, where no call fails.
use mathlib.Core.List.{reverse, reverse-append, reverse-cons}
use dist_task_queue.Prelude.{suc, ◌≡◌, ◌≢◌, ◌⊎◌, refl, ap, List, [], ◌∷◌, ◌++◌, inl, inr}
use dist_task_queue.Prelude.Tests.{Bytes, bytes_eq_refl}
use dist_task_queue.Prelude.Lists.{List-snoc}
use dist_task_queue.Services.Lists.{lmove_source, lmove_target}
use dist_task_queue.Services.{Env, left}
use dist_task_queue.World.{World, Calm, ok, err, empty, call_fine, tick}
use dist_task_queue.Queue.{key, processing_key, push, blocking_pop, or_empty}
use dist_task_queue.Queue.Keys.{key-ne-processing_key}
use dist_task_queue.Queue.Moves.{waiting, held}

module _ (e : Env) (calm : Calm e) (stage worker : Bytes) where
  -- The jobs in the order in which they will be popped.
  abbrev pub fifo : World e → List Bytes
  fifo w = reverse (waiting stage w)

  -- Where no call fails, a push puts the job at the end of the stage's order.
  pub fifo-push : (job : Bytes) (w : World e) → fifo (push e stage job w).1 ≡ fifo w ++ job ∷ []
  unfolding push
  fifo-push job w =
      rw
        (
          call_fine e _ w (calm _),
          e.redis.lrange-lpush (key stage) job (key stage) w.redis,
          bytes_eq_refl (key stage),
        )
        (reverse-cons job (waiting stage w))

  unfoldable pub moved_to : World e → World e
  moved_to w = record w {
    redis = (e.redis.lmove left (key stage) (processing_key stage worker) w.redis).1;
    calls = suc w.calls;
  }

  blocking_pop_calm :
      (w : World e)
      → blocking_pop e stage worker w
        ≡ or_empty e
            (e.redis.lmove left (key stage) (processing_key stage worker) w.redis).0
            (moved_to w)
  unfolding blocking_pop moved_to
  blocking_pop_calm w = rw (call_fine e _ w (calm _)) refl

  ne : key stage ≢ processing_key stage worker
  ne = key-ne-processing_key stage stage worker

  pub blocking_pop_empty :
      (w : World e) → waiting stage w ≡ [] → blocking_pop e stage worker w ≡ (err empty, tick e w)
  unfolding moved_to
  blocking_pop_empty w h =
      rw
        (
          blocking_pop_calm w,
          e.redis.lmove_empty left (key stage) (processing_key stage worker) w.redis h,
        )
        refl

  pub blocking_pop_next :
      (w : World e) (x : Bytes) (xs : List Bytes)
      → waiting stage w ≡ xs ++ x ∷ []
      → blocking_pop e stage worker w ≡ (ok x, moved_to w)
  blocking_pop_next w x xs h =
      rw
        (
          blocking_pop_calm w,
          e.redis.lmove_last left (key stage) (processing_key stage worker) x xs w.redis h,
        )
        refl

  pub fifo_next :
      (w : World e) (x : Bytes) (xs : List Bytes)
      → waiting stage w ≡ xs ++ x ∷ []
      → (waiting stage (moved_to w) ≡ xs)
        × (held stage worker (moved_to w) ≡ x ∷ held stage worker w)
  unfolding moved_to
  fifo_next w x xs h = (
    lmove_source e.redis left _ _ ne x xs w.redis h,
    lmove_target e.redis left _ _ ne x xs w.redis h,
  )

  -- Where no call fails, a pop of an empty queue returns ErrEmpty and changes neither Redis nor the
  -- tables; else it returns the first job, takes it from the order and puts it before the jobs that
  -- the worker holds.
  pub blocking_pop_lem :
      (w : World e)
      → ((fifo w ≡ []) × (blocking_pop e stage worker w ≡ (err empty, tick e w)))
        ⊎ ((job : Bytes) × (rest : List Bytes) × (fifo w ≡ job ∷ rest)
            × ((blocking_pop e stage worker w).0 ≡ ok job)
            × (fifo (blocking_pop e stage worker w).1 ≡ rest)
            × (held stage worker (blocking_pop e stage worker w).1 ≡ job ∷ held stage worker w))
  blocking_pop_lem w = elim (List-snoc (waiting stage w)) [
    | inl h ↦ inl (rw h refl, blocking_pop_empty w h)
    | inr (xs, x, h) ↦ inr (
      x,
      reverse xs,
      rw h (reverse-append xs (x ∷ [])),
      rw (blocking_pop_next w x xs h) refl,
      rw (blocking_pop_next w x xs h) (ap reverse (fifo_next w x xs h).0),
      rw (blocking_pop_next w x xs h) (fifo_next w x xs h).1,
    )
  ]
