-- ===== src/Worker/Cycle.antt =====
-- ProcessOne as a whole: pop, claim, handle, settle, ack.
use dist_task_queue.Prelude.{
  ◌≡◌, ◌≢◌, refl, ap, ◌∙◌, Bool, true, false, Option, none, some, List, [], ◌∷◌, ◌++◌,
}
use dist_task_queue.Prelude.Tests.{Bytes, bytes_eq_refl, ne→bytes_eq}
use dist_task_queue.Services.{Env, remove_first}
use dist_task_queue.World.{World, Calm, Result, ok, err, bad_id, call_fine, tick}
use dist_task_queue.Store.Types.{Uuid, queued, Job}
use dist_task_queue.Store.Jobs.{find_job}
use dist_task_queue.Store.Invariant.{Inv}
use dist_task_queue.Store.Lookup.{Becomes}
use dist_task_queue.Queue.{key, processing_key, ack}
use dist_task_queue.Queue.Keys.{key-ne-processing_key, processing_key-ne-key}
use dist_task_queue.Queue.Moves.{waiting, held}
use dist_task_queue.Queue.Fifo.{moved_to, blocking_pop_empty, blocking_pop_next, fifo_next}
use dist_task_queue.Worker.Process.{Config, process_one, process_popped, acked}
use dist_task_queue.Worker.Outcome.{
  Quiet, next_row, next_redis, held_row, answer, process_popped_lem, process_popped_lost,
}

module _ {e : Env} (c : Config e) (calm : Calm e) where
  -- Where no call fails, an empty queue is no work and no error, and neither Redis nor the tables
  -- change.
  pub process_one_idle :
      (w : World e) → waiting c.stage w ≡ [] → process_one c w ≡ (ok false, tick e w)
  unfolding process_one
  process_one_idle w h = rw (blocking_pop_empty e calm c.stage c.worker_id w h) refl

  -- An ack takes the job out of the worker's list, and leaves the queues and the tables.
  ack-held :
      (raw : Bytes) (xs : List Bytes) (w : World e)
      → held c.stage c.worker_id w ≡ raw ∷ xs
      → (held c.stage c.worker_id (ack e c.stage c.worker_id raw w).1 ≡ xs)
        × ((ack e c.stage c.worker_id raw w).1.db ≡ w.db)
        × ((s : Bytes) → waiting s (ack e c.stage c.worker_id raw w).1 ≡ waiting s w)
  unfolding ack remove_first
  ack-held raw xs w h = rw (call_fine e _ w (calm _)) (
    rw
        (
          e.redis.lrange-lrem (processing_key c.stage c.worker_id) raw
              (processing_key c.stage c.worker_id) w.redis,
          bytes_eq_refl (processing_key c.stage c.worker_id),
          h,
          remove_first,
          bytes_eq_refl raw,
        )
        refl,
    refl,
    λ s.
        rw
          (
            e.redis.lrange-lrem (processing_key c.stage c.worker_id) raw (key s) w.redis,
            ne→bytes_eq _ (key s) (processing_key-ne-key s c.stage c.worker_id),
          )
          refl,
  )

  -- A push to the next stage does not touch a processing list.
  next_redis_held :
      (a : Bytes × Option Bytes) (id : Uuid) (s : e.redis.State) (stage worker : Bytes)
      → e.redis.lrange (processing_key stage worker) (next_redis c a id s)
        ≡ e.redis.lrange (processing_key stage worker) s
  next_redis_held (next, some msg) id s stage worker = refl
  next_redis_held ([], none) id s stage worker = refl
  next_redis_held (b ∷ next, none) id s stage worker =
      rw
        (
          e.redis.lrange-lpush (key (b ∷ next)) (e.format_uuid id) (processing_key stage worker) s,
          ne→bytes_eq _ (processing_key stage worker)
              (key-ne-processing_key (b ∷ next) stage worker),
        )
        refl

  popped :
      (w : World e) (raw : Bytes) (xs : List Bytes)
      → waiting c.stage w ≡ xs ++ raw ∷ []
      → process_one c w ≡ acked c raw (process_popped c raw (moved_to e calm c.stage c.worker_id w))
  unfolding process_one
  popped w raw xs h = rw (blocking_pop_next e calm c.stage c.worker_id w raw xs h) refl

  module _ (w : World e) (raw : Bytes) (xs : List Bytes)
      (next : waiting c.stage w ≡ xs ++ raw ∷ []) where
    -- The world behind the pop.
    abbrev pub popped_world : World e
    popped_world = moved_to e calm c.stage c.worker_id w

    popped_held : held c.stage c.worker_id popped_world ≡ raw ∷ held c.stage c.worker_id w
    popped_held = (fifo_next e calm c.stage c.worker_id w raw xs next).1

    popped_db : popped_world.db ≡ w.db
    unfolding moved_to
    popped_db = refl

    -- The ack behind a path that keeps the worker's list.
    settled_held :
        (r : Result Bool × World e)
        → held c.stage c.worker_id r.1 ≡ held c.stage c.worker_id popped_world
        → (held c.stage c.worker_id (acked c raw r).1 ≡ held c.stage c.worker_id w)
          × ((acked c raw r).1.db ≡ r.1.db)
          × ((s : Bytes) → waiting s (acked c raw r).1 ≡ waiting s r.1)
    settled_held (r, v) h = ack-held raw _ v (h ∙ popped_held)

    -- Where no call fails and the next text of the queue is no job id, the round is an error, no
    -- table changes and the worker holds what it held before.
    pub process_one_bad_id :
        e.parse_uuid raw ≡ none
        → ((process_one c w).0 ≡ err bad_id)
          × ((process_one c w).1.db ≡ w.db)
          × (held c.stage c.worker_id (process_one c w).1 ≡ held c.stage c.worker_id w)
    unfolding process_popped
    process_one_bad_id hp =
        let (acks, tables, _) = settled_held (err bad_id, popped_world) refl in
        rw (popped w raw xs next, hp) (refl, tables ∙ popped_db, acks)

    module _ (id : Uuid) (j : Job) (hp : e.parse_uuid raw ≡ some id) (v : Inv w.db)
        (h : find_job id w.db.jobs ≡ some j) where
      v' : Inv popped_world.db
      v' = rw popped_db v

      h' : find_job id popped_world.db.jobs ≡ some j
      h' = rw popped_db h

      -- Where no call fails, the next job of the queue is queued in a well-formed table, and the
      -- handler leaves Redis and Postgres as they were, the round succeeds: the job's row goes where
      -- the handler's answer says, every other row stays, the queues are those behind the pop with
      -- one push to the next stage if there is one, and the worker holds what it held before.
      pub process_one_lem :
          j.status ≡ queued
          → Quiet c
          → let (a, seen) = answer c calm id j popped_world in
            ((process_one c w).0 ≡ ok true)
            × Becomes id
                (next_row c a (held_row c calm id j popped_world) seen)
                w.db
                (process_one c w).1.db
            × (held c.stage c.worker_id (process_one c w).1 ≡ held c.stage c.worker_id w)
            × ((s : Bytes)
                → waiting s (process_one c w).1
                  ≡ e.redis.lrange (key s) (next_redis c a id popped_world.redis))
      unfolding moved_to
      process_one_lem s quiet =
          let (a, seen) = answer c calm id j popped_world in
          let (done, become, redis) =
            process_popped_lem c calm id j popped_world v' h' s quiet raw hp in
          let (acks, tables, queues) = settled_held (process_popped c raw popped_world) (
            ap (e.redis.lrange (processing_key c.stage c.worker_id)) redis
            ∙ next_redis_held a id popped_world.redis c.stage c.worker_id) in
          rw (popped w raw xs next)
            (done, rw tables become, acks, λ k. queues k ∙ ap (e.redis.lrange (key k)) redis)

      -- Where no call fails and the next job's row in a well-formed table is not queued, the round is
      -- no error, no table changes, and the worker holds what it held before.
      pub process_one_lost :
          j.status ≢ queued
          → ((process_one c w).0 ≡ ok true)
            × ((process_one c w).1.db ≡ w.db)
            × (held c.stage c.worker_id (process_one c w).1 ≡ held c.stage c.worker_id w)
      process_one_lost s =
          let lost = process_popped_lost c calm id j popped_world v' h' s raw hp in
          let (acks, tables, queues) =
            settled_held (process_popped c raw popped_world) (rw lost refl) in
          rw (popped w raw xs next) (rw lost refl, tables ∙ rw lost popped_db, acks)
