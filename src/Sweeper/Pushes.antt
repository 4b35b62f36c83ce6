-- ===== src/Sweeper/Pushes.antt =====
-- promoteDelayed and repushStale against the queues, where no call fails.
use mathlib.Core.List.{append_cancel_left}
use dist_task_queue.Prelude.{
  ◌≡◌, refl, ◌∙◌, subst, ◌+◌, ◌<◌, ◌⊎◌, true, none, List, [], ◌∷◌, Memᴰ, inl, inr, arith,
}
use dist_task_queue.Prelude.Tests.{
  Bytes, bytes_eq, bytes_eq_iff, bytes_eq_refl, Bool-cases, if◌then◌else◌,
}
use dist_task_queue.Prelude.Lists.{select, All, All-Memᴰ, Memᴰ-select, select-Memᴰ}
use dist_task_queue.Services.{Env}
use dist_task_queue.World.{World, Calm, ok, call_fine, for_each}
use dist_task_queue.Store.Types.{Time, Job, queued}
use dist_task_queue.Store.Jobs.{is_stale_queued, list_stale_queued_jobs}
use dist_task_queue.Queue.{key, queue_prefix, push}
use dist_task_queue.Queue.Moves.{waiting}
use dist_task_queue.Sweeper.{Config, push_job, repush_stale}

-- A job that is queued with no error, and was created longer ago than the threshold at a time.
pub record IsStale (threshold now : Time) (j : Job) : Type 0 where
  pub waits : j.status ≡ queued
  pub no_error : j.last_error ≡ none
  pub old : j.created_at + threshold < now

is_stale_queued-IsStale :
    (threshold now : Time) (j : Job)
    → is_stale_queued threshold now j ≡ true
    → IsStale threshold now j
is_stale_queued-IsStale threshold now j h = record {
  waits = ground arith;
  no_error = ground arith;
  old = ground arith;
}

IsStale-is_stale_queued :
    (threshold now : Time) (j : Job)
    → IsStale threshold now j
    → is_stale_queued threshold now j ≡ true
IsStale-is_stale_queued threshold now j h = rw (h.waits, h.no_error) (ground (arith, h.old))

module _ (e : Env) (calm : Calm e) where
  -- The job's id waits in the queue of its stage.
  abbrev pub Waits : World e → Job → Type 0
  Waits w j = Memᴰ (e.format_uuid j.id) (waiting j.stage w)

  push-waiting :
      (stage job s : Bytes) (w : World e)
      → waiting s (push e stage job w).1
        ≡ e.redis.lrange (key s) (e.redis.lpush (key stage) job w.redis)
  unfolding push
  push-waiting stage job s w = rw (call_fine e _ w (calm _)) refl

  push_job-waiting :
      (j : Job) (s : Bytes) (w : World e)
      → waiting s (push_job e j w)
        ≡ e.redis.lrange (key s) (e.redis.lpush (key j.stage) (e.format_uuid j.id) w.redis)
  unfolding push_job
  push_job-waiting j s w = push-waiting j.stage (e.format_uuid j.id) s w

  push_job-Waits : (j : Job) (w : World e) → Waits (push_job e j w) j
  push_job-Waits j w =
      rw
        (
          push_job-waiting j j.stage w,
          e.redis.lrange-lpush (key j.stage) (e.format_uuid j.id) (key j.stage) w.redis,
          bytes_eq_refl (key j.stage),
        )
        (Memᴰ.head refl)

  -- What waited before a push waits behind it.
  push_job_keeps :
      (j : Job) (x s : Bytes) (w : World e)
      → Memᴰ x (waiting s w)
      → Memᴰ x (waiting s (push_job e j w))
  push_job_keeps j x s w m =
      rw
        (
          push_job-waiting j s w,
          e.redis.lrange-lpush (key j.stage) (e.format_uuid j.id) (key s) w.redis,
        )
        (elim (Bool-cases (bytes_eq (key j.stage) (key s))) [
          | inl same ↦ rw (same, (bytes_eq_iff (key j.stage) (key s)).0 same) (Memᴰ.tail m)
          | inr other ↦ rw other m
        ])

  for_each_keeps_waiting :
      (js : List Job) (x s : Bytes) (w : World e)
      → Memᴰ x (waiting s w)
      → Memᴰ x (waiting s (for_each (push_job e) js w))
  unfolding for_each
  for_each_keeps_waiting [] x s w m = m
  for_each_keeps_waiting (j ∷ js) x s w m =
      for_each_keeps_waiting js x s (push_job e j w) (push_job_keeps j x s w m)

  for_each-Waits : (js : List Job) (w : World e) → All (Waits (for_each (push_job e) js w)) js
  unfolding for_each
  for_each-Waits [] w = tt
  for_each-Waits (j ∷ js) w = (
    for_each_keeps_waiting js (e.format_uuid j.id) j.stage (push_job e j w) (push_job-Waits j w),
    for_each-Waits js (push_job e j w),
  )

  -- Where something in a queue comes from: it waited before, or it is one of these jobs.
  abbrev From : List Job → Bytes → Bytes → World e → Type 0
  From js x s w =
      Memᴰ x (waiting s w) ⊎ ((j : Job) × Memᴰ j js × (j.stage ≡ s) × (x ≡ e.format_uuid j.id))

  key-inj : (s t : Bytes) → key s ≡ key t → s ≡ t
  unfolding key
  key-inj s t h = append_cancel_left queue_prefix s t h

  push_job-From :
      (j : Job) (js : List Job) (x s : Bytes) (w : World e)
      → Memᴰ x (waiting s (push_job e j w))
      → From (j ∷ js) x s w
  push_job-From j js x s w m = elim (Bool-cases (bytes_eq (key j.stage) (key s))) [
    | inl same ↦ own ((bytes_eq_iff (key j.stage) (key s)).0 same) (rw same at (rw pushed at m))
    | inr other ↦ inl (rw other at (rw pushed at m))
  ]
    where
      pushed : waiting s (push_job e j w) ≡ (
          if bytes_eq (key j.stage) (key s)
          then e.format_uuid j.id ∷ waiting j.stage w
          else waiting s w)
      pushed =
          push_job-waiting j s w
          ∙ e.redis.lrange-lpush (key j.stage) (e.format_uuid j.id) (key s) w.redis

      own :
          key j.stage ≡ key s
          → Memᴰ x (e.format_uuid j.id ∷ waiting j.stage w)
          → From (j ∷ js) x s w
      own same (Memᴰ.head here) = inr (j, Memᴰ.head refl, key-inj j.stage s same, here)
      own same (Memᴰ.tail there) =
          inl (subst (λ (k : Bytes). Memᴰ x (e.redis.lrange k w.redis)) same there)

  for_each-From :
      (js : List Job) (x s : Bytes) (w : World e)
      → Memᴰ x (waiting s (for_each (push_job e) js w))
      → From js x s w
  unfolding for_each
  for_each-From [] x s w m = inl m
  for_each-From (j ∷ js) x s w m = elim (for_each-From js x s (push_job e j w) m) [
    | inr (i, among, at_stage, same) ↦ inr (i, Memᴰ.tail among, at_stage, same)
    | inl before ↦ push_job-From j js x s w before
  ]

  -- Where no call fails, repushStale succeeds. Behind it the id of every job that is queued with
  -- no error and was created longer ago than the threshold at the time of its query waits in the
  -- queue of the job's stage; and whatever waits for a stage waited before, or is the id of such a
  -- job of the stage.
  pub repush_stale-Waits :
      (c : Config) (w : World e)
      → ((repush_stale e c w).0 ≡ ok tt)
        × ((j : Job)
            → Memᴰ j w.db.jobs
            → IsStale c.stale_threshold (e.now w.calls) j
            → Waits (repush_stale e c w).1 j)
        × ((x s : Bytes)
            → Memᴰ x (waiting s (repush_stale e c w).1)
            → Memᴰ x (waiting s w)
              ⊎ ((j : Job) × Memᴰ j w.db.jobs
                  × IsStale c.stale_threshold (e.now w.calls) j
                  × (j.stage ≡ s)
                  × (x ≡ e.format_uuid j.id)))
  unfolding repush_stale list_stale_queued_jobs
  repush_stale-Waits c w =
      let now = e.now w.calls in
      let stale = select (is_stale_queued c.stale_threshold now) w.db.jobs in
      rw (call_fine e _ w (calm _)) (
        refl,
        λ j m h.
            All-Memᴰ _ stale (for_each-Waits stale _)
              (Memᴰ-select _ j w.db.jobs m (IsStale-is_stale_queued c.stale_threshold now j h)),
        λ x s m. elim (for_each-From stale x s _ m) [
          | inl before ↦ inl before
          | inr (j, among, at_stage, same) ↦
              let (m2, chosen) = select-Memᴰ _ j w.db.jobs among in
              inr (j, m2, is_stale_queued-IsStale c.stale_threshold now j chosen, at_stage, same)
        ],
      )
