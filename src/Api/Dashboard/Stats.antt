-- ===== src/Api/Dashboard/Stats.antt =====
-- GET /api/stats of internal/api/dashboard.go against the tables and the queues.
use dist_task_queue.Prelude.{
  ℕ, zero, suc, ◌≡◌, ◌≢◌, refl, sym, ap, subst, ◌∙◌, inl, inr, true, none, some, List, [], ◌∷◌,
  ◌++◌, map, append_assoc,
}
use dist_task_queue.Prelude.Tests.{Bytes, bytes_eq, ◌==◌, Bool-cases, Option-cases}
use dist_task_queue.Prelude.Lists.{length, drop, exists}
use dist_task_queue.Services.{Env, scan_keys}
use dist_task_queue.World.{World, ok, Calm, call_fine, tick}
use dist_task_queue.Store.Types.{JobStatus, is_status}
use dist_task_queue.Queue.{redis_call, depth, key, heartbeat_prefix}
use dist_task_queue.Queue.Moves.{waiting}
use dist_task_queue.Api.Counts.{
  count_status, set_each, find_label-set_each, set_label, find_label, bytes-IsTest, grouped-Counted,
  group_rows, statuses, set_rows, set_zeros,
}
use dist_task_queue.Api.Dashboard.{
  StatsResponse, stages, status_rows, job_counts, stage_depths, heartbeat_pages, alive_worker_ids,
  stats_body, stats,
}

-- Depth and the listing of statuses leave Redis and the tables alone; what they give is right.
abbrev pub worker_of : Bytes → Bytes
worker_of = drop (length heartbeat_prefix)

map-append : (f : Bytes → Bytes) (xs ys : List Bytes) → map f (xs ++ ys) ≡ map f xs ++ map f ys
map-append f [] ys = refl
map-append f (x ∷ xs) ys = ap (λ zs. f x ∷ zs) (map-append f xs ys)

joined :
    (workers keys rest ks : List Bytes)
    → some (keys ++ rest) ≡ some ks
    → (workers ++ map worker_of keys) ++ map worker_of rest ≡ workers ++ map worker_of ks
joined workers keys rest ks h =
    let same : keys ++ rest ≡ ks = cc in
    append_assoc workers (map worker_of keys) (map worker_of rest)
    ∙ ap (λ x. workers ++ x) (sym (map-append worker_of keys rest) ∙ ap (map worker_of) same)

one : {ks ls : List Bytes} → some ks ≡ some ls → ks ≡ ls
one h = cc

some_apart : (ks : List Bytes) → none ≢ some ks
some_apart ks h = cc

module _ (e : Env) where
  -- The same queues and tables.
  abbrev pub Same : World e → World e → Type 0
  Same w v = (v.redis ≡ w.redis) × (v.db ≡ w.db)

  pub depth_fine :
      (calm : Calm e) (stage : Bytes) (w : World e)
      → depth e stage w ≡ (ok (length (waiting stage w)), tick e w)
  unfolding depth
  depth_fine calm stage w =
      call_fine e _ w (calm _) ∙ rw (e.redis.llen-lrange (key stage) w.redis) refl

  pub status_rows_fine :
      (calm : Calm e) (w : World e)
      → status_rows e w ≡ (ok (group_rows statuses w.db.jobs), tick e w)
  unfolding status_rows
  status_rows_fine calm w = call_fine e _ w (calm _)

  module _ (calm : Calm e) where
    stage_depths_fine :
        (ss : List Bytes) (m : List (Bytes × ℕ)) (w : World e)
        → (v : World e) × (stage_depths e ss m w
            ≡ (ok (set_each bytes_eq (λ s. length (waiting s w)) ss m), v))
          × Same w v
    unfolding stage_depths set_each
    stage_depths_fine [] m w = (w, refl, (refl, refl))
    stage_depths_fine (s ∷ ss) m w =
        let (v, went, same) =
          stage_depths_fine ss (set_label bytes_eq s (length (waiting s w)) m) (tick e w) in
        (v, rw (depth_fine calm s w) went, same)

    scan_fine :
        (cursor : ℕ) (w : World e)
        → redis_call e (λ now s. (e.redis.scan heartbeat_prefix s cursor, s)) w
          ≡ (ok (e.redis.scan heartbeat_prefix w.redis cursor), tick e w)
    scan_fine cursor w = call_fine e _ w (calm _)

    heartbeat_pages_fine :
        (fuel cursor : ℕ) (ks workers : List Bytes) (w : World e)
        → scan_keys (e.redis.scan heartbeat_prefix w.redis) fuel cursor ≡ some ks
        → (v : World e) × (heartbeat_pages e fuel cursor workers w
            ≡ (ok (workers ++ map worker_of ks), v))
    unfolding heartbeat_pages scan_keys
    heartbeat_pages_fine zero cursor ks workers w h = cc
    heartbeat_pages_fine (suc fuel) cursor ks workers w h =
        let (keys, next) = e.redis.scan heartbeat_prefix w.redis cursor in
        elim (Bool-cases (next == 0)) [
          | inl last ↦ (
            tick e w,
            rw (scan_fine cursor w, last)
                (ap (λ ks. (ok (workers ++ map worker_of ks), tick e w)) (one (rw last at h))),
          )
          | inr more ↦
              elim (Option-cases (scan_keys (e.redis.scan heartbeat_prefix w.redis) fuel next)) [
                | inl ended ↦ absurd (some_apart ks (rw (more, ended) at h))
                | inr (rest, found) ↦
                    let (v, went) =
                      heartbeat_pages_fine fuel next rest (workers ++ map worker_of keys) (tick e w)
                        found in
                    (
                      v,
                      rw (scan_fine cursor w, more)
                          (went
                            ∙ ap (λ ws. (ok ws, v))
                                (joined workers keys rest ks (rw (more, found) at h))),
                    )
              ]
        ]

    job_counts_fine :
        (w : World e)
        → job_counts e w
          ≡ (ok (set_rows (group_rows statuses w.db.jobs) (set_zeros statuses [])), tick e w)
    unfolding job_counts
    job_counts_fine w = rw (status_rows_fine calm w) refl

    alive_worker_ids_fine :
        (w : World e)
        → (ks : List Bytes) × (v : World e) × (scan_keys
              (e.redis.scan heartbeat_prefix w.redis)
              (e.redis.scan_rounds heartbeat_prefix w.redis)
              0
            ≡ some ks)
          × (alive_worker_ids e w ≡ (ok (map worker_of ks), v))
    unfolding alive_worker_ids
    alive_worker_ids_fine w =
        let (ks, found, all) = e.redis.scan_complete heartbeat_prefix w.redis in
        let (v, went) =
          heartbeat_pages_fine (e.redis.scan_rounds heartbeat_prefix w.redis) 0 ks [] w found in
        (ks, v, found, went)

    -- Where no call fails, GET /api/stats answers 200, for each of the four stages with the number of
    -- jobs that wait in its queue, for each status with the number of rows that have it, zeros
    -- included, and with the worker ids of the heartbeat keys that a whole SCAN gives.
    pub stats_lem :
        (w : World e) (stage : Bytes) (t : JobStatus)
        → exists (λ s. bytes_eq s stage) stages ≡ true
        → (resp : StatsResponse) × (ks : List Bytes) × ((stats e w).0 ≡ (200, ok resp))
          × (find_label bytes_eq stage resp.queue_depths ≡ some (length (waiting stage w)))
          × (find_label is_status t resp.job_counts ≡ some (count_status t w.db.jobs))
          × (scan_keys
                (e.redis.scan heartbeat_prefix w.redis)
                (e.redis.scan_rounds heartbeat_prefix w.redis)
                0
              ≡ some ks)
          × (resp.alive_workers ≡ map worker_of ks)
    unfolding stats stats_body
    stats_lem w stage t known =
        let (v, depths, (redis, db)) = stage_depths_fine stages [] w in
        let (ks, u, found, workers) = alive_worker_ids_fine (tick e v) in
        (
          record {
            queue_depths = set_each bytes_eq (λ s. length (waiting s w)) stages [];
            job_counts = set_rows (group_rows statuses v.db.jobs) (set_zeros statuses []);
            alive_workers = map worker_of ks;
            server_time = e.now w.calls;
          },
          ks,
          rw (depths, job_counts_fine v, workers) refl,
          find_label-set_each bytes_eq bytes-IsTest (λ s. length (waiting s w)) stage stages []
              known,
          grouped-Counted v.db.jobs t [] ∙ ap (λ d. some (count_status t d.jobs)) db,
          subst
              (λ s.
                scan_keys (e.redis.scan heartbeat_prefix s) (e.redis.scan_rounds heartbeat_prefix s)
                  0
                ≡ some ks)
              redis found,
          refl,
        )
