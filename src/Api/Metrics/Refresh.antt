-- ===== src/Api/Metrics/Refresh.antt =====
-- refresh of internal/api/metrics.go against the tables and the queues.
use dist_task_queue.Prelude.{
  ℕ, zero, suc, ◌+◌, ◌≡◌, refl, ap, ◌∙◌, inl, inr, true, some, List, [], ◌∷◌,
}
use dist_task_queue.Prelude.Tests.{Bytes, bytes_eq, ◌==◌, Bool-cases}
use dist_task_queue.Prelude.Lists.{length, exists}
use dist_task_queue.Services.{Env}
use dist_task_queue.World.{World, Result, ok, err, Calm, tick}
use dist_task_queue.Store.Types.{JobStatus, is_status}
use dist_task_queue.Queue.{heartbeat_prefix, redis_call}
use dist_task_queue.Store.Jobs.{query}
use dist_task_queue.Queue.Moves.{waiting}
use dist_task_queue.Api.Counts.{
  count_status, set_each, find_label-set_each, set_label, find_label, bytes-IsTest, grouped-Counted,
  group_rows, statuses, set_rows, set_zeros,
}
use dist_task_queue.Api.Dashboard.{stages}
use dist_task_queue.Api.Dashboard.Stats.{Same, depth_fine, status_rows_fine}
use dist_task_queue.Api.Metrics.{
  Gauges, last_update, on_last_poll, on_scan, refresh_depths, refresh_counts, refresh_last_poll,
  count_alive, refresh_alive, refresh,
}

module _ (e : Env) where
  -- The counting of heartbeats leaves the depths and the counts alone, whatever fails.
  abbrev Kept : Gauges → Gauges → Type 0
  Kept g h = (h.queue_depth ≡ g.queue_depth) × (h.job_count ≡ g.job_count)

  on_scan-Kept :
      (again : ℕ → ℕ → World e → (ℕ × Gauges) × World e) (alive : ℕ) (g : Gauges)
      (r : Result (List Bytes × ℕ) × World e)
      → ((next alive : ℕ) (v : World e) → Kept g (again next alive v).0.1)
      → Kept g (on_scan e again alive g r).0.1
  on_scan-Kept again alive g (err x, v) keep = (refl, refl)
  on_scan-Kept again alive g (ok (keys, next), v) keep = elim (Bool-cases (next == 0)) [
    | inl last ↦ rw last (refl, refl)
    | inr more ↦ rw more (keep next (alive + length keys) v)
  ]

  count_alive-Kept :
      (fuel : ℕ) (g : Gauges) (cursor alive : ℕ) (w : World e)
      → Kept g (count_alive e fuel g cursor alive w).0.1
  unfolding count_alive
  count_alive-Kept zero g cursor alive w = (refl, refl)
  count_alive-Kept (suc fuel) g cursor alive w =
      on_scan-Kept (count_alive e fuel g) alive g
        (redis_call e (λ now s. (e.redis.scan heartbeat_prefix s cursor, s)) w)
        (count_alive-Kept fuel g)

  refresh_alive-Kept : (g : Gauges) (w : World e) → Kept g (refresh_alive e g w).0
  unfolding refresh_alive
  refresh_alive-Kept g w = count_alive-Kept (e.redis.scan_rounds heartbeat_prefix w.redis) g 0 0 w

  refresh_last_poll-Kept : (g : Gauges) (w : World e) → Kept g (refresh_last_poll e g w).0
  unfolding refresh_last_poll
  refresh_last_poll-Kept g w = polled (query e (λ now db. last_update db.gmail_sync_state) w)
    where
      polled : (r : Result ℕ × World e) → Kept g (on_last_poll g r).0
      polled (ok t, v) = (refl, refl)
      polled (err x, v) = (refl, refl)

  module _ (calm : Calm e) where
    refresh_depths_fine :
        (ss : List Bytes) (g : Gauges) (w : World e)
        → (v : World e) × (refresh_depths e ss g w ≡ (
          record g { queue_depth = set_each bytes_eq (λ s. length (waiting s w)) ss g.queue_depth },
          v,
        ))
          × Same e w v
    unfolding refresh_depths set_each
    refresh_depths_fine [] g w = (w, refl, (refl, refl))
    refresh_depths_fine (s ∷ ss) g w =
        let g2 : Gauges = record g {
          queue_depth = set_label bytes_eq s (length (waiting s w)) g.queue_depth;
        } in
        let (v, went, same) = refresh_depths_fine ss g2 (tick e w) in
        (v, rw (depth_fine e calm s w) went, same)

    refresh_counts_fine :
        (g : Gauges) (w : World e)
        → refresh_counts e g w ≡ (
          record g {
            job_count = set_rows (group_rows statuses w.db.jobs) (set_zeros statuses g.job_count);
          },
          tick e w,
        )
    unfolding refresh_counts
    refresh_counts_fine g w = rw (status_rows_fine e calm w) refl

    -- Where no call fails, whatever the gauges showed, behind a refresh the gauge of each of the four
    -- stages shows the number of jobs that wait in its queue, and the gauge of each status the number
    -- of rows that have it, 0 for a status that no row has any more.
    pub refresh_lem :
        (g : Gauges) (w : World e) (stage : Bytes) (t : JobStatus)
        → exists (λ s. bytes_eq s stage) stages ≡ true
        → let (after, v) = refresh e g w in
          (find_label bytes_eq stage after.queue_depth ≡ some (length (waiting stage w)))
          × (find_label is_status t after.job_count ≡ some (count_status t w.db.jobs))
    unfolding refresh
    refresh_lem g w stage t known =
        let (v, depths, (redis, db)) = refresh_depths_fine stages g w in
        let g1 : Gauges = record g {
          queue_depth = set_each bytes_eq (λ s. length (waiting s w)) stages g.queue_depth;
        } in
        let g2 : Gauges = record g1 {
          job_count = set_rows (group_rows statuses v.db.jobs) (set_zeros statuses g1.job_count);
        } in
        let (g3, u) = refresh_last_poll e g2 (tick e v) in
        let (depth3, count3) = refresh_last_poll-Kept g2 (tick e v) in
        let (depth4, count4) = refresh_alive-Kept g3 u in
        rw (depths, refresh_counts_fine g1 v)
          (
            ap (find_label bytes_eq stage) (depth4 ∙ depth3)
                ∙ find_label-set_each bytes_eq bytes-IsTest (λ s. length (waiting s w)) stage stages
                    _ known,
            ap (find_label is_status t) (count4 ∙ count3)
                ∙ grouped-Counted v.db.jobs t g1.job_count
                ∙ ap (λ d. some (count_status t d.jobs)) db,
          )
