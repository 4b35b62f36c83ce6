-- ===== src/Api/Metrics.antt =====
-- internal/api/metrics.go: the gauges, and how they are refreshed.
pub mod Refresh
use dist_task_queue.Prelude.{
  ℕ, zero, suc, ◌+◌, ◌-◌, Bool, true, false, Option, none, some, List, [], ◌∷◌,
}
use dist_task_queue.Prelude.Tests.{Bytes, bytes_eq, leb, ◌==◌, if◌then◌else◌}
use dist_task_queue.Prelude.Lists.{length}
use dist_task_queue.Services.{Env}
use dist_task_queue.World.{World, M, Result, ok, err, Error}
use dist_task_queue.Store.Types.{Time, JobStatus, SyncState}
use dist_task_queue.Store.Jobs.{query}
use dist_task_queue.Queue.{redis_call, depth, heartbeat_prefix}
use dist_task_queue.Api.Counts.{set_label, statuses, set_zeros, set_rows}
use dist_task_queue.Api.Dashboard.{stages, status_rows}

-- The collector's gauges and its counter; `last_poll` in nanoseconds.
pub record Gauges : Type 0 where
  pub queue_depth : List (Bytes × ℕ)
  pub job_count : List (JobStatus × ℕ)
  pub alive_workers : ℕ
  pub last_poll : ℕ
  pub scrape_errors : ℕ

abbrev pub with_error : Gauges → Gauges
with_error g = record g { scrape_errors = suc g.scrape_errors }

-- extract(epoch from …) from 1970 on.
abbrev pub epoch : Time → ℕ
epoch t = t - 62135596800000000000

-- coalesce(extract(epoch from max(updated_at)), 0)
unfoldable pub last_update : List SyncState → ℕ
last_update [] = 0
last_update (s ∷ ss) =
    let rest = last_update ss in if leb (epoch s.updated_at) rest then rest else epoch s.updated_at

abbrev pub set_depth : {e : Env} → Bytes → Gauges → Result ℕ × World e → Gauges × World e
set_depth stage g (err x, w) = (with_error g, w)
set_depth stage g (ok n, w) =
    (record g { queue_depth = set_label bytes_eq stage n g.queue_depth }, w)

abbrev pub on_rows : {e : Env} → Gauges → Result (List (JobStatus × ℕ)) × World e → Gauges × World e
on_rows g (err x, w) = (with_error g, w)
on_rows g (ok rows, w) =
    (record g { job_count = set_rows rows (set_zeros statuses g.job_count) }, w)

abbrev pub on_last_poll : {e : Env} → Gauges → Result ℕ × World e → Gauges × World e
on_last_poll g (err x, w) = (with_error g, w)
on_last_poll g (ok t, w) = (record g { last_poll = t }, w)

module _ (e : Env) where
  unfoldable pub refresh_depths : List Bytes → Gauges → World e → Gauges × World e
  refresh_depths [] g w = (g, w)
  refresh_depths (stage ∷ more) g w =
      let (g', w') = set_depth stage g (depth e stage w) in refresh_depths more g' w'

  unfoldable pub refresh_counts : Gauges → World e → Gauges × World e
  refresh_counts g w = on_rows g (status_rows e w)

  unfoldable pub refresh_last_poll : Gauges → World e → Gauges × World e
  refresh_last_poll g w = on_last_poll g (query e (λ now db. last_update db.gmail_sync_state) w)

  abbrev pub on_scan :
      (ℕ → ℕ → World e → (ℕ × Gauges) × World e)
      → ℕ
      → Gauges
      → Result (List Bytes × ℕ) × World e
      → (ℕ × Gauges) × World e
  on_scan again alive g (err x, w) = ((alive, with_error g), w)
  on_scan again alive g (ok (keys, next), w) =
      if next == 0 then ((alive + length keys, g), w) else again next (alive + length keys) w

  -- The count of heartbeats; an error ends it with what was counted. Out of fuel it is cut off.
  unfoldable pub count_alive : ℕ → Gauges → ℕ → ℕ → World e → (ℕ × Gauges) × World e
  count_alive zero g cursor alive w = ((alive, g), w)
  count_alive (suc fuel) g cursor alive w =
      on_scan (count_alive fuel g) alive g
        (redis_call e (λ now s. (e.redis.scan heartbeat_prefix s cursor, s)) w)

  unfoldable pub refresh_alive : Gauges → World e → Gauges × World e
  refresh_alive g w =
      let ((alive, g'), w') = count_alive (e.redis.scan_rounds heartbeat_prefix w.redis) g 0 0 w in
      (record g' { alive_workers = alive }, w')

  unfoldable pub refresh : Gauges → World e → Gauges × World e
  refresh g w =
      let (g1, w1) = refresh_depths stages g w in
      let (g2, w2) = refresh_counts g1 w1 in
      let (g3, w3) = refresh_last_poll g2 w2 in refresh_alive g3 w3
