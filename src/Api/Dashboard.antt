-- ===== src/Api/Dashboard.antt =====
-- internal/api/dashboard.go: what the dashboard's endpoints answer.
pub mod Stats
use dist_task_queue.Prelude.{
  ℕ, zero, suc, Bool, true, false, ◌&&◌, Option, none, some, List, [], ◌∷◌, ◌++◌, map,
}
use dist_task_queue.Prelude.Tests.{Bytes, bytes_eq, ltb, leb, ◌==◌, if◌then◌else◌}
use dist_task_queue.Prelude.Lists.{take, drop, length}
use dist_task_queue.Services.{Env}
use dist_task_queue.World.{World, M, Result, ok, err, Error, io, ◌>>=◌, ◌>>◌, pure, and_then}
use dist_task_queue.Store.Types.{Time, JobStatus, Job}
use dist_task_queue.Store.Jobs.{query}
use dist_task_queue.Queue.{redis_call, depth, heartbeat_prefix}
use dist_task_queue.Scheduler.{fetch_stage}
use dist_task_queue.Handlers.Words.{render_stage, upload_stage}
use dist_task_queue.Api.Demo.{test_stage}
use dist_task_queue.Api.Counts.{set_label, statuses, group_rows, set_zeros, set_rows}

pub record StatsResponse : Type 0 where
  pub queue_depths : List (Bytes × ℕ)
  pub job_counts : List (JobStatus × ℕ)
  pub alive_workers : List Bytes
  pub server_time : Time

pub record JobSummary : Type 0 where
  pub id : Bytes
  pub stage : Bytes
  pub status : JobStatus
  pub attempts : ℕ
  pub last_error : Bytes
  pub gmail_message_id : Bytes
  pub created_at : Time
  pub completed_at : Option Time

abbrev pub stages : List Bytes
stages = fetch_stage ∷ render_stage ∷ upload_stage ∷ test_stage ∷ []

-- writeJSON with a body, and writeJSONErr: the status, and the body or the error.
abbrev pub Reply : Type 0 → Type 0
Reply A = ℕ × Result A

abbrev pub reply : {e : Env} {A : Type 0} → Result A × World e → Reply A × World e
reply (ok a, w) = ((200, ok a), w)
reply (err x, w) = ((500, err x), w)

-- ORDER BY created_at DESC, of rows in their physical order.
unfoldable pub insert_newest : Job → List Job → List Job
insert_newest j [] = j ∷ []
insert_newest j (i ∷ is) =
    let rest = insert_newest j is in if leb i.created_at j.created_at then j ∷ i ∷ is else i ∷ rest

unfoldable pub newest_first : List Job → List Job
newest_first [] = []
newest_first (j ∷ js) = insert_newest j (newest_first js)

-- `?limit=`, as strconv.Atoi reads it; `none` is no number, no parameter or a negative one.
unfoldable pub limit_of : Option ℕ → ℕ
limit_of none = 20
limit_of (some n) = if ltb 0 n && leb n 200 then n else 20

-- COALESCE(…, '')
abbrev pub or_nothing : Option Bytes → Bytes
or_nothing none = []
or_nothing (some s) = s

module _ (e : Env) where
  abbrev pub summary : Job → JobSummary
  summary j = record {
    id = e.format_uuid j.id;
    stage = j.stage;
    status = j.status;
    attempts = j.attempts;
    last_error = or_nothing j.last_error;
    gmail_message_id = or_nothing j.gmail_message_id;
    created_at = j.created_at;
    completed_at = j.completed_at;
  }

  unfoldable pub list_recent_jobs : ℕ → M e (List JobSummary)
  list_recent_jobs limit = query e λ now db. map summary (take limit (newest_first db.jobs))

  unfoldable pub recent_jobs : Option ℕ → World e → Reply (List JobSummary) × World e
  recent_jobs limit w = reply (list_recent_jobs (limit_of limit) w)

  unfoldable pub status_rows : M e (List (JobStatus × ℕ))
  status_rows = query e λ now db. group_rows statuses db.jobs

  unfoldable pub job_counts : M e (List (JobStatus × ℕ))
  job_counts = status_rows >>= λ rows. pure (set_rows rows (set_zeros statuses []))

  -- The pages of SCAN, until the cursor is 0 again; a listing that is longer ends in `io`.
  unfoldable pub heartbeat_pages : ℕ → ℕ → List Bytes → M e (List Bytes)
  heartbeat_pages zero cursor workers w = (err io, w)
  heartbeat_pages (suc fuel) cursor workers w =
      and_then
        (λ page v.
          let workers' = workers ++ map (drop (length heartbeat_prefix)) page.0 in
          let rest = heartbeat_pages fuel page.1 workers' v in
          if page.1 == 0 then (ok workers', v) else rest)
        (redis_call e (λ now s. (e.redis.scan heartbeat_prefix s cursor, s)) w)

  unfoldable pub alive_worker_ids : M e (List Bytes)
  alive_worker_ids w = heartbeat_pages (e.redis.scan_rounds heartbeat_prefix w.redis) 0 [] w

  unfoldable pub stage_depths : List Bytes → List (Bytes × ℕ) → M e (List (Bytes × ℕ))
  stage_depths [] depths = pure depths
  stage_depths (stage ∷ more) depths =
      depth e stage >>= λ n. stage_depths more (set_label bytes_eq stage n depths)

  -- The body of `stats`; every error is an answer of status 500.
  unfoldable pub stats_body : M e StatsResponse
  stats_body w =
      (stage_depths stages [] >>= λ depths. job_counts >>= λ counts. alive_worker_ids >>= λ workers.
      pure (record {
        queue_depths = depths;
        job_counts = counts;
        alive_workers = workers;
        server_time = e.now w.calls;
      }))
        w

  unfoldable pub stats : World e → Reply StatsResponse × World e
  stats w = reply (stats_body w)
