-- ===== src/Tests/Programs.antt =====
-- The theorems on the API and on the commands at concrete inputs.
use dist_task_queue.Commands.Words.{pop_timeout_name}
use dist_task_queue.Store.Types.{to_micros, is_status, queued}
use dist_task_queue.Prelude.Int64.{pos, int64}
use dist_task_queue.Prelude.{◌≤◌, arith, ◌≡◌, refl, true, some, List, [], ◌∷◌, map}
use dist_task_queue.Prelude.Tests.{Bytes, bytes_eq}
use dist_task_queue.Prelude.Lists.{length, exists}
use dist_task_queue.Services.{scan_keys}
use dist_task_queue.Services.Memory.{calm_env}
use dist_task_queue.World.{ok, call}
use dist_task_queue.Store.Accounts.{get_user_by_email, find_user, save_oauth_token, save_token_stmt}
use dist_task_queue.Queue.Moves.{waiting}
use dist_task_queue.Oauth.{
  google, load_token, save_token, save_encrypted, encrypt, encrypt_token, bearer,
}
use dist_task_queue.Scheduler.{fetch_stage}
use dist_task_queue.Api.Counts.{find_label, count_status}
use dist_task_queue.Api.Dashboard.{StatsResponse, stages, stats}
use dist_task_queue.Api.Dashboard.Stats.{stats_lem, worker_of}
use dist_task_queue.Api.Metrics.{Gauges, refresh}
use dist_task_queue.Api.Metrics.Refresh.{refresh_lem}
use dist_task_queue.Queue.{heartbeat_prefix}
use dist_task_queue.Commands.{
  Host, starts, open_services, load_google_key, must_env, env_or, env_int_or, env_duration_sec,
}
use dist_task_queue.Commands.Worker.{
  WorkerPlan, fetching, choose_handler, Ready, worker_start, worker_start-Ready,
}
use dist_task_queue.Commands.Setup.{ensure_user, store_token, load_token-store_token}
use dist_task_queue.Tests.{start, calm}
use dist_task_queue.Tests.Mail.{plain_aead, key_32, access}

fetch_known : exists (λ s. bytes_eq s fetch_stage) stages ≡ true
unfolding bytes_eq
fetch_known = refl

stats_lem_example :
    (resp : StatsResponse) × (ks : List Bytes) × ((stats calm_env start).0 ≡ (200, ok resp))
    × (find_label bytes_eq fetch_stage resp.queue_depths
        ≡ some (length (waiting fetch_stage start)))
    × (find_label is_status queued resp.job_counts ≡ some (count_status queued start.db.jobs))
    × (scan_keys
          (calm_env.redis.scan heartbeat_prefix start.redis)
          (calm_env.redis.scan_rounds heartbeat_prefix start.redis)
          0
        ≡ some ks)
    × (resp.alive_workers ≡ map worker_of ks)
stats_lem_example = stats_lem calm_env calm start fetch_stage queued fetch_known

abbrev stale_gauges : Gauges
stale_gauges = record {
  queue_depth = (fetch_stage, 9) ∷ [];
  job_count = (queued, 7) ∷ [];
  alive_workers = 3;
  last_poll = 0;
  scrape_errors = 1;
}

refresh_lem_example :
    (find_label bytes_eq fetch_stage (refresh calm_env stale_gauges start).0.queue_depth
      ≡ some (length (waiting fetch_stage start)))
    × (find_label is_status queued (refresh calm_env stale_gauges start).0.job_count
        ≡ some (count_status queued start.db.jobs))
refresh_lem_example = refresh_lem calm_env calm stale_gauges start fetch_stage queued fetch_known

stored :
    (store_token plain_aead calm_env
      (some (0 ∷ []), some (1 ∷ []))
      (b'u' ∷ [])
      key_32
      access
      start).0
    ≡ ok 1
unfolding store_token ensure_user get_user_by_email find_user bytes_eq save_token save_encrypted
    encrypt_token encrypt save_oauth_token save_token_stmt call
stored = refl

load_token-store_token_example :
    (load_token plain_aead calm_env 1 key_32 google
      (store_token plain_aead calm_env
        (some (0 ∷ []), some (1 ∷ []))
        (b'u' ∷ [])
        key_32
        access
        start).1).0
    ≡ ok (record access { token_type = bearer; expiry = 1234000 })
unfolding to_micros
load_token-store_token_example =
    load_token-store_token calm (b'u' ∷ []) plain_aead (0 ∷ []) (1 ∷ []) key_32 refl refl refl
      access start 1 stored

-- An environment in which every variable is "5".
abbrev host : Host
host = record {
  getenv = λ k. b'5' ∷ [];
  decode_base64 = λ s. some key_32;
  atoi = λ s. some 5;
  migrates = λ s. true;
  connects = λ s. true;
  parses_url = λ s. true;
}

abbrev fetch_plan : WorkerPlan
fetch_plan = record {
  stage = fetch_stage;
  handler = fetching key_32 (b'5' ∷ []);
  pop_timeout = pos 5000000000;
  heartbeat_ttl = pos 5000000000;
  heartbeat_interval = pos 5000000000;
}

fetch_starts : worker_start host fetch_stage ≡ starts fetch_plan
unfolding worker_start open_services choose_handler load_google_key must_env env_or env_int_or
    env_duration_sec int64 bytes_eq
fetch_starts = refl

few_seconds : env_int_or host pop_timeout_name 30 ≤ 9223372036
unfolding env_int_or
few_seconds = omega arith

worker_start-Ready_example : Ready host fetch_stage fetch_plan
unfolding env_int_or
worker_start-Ready_example =
    worker_start-Ready host fetch_stage fetch_plan few_seconds few_seconds few_seconds fetch_starts
