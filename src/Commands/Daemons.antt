-- ===== src/Commands/Daemons.antt =====
-- cmd/scheduler/main.go, cmd/backfill/main.go, cmd/sweeper/main.go and cmd/api/main.go.
use dist_task_queue.Prelude.{ℕ, ◌*◌, Bool, true, false, ◌||◌, Option, none, some, [], ◌∷◌}
use dist_task_queue.Prelude.Tests.{Bytes, if◌then◌else◌}
use dist_task_queue.Prelude.Int64.{ℤ, pos, int64}
use dist_task_queue.Store.Types.{Time}
use dist_task_queue.World.{Error}
use dist_task_queue.Handlers.Paths.{is_empty}
use dist_task_queue.Backfill.{FullConfig}
use dist_task_queue.Commands.{
  Host, Start, exits, starts, starting, env_or, env_int_or, env_duration_sec, load_google_key,
  open_services,
}
use dist_task_queue.Commands.Words.{
  database_url, redis_url, poll_interval_name, backfill_interval_name, backfill_window_name,
  stale_threshold_name, api_addr, default_addr,
}

pub record SchedulerPlan : Type 0 where
  pub encryption_key : Bytes
  pub poll_interval : ℤ
  pub backfill_interval : ℤ
  pub backfill_window : ℤ

-- The configuration that the sweeper is made with.
pub record SweeperPlan : Type 0 where
  pub interval : ℤ
  pub stale_threshold : ℤ

-- The flags of the backfill command.
pub record BackfillFlags : Type 0 where
  pub email : Bytes
  pub since : Bytes
  pub before : Bytes
  pub max_queue : ℕ

-- `if v == "" { return time.Time{}, nil }`; `parse` is time.Parse of "2006-01-02".
abbrev pub parse_date_flag : (Bytes → Option Time) → Bytes → Start Time
parse_date_flag parse [] = starts 0
parse_date_flag parse (c ∷ v) = elim (parse (c ∷ v)) [ none ↦ exits 2 | some t ↦ starts t ]

abbrev pub email_flag : Bytes → Start Bytes
email_flag [] = exits 2
email_flag (c ∷ email) = starts (c ∷ email)

-- The exit code behind RunFull; `canceled` says whether its error is context.Canceled.
abbrev pub full_exit : Bool → Option Error → ℕ
full_exit canceled none = 0
full_exit true (some x) = 0
full_exit false (some x) = 1

module _ (h : Host) where
  unfoldable pub scheduler_start : Start SchedulerPlan
  scheduler_start = starting (load_google_key h) λ key. starting (open_services h) λ u.
      starts (record {
        encryption_key = key;
        poll_interval = int64 (env_int_or h poll_interval_name 60 * 1000000000);
        backfill_interval = int64 (env_int_or h backfill_interval_name 3600 * 1000000000);
        backfill_window = int64 (env_int_or h backfill_window_name 24 * 3600000000000);
      })

  -- The key, and the configuration of RunFull.
  unfoldable pub backfill_start : (Bytes → Option Time) → BackfillFlags → Start (Bytes × FullConfig)
  backfill_start parse flags = starting (email_flag flags.email) λ email.
      starting (parse_date_flag parse flags.since) λ since.
        starting (parse_date_flag parse flags.before) λ before. starting (load_google_key h) λ key.
          starting (open_services h) λ u. starts (
            key,
            record {
              email = email;
              since = since;
              before = before;
              max_queue_depth = flags.max_queue;
            },
          )

  unfoldable pub sweeper_start : Start SweeperPlan
  sweeper_start = starting (open_services h) λ u. starts (record {
    interval = pos 5000000000;
    stale_threshold = env_duration_sec h stale_threshold_name 60;
  })

  -- The address, and whether the dashboard's endpoints are there: both URLs have to be set.
  unfoldable pub api_start : Start (Bytes × Bool)
  api_start =
      if is_empty (env_or h database_url []) || is_empty (env_or h redis_url [])
      then starts (env_or h api_addr default_addr, false)
      else starting (open_services h) λ u. starts (env_or h api_addr default_addr, true)
