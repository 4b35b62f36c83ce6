-- ===== src/Api/Demo.antt =====
-- internal/api/demo.go: the endpoints that enqueue synthetic jobs.
use dist_task_queue.Prelude.{ℕ, zero, suc, ◌+◌, true, ◌&&◌, Option, none, some, [], ◌∷◌, ◌++◌}
use dist_task_queue.Prelude.Tests.{Bytes, ltb, leb, if◌then◌else◌}
use dist_task_queue.Prelude.Decimal.{format_uint}
use dist_task_queue.Services.{Env}
use dist_task_queue.World.{World, Result, ok, err}
use dist_task_queue.Store.Types.{Time, Job, NewJob}
use dist_task_queue.Store.Jobs.{enqueue_job}
use dist_task_queue.Queue.{push}
use dist_task_queue.Api.RateLimit.{TokenBucket, allow}

-- "test"
abbrev pub test_stage : Bytes
test_stage = b't' ∷ b'e' ∷ b's' ∷ b't' ∷ []

pub record DemoConfig : Type 0 where
  pub flood_cooldown : Time
  pub burst_size : ℕ
  pub flood_size : ℕ
  pub slow_sleep_ms : ℕ

unfoldable pub default_demo_config : DemoConfig
default_demo_config = record {
  flood_cooldown = 60000000000;
  burst_size = 100;
  flood_size = 1000;
  slow_sleep_ms = 5000;
}

abbrev pub synthetic_job : Bytes → Bytes → NewJob
synthetic_job stage payload = record {
  stage = stage;
  payload = some payload;
  user_id = none;
  gmail_message_id = none;
  is_synthetic = true;
}

-- `?n=`, as strconv.Atoi reads it; `none` is no number, no parameter or a negative one.
unfoldable pub burst_count : DemoConfig → Option ℕ → ℕ
burst_count c none = c.burst_size
burst_count c (some n) = if ltb 0 n && leb n 500 then n else c.burst_size

-- `{"sleepMs":`, then the number and `}`
unfoldable pub sleep_payload : ℕ → Bytes
sleep_payload ms =
    b'{' ∷ b'"' ∷ b's' ∷ b'l' ∷ b'e' ∷ b'e' ∷ b'p' ∷ b'M' ∷ b's' ∷ b'"' ∷ b':' ∷ []
    ++ format_uint ms
    ++ b'}' ∷ []

module _ (e : Env) (stage : Bytes) where
  abbrev pub on_pushed : ℕ → Result (Unit {0}) × World e → ℕ × World e
  on_pushed pushed (err x, w) = (pushed, w)
  on_pushed pushed (ok u, w) = (pushed + 1, w)

  -- A failed insert or push is logged, and the loop goes on.
  abbrev pub on_inserted : ℕ → Result Job × World e → ℕ × World e
  on_inserted pushed (err x, w) = (pushed, w)
  on_inserted pushed (ok j, w) = on_pushed pushed (push e stage (e.format_uuid j.id) w)

  unfoldable pub enqueue_loop : ℕ → Bytes → ℕ → World e → ℕ × World e
  enqueue_loop zero payload pushed w = (pushed, w)
  enqueue_loop (suc n) payload pushed w =
      let r = on_inserted pushed (enqueue_job e (synthetic_job stage payload) w) in
      enqueue_loop n payload r.0 r.1

  unfoldable pub enqueue_synthetic : ℕ → Bytes → World e → ℕ × World e
  enqueue_synthetic n payload w = enqueue_loop n payload 0 w

  unfoldable pub burst : DemoConfig → Option ℕ → World e → ℕ × World e
  burst c n = enqueue_synthetic (burst_count c n) (sleep_payload 25)

  unfoldable pub slow : DemoConfig → World e → ℕ × World e
  slow c = enqueue_synthetic 1 (sleep_payload c.slow_sleep_ms)

  -- `{"sleepMs":100,"failRate":0.5}`
  unfoldable pub flaky : World e → ℕ × World e
  flaky = enqueue_synthetic 1 (
      b'{' ∷ b'"' ∷ b's' ∷ b'l' ∷ b'e' ∷ b'e' ∷ b'p' ∷ b'M' ∷ b's' ∷ b'"' ∷ b':' ∷ b'1' ∷ b'0'
      ∷ b'0' ∷ b',' ∷ b'"' ∷ b'f' ∷ b'a' ∷ b'i' ∷ b'l' ∷ b'R' ∷ b'a' ∷ b't' ∷ b'e' ∷ b'"' ∷ b':'
      ∷ b'0' ∷ b'.' ∷ b'5' ∷ b'}' ∷ [])

  -- The key "global".
  abbrev pub global_key : Bytes
  global_key = b'g' ∷ b'l' ∷ b'o' ∷ b'b' ∷ b'a' ∷ b'l' ∷ []

  -- `none` is 429.
  unfoldable pub flood :
      DemoConfig → Time → TokenBucket × World e → Option ℕ × (TokenBucket × World e)
  flood c now (gate, w) =
      let r = allow global_key now gate in
      let done = enqueue_synthetic c.flood_size (sleep_payload 250) w in
      if r.0 then (some done.0, (r.1, done.1)) else (none, (r.1, w))
