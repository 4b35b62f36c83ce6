-- ===== src/Worker/Backoff.antt =====
-- internal/worker/backoff.go, in exact arithmetic: rand.Float64 is `r / 2 ^ 53` with `r < 2 ^ 53`.
use dist_task_queue.Prelude.{ℕ, ◌+◌, ◌*◌, ◌/◌, ◌^◌}
use dist_task_queue.Prelude.Tests.{ltb, if◌then◌else◌}
use dist_task_queue.Store.Types.{Time}

-- min (2 ^ attempts) 600, in seconds.
unfoldable pub base_seconds : ℕ → ℕ
base_seconds attempts =
    let n = if ltb attempts 1 then 1 else attempts in if ltb 600 (2 ^ n) then 600 else 2 ^ n

-- base * (0.75 + r / 2 ^ 53 * 0.5) seconds, cut to whole nanoseconds.
unfoldable pub compute : ℕ → ℕ → Time
compute r attempts = base_seconds attempts * (3 * 2 ^ 53 + 2 * r) * 1000000000 / (4 * 2 ^ 53)
