-- ===== src/Worker/Process.antt =====
-- internal/worker/worker.go.
use dist_task_queue.Prelude.{ℕ, zero, suc, ◌+◌, Bool, true, false, Option, none, some, [], ◌∷◌}
use dist_task_queue.Prelude.Tests.{Bytes}
use dist_task_queue.Services.{Env}
use dist_task_queue.World.{
  World, Result, ok, err, Error, empty, bad_id, job_not_claimable, post_claim,
}
use dist_task_queue.Store.Types.{Uuid, Time, Job}
use dist_task_queue.Store.Jobs.{claim_job, get_job, mark_failed, advance_job, mark_done}
use dist_task_queue.Queue.{push, blocking_pop, ack, heartbeat}
use dist_task_queue.Worker.Backoff.{compute}

-- Handler.Process returns the next stage, "" for none, and the text of its error, if any. It may
-- call services itself, so it takes the world along.
abbrev pub Handler : Env → Type 0
Handler e = Job → World e → (Bytes × Option Bytes) × World e

pub record Config (e : Env) : Type 0 where
  pub stage : Bytes
  pub worker_id : Bytes
  pub handler : Handler e
  pub heartbeat_ttl : Time
  -- the jitter that rand.Float64 gives at the n-th call
  pub jitter : ℕ → ℕ

module _ {e : Env} where
  -- `if err != nil { return true, fmt.Errorf("…: %w: %w", err, errPostClaim) }`
  abbrev pub settled : Result (Unit {0}) × World e → Result Bool × World e
  settled (ok u, w) = (ok true, w)
  settled (err x, w) = (err (post_claim x), w)

module _ {e : Env} (c : Config e) where
  -- Handler failed: back to the queue after a backoff, or dead.
  unfoldable pub settle_failure : Uuid → Job → Bytes → World e → Result Bool × World e
  settle_failure id job msg w =
      let next_run = e.now w.calls + compute (c.jitter w.calls) (job.attempts + 1) in
      settled (mark_failed e id msg next_run w)

  -- `if err := Push(…); err != nil { return true, … }; return true, nil`
  abbrev pub pushed : Result (Unit {0}) × World e → Result Bool × World e
  pushed (ok u, w) = (ok true, w)
  pushed (err x, w) = (err x, w)

  abbrev pub on_advanced : Uuid → Bytes → Result (Unit {0}) × World e → Result Bool × World e
  on_advanced id next (err x, w) = (err (post_claim x), w)
  on_advanced id next (ok u, w) = pushed (push e next (e.format_uuid id) w)

  unfoldable pub settle_advance : Uuid → Bytes → World e → Result Bool × World e
  settle_advance id next w = on_advanced id next (advance_job e id next w)

  -- What is done with the handler's answer.
  unfoldable pub settle : Uuid → Job → (Bytes × Option Bytes) × World e → Result Bool × World e
  settle id job ((next, some msg), w) = settle_failure id job msg w
  settle id job (([], none), w) = settled (mark_done e id w)
  settle id job ((b ∷ next, none), w) = settle_advance id (b ∷ next) w

  abbrev pub on_job : Uuid → Result Job × World e → Result Bool × World e
  on_job id (err x, w) = (err (post_claim x), w)
  on_job id (ok job, w) = settle id job (c.handler job w)

  -- From the claim on.
  unfoldable pub handle_claimed : Uuid → World e → Result Bool × World e
  handle_claimed id w = on_job id (get_job e id w)

  -- A claim race that is lost is no error.
  abbrev pub on_claimed : Uuid → Result (Unit {0}) × World e → Result Bool × World e
  on_claimed id (ok u, w) = handle_claimed id w
  on_claimed id (err job_not_claimable, w) = (ok true, w)
  on_claimed id (err x, w) = (err x, w)

  unfoldable pub claim_and_handle : Uuid → World e → Result Bool × World e
  claim_and_handle id w = on_claimed id (claim_job e id c.worker_id w)

  abbrev pub on_parsed : Option Uuid → World e → Result Bool × World e
  on_parsed none w = (err bad_id, w)
  on_parsed (some id) w = claim_and_handle id w

  -- What stands under the deferred Ack.
  unfoldable pub process_popped : Bytes → World e → Result Bool × World e
  process_popped raw w = on_parsed (e.parse_uuid raw) w

  -- The deferred Ack runs on every path behind the pop; its own error is only logged.
  abbrev pub acked : Bytes → Result Bool × World e → Result Bool × World e
  acked raw (r, w) = (r, (ack e c.stage c.worker_id raw w).1)

  abbrev pub on_popped : Result Bytes × World e → Result Bool × World e
  on_popped (ok raw, w) = acked raw (process_popped raw w)
  on_popped (err empty, w) = (ok false, w)
  on_popped (err x, w) = (err x, w)

  unfoldable pub process_one : World e → Result Bool × World e
  process_one w = on_popped (blocking_pop e c.stage c.worker_id w)

  -- Run's look at the outcome of a round: it goes on unless the context is cancelled by now, which
  -- `cancelled` says, or the error wraps errPostClaim.
  abbrev pub on_round :
      (World e → Option Error × World e) → Bool → Result Bool × World e → Option Error × World e
  on_round again cancelled (ok b, w) = again w
  on_round again true (err x, w) = (none, w)
  on_round again false (err (post_claim x), w) = (some (post_claim x), w)
  on_round again false (err x, w) = again w

  -- Run for a number of rounds. `cancelled n` says whether ctx is done when n calls were made.
  unfoldable pub run_loop : ℕ → (ℕ → Bool) → World e → Option Error × World e
  run_loop zero cancelled w = (none, w)
  run_loop (suc rounds) cancelled w =
      let r = process_one w in
      let round = on_round (run_loop rounds cancelled) (cancelled r.1.calls) r in
      elim (cancelled w.calls) [ true ↦ (none, w) | false ↦ round ]

  unfoldable pub run : ℕ → (ℕ → Bool) → World e → Option Error × World e
  run rounds cancelled w = run_loop rounds cancelled (heartbeat e c.worker_id c.heartbeat_ttl w).1

  -- heartbeatLoop for a number of ticks, alone: a failed heartbeat is logged.
  unfoldable pub heartbeat_ticks : ℕ → World e → World e
  heartbeat_ticks zero w = w
  heartbeat_ticks (suc ticks) w =
      heartbeat_ticks ticks (heartbeat e c.worker_id c.heartbeat_ttl w).1

  unfoldable pub heartbeat_loop : ℕ → World e → World e
  heartbeat_loop ticks w = heartbeat_ticks ticks (heartbeat e c.worker_id c.heartbeat_ttl w).1
