-- ===== src/Backfill/Wait.antt =====
-- What waitForQueueDepth waits for.
use dist_task_queue.Prelude.{
  ℕ, zero, suc, ◌≤◌, ◌≡◌, refl, Bool, true, false, Option, none, arith, inl, inr,
}
use dist_task_queue.Prelude.Tests.{leb, Bool-cases}
use dist_task_queue.Prelude.Lists.{length}
use dist_task_queue.Services.{Env}
use dist_task_queue.World.{World, Result, ok, err, Error, call_ok}
use dist_task_queue.Queue.{key, depth}
use dist_task_queue.Queue.Moves.{waiting}
use dist_task_queue.Gmail.{Gmail}
use dist_task_queue.Scheduler.{fetch_stage}
use dist_task_queue.Backfill.{on_depth, wait_for_queue_depth}

module _ {e : Env} (g : Gmail e) (max : ℕ) where
  abbrev Shallow : World e → Type 0
  Shallow w = length (waiting fetch_stage w) ≤ max

  depth-length :
      (n : ℕ) (w : World e)
      → (depth e fetch_stage w).0 ≡ ok n
      → length (waiting fetch_stage (depth e fetch_stage w).1) ≡ n
  unfolding depth
  depth-length n w h =
      let answer = rw (call_ok e _ n w h) at h in
      rw (call_ok e _ n w h) (rw (e.redis.llen-lrange (key fetch_stage) w.redis) at (ok_inj answer))
    where
      ok_inj : {a b : ℕ} → ok a ≡ ok b → a ≡ b
      ok_inj h = cc

  on_depth-Shallow :
      (again : World e → Option Error × World e) (cancelled : Bool) (r : Result ℕ × World e)
      → ((n : ℕ) → r.0 ≡ ok n → length (waiting fetch_stage r.1) ≡ n)
      → ((w : World e) → (again w).0 ≡ none → Shallow (again w).1)
      → (on_depth g max again cancelled r).0 ≡ none
      → Shallow (on_depth g max again cancelled r).1
  on_depth-Shallow again cancelled (err x, w) len keep = λ h. cc
  on_depth-Shallow again true (ok n, w) len keep = elim (Bool-cases (leb n max)) [
    | inl low ↦ rw low (λ h. ground (arith, low, len n refl))
    | inr high ↦ rw high (λ h. cc)
  ]
  on_depth-Shallow again false (ok n, w) len keep = elim (Bool-cases (leb n max)) [
    | inl low ↦ rw low (λ h. ground (arith, low, len n refl))
    | inr high ↦ rw high (keep w)
  ]

  -- If RunFull's wait ends with no error, whichever calls fail, the queue of the stage "fetch" is then
  -- no longer than the bound.
  pub wait_for_queue_depth_lem :
      (looks : ℕ) (cancelled : ℕ → Bool) (w : World e)
      → (wait_for_queue_depth g looks cancelled max w).0 ≡ none
      → length (waiting fetch_stage (wait_for_queue_depth g looks cancelled max w).1) ≤ max
  unfolding wait_for_queue_depth
  wait_for_queue_depth_lem zero cancelled w = λ h. cc
  wait_for_queue_depth_lem (suc looks) cancelled w =
      on_depth-Shallow (wait_for_queue_depth g looks cancelled max)
        (cancelled (depth e fetch_stage w).1.calls) (depth e fetch_stage w) (λ n. depth-length n w)
        (wait_for_queue_depth_lem looks cancelled)
