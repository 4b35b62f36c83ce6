-- ===== src/Worker/Noop.antt =====
-- NoopHandler of internal/worker/handler.go, which is the handler of the stage "test". The float64 of
-- the payload, its comparisons and encoding/json are parameters.
use dist_task_queue.Prelude.{inl, inr, ℕ, ◌≡◌, refl, Bool, false, ◌&&◌, Option, none, some, [], ◌∷◌}
use dist_task_queue.Prelude.Tests.{Bytes, if◌then◌else◌, Bool-cases}
use dist_task_queue.Prelude.Int64.{ℤ, pos, is_positive}
use dist_task_queue.Services.{Env}
use dist_task_queue.World.{World}
use dist_task_queue.Store.Types.{Job}
use dist_task_queue.Store.Invariant.{InvW}
use dist_task_queue.Worker.Process.{Handler, Config, run}
use dist_task_queue.Worker.Invariant.{run-InvW}

pub record Floats : Type 1 where
  pub Float : Type 0
  pub zero_float : Float
  pub above_zero : Float → Bool
  -- `rand.Float64() < r`, when n calls were made
  pub drawn_below : ℕ → Float → Bool

pub record Payload (f : Floats) : Type 0 where
  pub sleep_ms : ℤ
  pub fail_rate : f.Float

-- "synthetic flaky failure"
abbrev pub noop_flaky : Bytes
noop_flaky =
    b's' ∷ b'y' ∷ b'n' ∷ b't' ∷ b'h' ∷ b'e' ∷ b't' ∷ b'i' ∷ b'c' ∷ b' ' ∷ b'f' ∷ b'l' ∷ b'a' ∷ b'k'
    ∷ b'y' ∷ b' ' ∷ b'f' ∷ b'a' ∷ b'i' ∷ b'l' ∷ b'u' ∷ b'r' ∷ b'e' ∷ []

module _ (e : Env) (f : Floats) where
  -- What encoding/json leaves in p, also where it fails, which the handler ignores; whether ctx ends a
  -- sleep that begins when n calls were made, and the text of its error.
  module _ (unmarshal : Bytes → Payload f) (cancelled : ℕ → Bool) (ctx_err : Bytes) where
    -- `if len(job.Payload) > 0 { _ = json.Unmarshal(job.Payload, &p) }`
    abbrev pub payload_of : Bytes → Payload f
    payload_of [] = record { sleep_ms = pos 0; fail_rate = f.zero_float }
    payload_of (c ∷ text) = unmarshal (c ∷ text)

    -- The sleep comes first, and a context that is cancelled in it ends the job.
    abbrev pub noop_answer : ℕ → Payload f → Bytes × Option Bytes
    noop_answer n p =
        if is_positive p.sleep_ms && cancelled n
        then ([], some ctx_err)
        else if f.above_zero p.fail_rate && f.drawn_below n p.fail_rate
        then ([], some noop_flaky)
        else ([], none)

    unfoldable pub noop_process : Handler e
    noop_process job w = (noop_answer w.calls (payload_of job.payload), w)

    -- The job never goes to another stage, and the handler changes nothing.
    pub noop_process_lem :
        (j : Job) (w : World e) → ((noop_process j w).0.0 ≡ []) × ((noop_process j w).1 ≡ w)
    unfolding noop_process
    noop_process_lem j w =
        elim (Bool-cases (is_positive (payload_of j.payload).sleep_ms && cancelled w.calls)) [
          | inl stopped ↦ rw stopped (refl, refl)
          | inr awake ↦
              elim (Bool-cases (
                f.above_zero (payload_of j.payload).fail_rate
                && f.drawn_below w.calls (payload_of j.payload).fail_rate)) [
                  | inl flaky ↦ rw (awake, flaky) (refl, refl)
                  | inr well ↦ rw (awake, well) (refl, refl)
                ]
        ]

    -- Without a rate of failure above zero, and where it does not sleep or is not cancelled, the job
    -- is done.
    pub noop_process_done :
        (j : Job) (w : World e)
        → is_positive (payload_of j.payload).sleep_ms && cancelled w.calls ≡ false
        → f.above_zero (payload_of j.payload).fail_rate ≡ false
        → noop_process j w ≡ (([], none), w)
    unfolding noop_process
    noop_process_done j w awake never = rw (awake, never) refl

    -- A worker with this handler keeps the invariant of the job table.
    noop_run-InvW :
        (c : Config e) (rounds : ℕ) (done : ℕ → Bool) (w : World e)
        → InvW e w
        → InvW e (run (record c { handler = noop_process }) rounds done w).1
    unfolding noop_process
    noop_run-InvW c rounds done w v =
        run-InvW (record c { handler = noop_process }) (λ j w v. v) rounds done w v
