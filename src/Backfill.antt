-- ===== src/Backfill.antt =====
-- internal/backfill/backfill.go and internal/backfill/full.go.
pub mod Once
pub mod Wait
pub mod Invariant
use dist_task_queue.Prelude.{
  ℕ, zero, suc, ◌+◌, ◌-◌, ◌≡◌, Bool, true, false, Option, none, some, List, [], ◌∷◌,
}
use dist_task_queue.Prelude.Tests.{Bytes, leb, ◌==◌, if◌then◌else◌}
use dist_task_queue.Services.{Env}
use dist_task_queue.World.{
  World, M, Result, ok, err, Error, io, text, duplicate_job, and_then, ◌>>=◌, ◌>>◌, for_each,
}
use dist_task_queue.Store.Types.{Uuid, Time, User, Job}
use dist_task_queue.Store.Jobs.{enqueue_job, has_job_for_message}
use dist_task_queue.Store.Accounts.{list_users, get_user_by_email}
use dist_task_queue.Queue.{push, depth}
use dist_task_queue.Gmail.{Gmail, list_recent, list_all_pages}
use dist_task_queue.Scheduler.{fetch_stage, fetch_job, push_new}

-- `New` fills in 24 hours.
unfoldable pub window_or_default : Time → Time
window_or_default w = if w == 0 then 86400000000000 else w

-- The range of RunFull, and the bounds that it fills in where they are not positive.
pub record FullConfig : Type 0 where
  pub email : Bytes
  pub since : Time
  pub before : Time
  pub max_queue_depth : ℕ

unfoldable pub depth_or_default : ℕ → ℕ
depth_or_default n = if n == 0 then 500 else n

-- The variables that RunFull's callback shares with it.
pub record Progress : Type 0 where
  pub page : ℕ
  pub enqueued : ℕ
  pub skipped : ℕ

module _ {e : Env} (g : Gmail e) where
  -- One message of runUser's loop; a failure is logged, and the loop goes on.
  abbrev pub unless_known : Uuid → Bytes → Result Bool × World e → World e
  unless_known user msg (err x, w) = w
  unless_known user msg (ok true, w) = w
  unless_known user msg (ok false, w) = push_new g (enqueue_job e (fetch_job user msg) w)

  unfoldable pub backfill_message : Uuid → Bytes → World e → World e
  backfill_message user msg w = unless_known user msg (has_job_for_message e user msg w)

  -- `pages` bounds the pages of the listing, and the clock is read before the request.
  unfoldable pub run_user : ℕ → Time → User → M e (Unit {0})
  run_user pages window u = do
    g.open_client u.id
    λ w.
        and_then (λ ids v. (ok tt, for_each (backfill_message u.id) ids v))
          (list_recent g u.id pages (e.now w.calls - window) w)

  unfoldable pub run_once : ℕ → Time → M e (Unit {0})
  run_once pages window = do
    users ← list_users e
    λ w. (ok tt, for_each (λ u v. (run_user pages window u v).1) users w)

  unfoldable pub run_ticks : ℕ → ℕ → Time → World e → World e
  run_ticks pages zero window w = w
  run_ticks pages (suc ticks) window w = run_ticks pages ticks window (run_once pages window w).1

  -- Run returns at once if the interval is 0; else a first run, then one for each tick.
  unfoldable pub run : ℕ → ℕ → Time → Time → World e → World e
  run pages ticks interval window w = elim interval [
    | zero ↦ w
    | suc i ↦ run_ticks pages (suc ticks) window w
  ]

  -- enqueueOne: whether the message was enqueued; a message that is known already is skipped.
  abbrev pub on_pushed : Result (Unit {0}) × World e → Result Bool × World e
  on_pushed (err x, w) = (err x, w)
  on_pushed (ok u, w) = (ok true, w)

  abbrev pub on_enqueued : Result Job × World e → Result Bool × World e
  on_enqueued (err duplicate_job, w) = (ok false, w)
  on_enqueued (err x, w) = (err x, w)
  on_enqueued (ok j, w) = on_pushed (push e fetch_stage (e.format_uuid j.id) w)

  abbrev pub on_known : Uuid → Bytes → Result Bool × World e → Result Bool × World e
  on_known user msg (err x, w) = (err x, w)
  on_known user msg (ok true, w) = (ok false, w)
  on_known user msg (ok false, w) = on_enqueued (enqueue_job e (fetch_job user msg) w)

  unfoldable pub enqueue_one : Uuid → Bytes → World e → Result Bool × World e
  enqueue_one user msg w = on_known user msg (has_job_for_message e user msg w)

  -- One look at the queue: go on, wait for the poll interval and look again, or stop.
  abbrev pub on_depth :
      ℕ → (World e → Option Error × World e) → Bool → Result ℕ × World e → Option Error × World e
  on_depth max again cancelled (err x, w) = (some x, w)
  on_depth max again cancelled (ok depth, w) =
      if leb depth max then (none, w) else if cancelled then (some (text []), w) else again w

  -- `cancelled n` says whether ctx is done during the wait behind the n-th call; `looks` bounds the
  -- rounds.
  unfoldable pub wait_for_queue_depth : ℕ → (ℕ → Bool) → ℕ → World e → Option Error × World e
  wait_for_queue_depth zero cancelled max w = (some io, w)
  wait_for_queue_depth (suc looks) cancelled max w =
      let r = depth e fetch_stage w in
      on_depth max (wait_for_queue_depth looks cancelled max) (cancelled r.1.calls) r

  -- The loop over a page's ids, which stops at the first error.
  abbrev pub counted :
      (Progress → World e → (Option Error × Progress) × World e)
      → Progress
      → Result Bool × World e
      → (Option Error × Progress) × World e
  counted again p (err x, w) = ((some x, p), w)
  counted again p (ok true, w) = again (record p { enqueued = p.enqueued + 1 }) w
  counted again p (ok false, w) = again (record p { skipped = p.skipped + 1 }) w

  unfoldable pub enqueue_all :
      Uuid → List Bytes → Progress → World e → (Option Error × Progress) × World e
  enqueue_all user [] p w = ((none, p), w)
  enqueue_all user (msg ∷ ids) p w = counted (enqueue_all user ids) p (enqueue_one user msg w)

  abbrev pub on_shallow :
      Uuid → List Bytes → Progress → Option Error × World e → (Option Error × Progress) × World e
  on_shallow user ids p (some x, w) = ((some x, p), w)
  on_shallow user ids p (none, w) = enqueue_all user ids p w

  -- The callback of RunFull.
  unfoldable pub full_page :
      ℕ
      → (ℕ → Bool)
      → ℕ
      → Uuid
      → Progress
      → List Bytes
      → World e
      → (Option Error × Progress) × World e
  full_page looks cancelled max user p ids w =
      on_shallow user ids (record p { page = p.page + 1 })
        (wait_for_queue_depth looks cancelled max w)

  abbrev pub nothing_done : Progress
  nothing_done = record { page = 0; enqueued = 0; skipped = 0 }

  abbrev pub on_opened :
      ℕ
      → ℕ
      → (ℕ → Bool)
      → FullConfig
      → Uuid
      → Result (Unit {0}) × World e
      → (Option Error × Progress) × World e
  on_opened pages looks cancelled c user (err x, w) = ((some x, nothing_done), w)
  on_opened pages looks cancelled c user (ok u, w) =
      list_all_pages g user (full_page looks cancelled (depth_or_default c.max_queue_depth) user)
        pages c.since c.before nothing_done w

  abbrev pub on_user :
      ℕ → ℕ → (ℕ → Bool) → FullConfig → Result User × World e → (Option Error × Progress) × World e
  on_user pages looks cancelled c (err x, w) = ((some x, nothing_done), w)
  on_user pages looks cancelled c (ok u, w) =
      on_opened pages looks cancelled c u.id (g.open_client u.id w)

  -- RunFull; `pages` bounds the listing and `looks` each wait.
  unfoldable pub run_full :
      ℕ → ℕ → (ℕ → Bool) → FullConfig → World e → (Option Error × Progress) × World e
  run_full pages looks cancelled c w =
      on_user pages looks cancelled c (get_user_by_email e c.email w)
