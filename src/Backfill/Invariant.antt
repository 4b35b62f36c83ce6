-- ===== src/Backfill/Invariant.antt =====
-- The invariant of the job table under both backfills.
use dist_task_queue.Prelude.{
  ◌+◌, ℕ, zero, suc, Bool, true, false, Option, none, some, List, [], ◌∷◌, inl, inr,
}
use dist_task_queue.Prelude.Tests.{Bytes, leb, Bool-cases}
use dist_task_queue.Services.{Env}
use dist_task_queue.World.{
  World, Result, ok, err, Error, duplicate_job, and_then_keeps, for_each_keeps,
}
use dist_task_queue.Store.Types.{Uuid, Time, User, Job}
use dist_task_queue.Store.Jobs.{has_job_for_message}
use dist_task_queue.Store.Accounts.{list_users, get_user_by_email}
use dist_task_queue.Store.Invariant.{InvW, run-Inv, enqueue_job-Inv}
use dist_task_queue.Queue.{push, depth}
use dist_task_queue.Worker.Invariant.{redis_call-InvW}
use dist_task_queue.Gmail.{Gmail, list_recent}
use dist_task_queue.Gmail.Keeps.{Keeps, list_recent_keeps, list_all_pages_keeps}
use dist_task_queue.Scheduler.{fetch_job, fetch_stage}
use dist_task_queue.Scheduler.Invariant.{push_new-InvW}
use dist_task_queue.Backfill.{
  FullConfig, Progress, unless_known, backfill_message, run_user, run_once, on_pushed, on_enqueued,
  on_known, enqueue_one, on_depth, wait_for_queue_depth, counted, enqueue_all, on_shallow,
  full_page, on_opened, on_user, run_full,
}

module _ {e : Env} (g : Gmail e) where
  unless_known-InvW :
      (user : Uuid) (msg : Bytes) (r : Result Bool × World e)
      → InvW e r.1
      → InvW e (unless_known g user msg r)
  unless_known-InvW user msg (err x, w) v = v
  unless_known-InvW user msg (ok true, w) v = v
  unless_known-InvW user msg (ok false, w) v =
      push_new-InvW g (_, _) (enqueue_job-Inv e (fetch_job user msg) w v)

  backfill_message-InvW :
      (user : Uuid) (msg : Bytes) (w : World e) → InvW e w → InvW e (backfill_message g user msg w)
  unfolding backfill_message has_job_for_message
  backfill_message-InvW user msg w v =
      unless_known-InvW user msg (has_job_for_message e user msg w) (run-Inv e _ (λ t db h. h) w v)

  on_pushed-InvW : (r : Result (Unit {0}) × World e) → InvW e r.1 → InvW e (on_pushed g r).1
  on_pushed-InvW (err x, w) v = v
  on_pushed-InvW (ok u, w) v = v

  on_enqueued-InvW : (r : Result Job × World e) → InvW e r.1 → InvW e (on_enqueued g r).1
  unfolding push
  on_enqueued-InvW (ok j, w) v = on_pushed-InvW _ (redis_call-InvW _ w v)
  on_enqueued-InvW (err duplicate_job, w) v = v
  on_enqueued-InvW (err _, w) v = v

  on_known-InvW :
      (user : Uuid) (msg : Bytes) (r : Result Bool × World e)
      → InvW e r.1
      → InvW e (on_known g user msg r).1
  on_known-InvW user msg (err x, w) v = v
  on_known-InvW user msg (ok true, w) v = v
  on_known-InvW user msg (ok false, w) v =
      on_enqueued-InvW (_, _) (enqueue_job-Inv e (fetch_job user msg) w v)

  enqueue_one-InvW :
      (user : Uuid) (msg : Bytes) (w : World e) → InvW e w → InvW e (enqueue_one g user msg w).1
  unfolding enqueue_one has_job_for_message
  enqueue_one-InvW user msg w v =
      on_known-InvW user msg (has_job_for_message e user msg w) (run-Inv e _ (λ t db h. h) w v)

  on_depth-InvW :
      (max : ℕ) (again : World e → Option Error × World e) (cancelled : Bool)
      (r : Result ℕ × World e)
      → InvW e r.1
      → ((w : World e) → InvW e w → InvW e (again w).1)
      → InvW e (on_depth g max again cancelled r).1
  on_depth-InvW max again cancelled (err x, w) v keep = v
  on_depth-InvW max again true (ok n, w) v keep = elim (Bool-cases (leb n max)) [
    | inl h ↦ rw h v
    | inr h ↦ rw h v
  ]
  on_depth-InvW max again false (ok n, w) v keep = elim (Bool-cases (leb n max)) [
    | inl h ↦ rw h v
    | inr h ↦ rw h (keep w v)
  ]

  wait-InvW :
      (looks : ℕ) (cancelled : ℕ → Bool) (max : ℕ) (w : World e)
      → InvW e w
      → InvW e (wait_for_queue_depth g looks cancelled max w).1
  unfolding wait_for_queue_depth depth
  wait-InvW zero cancelled max w v = v
  wait-InvW (suc looks) cancelled max w v =
      on_depth-InvW max (wait_for_queue_depth g looks cancelled max)
        (cancelled (depth e fetch_stage w).1.calls) (depth e fetch_stage w) (redis_call-InvW _ w v)
        (wait-InvW looks cancelled max)

  counted-InvW :
      (again : Progress → World e → (Option Error × Progress) × World e) (p : Progress)
      (r : Result Bool × World e)
      → InvW e r.1
      → ((q : Progress) (w : World e) → InvW e w → InvW e (again q w).1)
      → InvW e (counted g again p r).1
  counted-InvW again p (err x, w) v keep = v
  counted-InvW again p (ok true, w) v keep = keep _ w v
  counted-InvW again p (ok false, w) v keep = keep _ w v

  enqueue_all-InvW :
      (user : Uuid) (ids : List Bytes) (p : Progress) (w : World e)
      → InvW e w
      → InvW e (enqueue_all g user ids p w).1
  unfolding enqueue_all
  enqueue_all-InvW user [] p w v = v
  enqueue_all-InvW user (msg ∷ ids) p w v =
      counted-InvW (enqueue_all g user ids) p (enqueue_one g user msg w)
        (enqueue_one-InvW user msg w v) (enqueue_all-InvW user ids)

  full_page-InvW :
      (looks : ℕ) (cancelled : ℕ → Bool) (max : ℕ) (user : Uuid) (p : Progress) (ids : List Bytes)
      (w : World e)
      → InvW e w
      → InvW e (full_page g looks cancelled max user p ids w).1
  unfolding full_page
  full_page-InvW looks cancelled max user p ids w v =
      shallow (wait_for_queue_depth g looks cancelled max w) (wait-InvW looks cancelled max w v)
    where
      shallow :
          (r : Option Error × World e)
          → InvW e r.1
          → InvW e (on_shallow g user ids (record p { page = p.page + 1 }) r).1
      shallow (some x, u) h = h
      shallow (none, u) h = enqueue_all-InvW user ids _ u h

  module _ (k : Keeps g (InvW e)) where
    run_user-InvW :
        (pages : ℕ) (window : Time) (u : User) (w : World e)
        → InvW e w
        → InvW e (run_user g pages window u w).1
    unfolding run_user
    run_user-InvW pages window u w v =
        and_then_keeps (InvW e) _ (g.open_client u.id w) (k.open_client u.id w v) λ _ w1 v1.
          and_then_keeps (InvW e) _ (list_recent g u.id pages _ w1)
            (list_recent_keeps g (InvW e) k u.id pages _ w1 v1)
            λ ids w2 v2. for_each_keeps (InvW e) _ ids w2 (backfill_message-InvW u.id) v2

    -- RunOnce over all users keeps the invariant of the job table, whichever of its calls fail, if the
    -- requests to Gmail keep it.
    pub run_once-InvW :
        (pages : ℕ) (window : Time) (w : World e) → InvW e w → InvW e (run_once g pages window w).1
    unfolding run_once list_users
    run_once-InvW pages window w v =
        and_then_keeps (InvW e) _ (list_users e w) (run-Inv e _ (λ t db h. h) w v)
          λ users w1 v1. for_each_keeps (InvW e) _ users w1 (run_user-InvW pages window) v1

    -- RunFull keeps the invariant of the job table, whichever of its calls fail and wherever it stops,
    -- if the requests to Gmail keep it.
    pub run_full-InvW :
        (pages looks : ℕ) (cancelled : ℕ → Bool) (c : FullConfig) (w : World e)
        → InvW e w
        → InvW e (run_full g pages looks cancelled c w).1
    unfolding run_full get_user_by_email
    run_full-InvW pages looks cancelled c w v =
        by_user (get_user_by_email e c.email w) (run-Inv e _ (λ t db h. h) w v)
      where
        by_client :
            (user : Uuid) (r : Result (Unit {0}) × World e)
            → InvW e r.1
            → InvW e (on_opened g pages looks cancelled c user r).1
        by_client user (err x, u) h = h
        by_client user (ok t, u) h =
            list_all_pages_keeps g (InvW e) k user _ (full_page-InvW looks cancelled _ user) pages
              c.since c.before _ u h

        by_user :
            (r : Result User × World e)
            → InvW e r.1
            → InvW e (on_user g pages looks cancelled c r).1
        by_user (err x, u) h = h
        by_user (ok user, u) h =
            by_client user.id (g.open_client user.id u) (k.open_client user.id u h)
