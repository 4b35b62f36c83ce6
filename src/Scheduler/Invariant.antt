-- ===== src/Scheduler/Invariant.antt =====
-- The invariant of the job table under the scheduler.
use dist_task_queue.Prelude.{inl, inr, some, ℕ, zero, suc, [], ◌∷◌}
use dist_task_queue.Prelude.Tests.{Bytes, Bool-cases}
use dist_task_queue.Services.{Env}
use dist_task_queue.World.{World, Result, ok, err, and_then_keeps, for_each_keeps}
use dist_task_queue.Store.Types.{Uuid, Time, User, Job, Db}
use dist_task_queue.Store.Jobs.{user_known}
use dist_task_queue.Store.Accounts.{
  set_cursor_stmt, set_gmail_sync_state, get_gmail_sync_state, list_users,
}
use dist_task_queue.Store.Invariant.{Inv, InvW, run-Inv, enqueue_job-Inv}
use dist_task_queue.Queue.{push}
use dist_task_queue.Worker.Invariant.{redis_call-InvW}
use dist_task_queue.Gmail.{Gmail, latest_message_ids}
use dist_task_queue.Gmail.Keeps.{Keeps, latest_message_ids_keeps}
use dist_task_queue.Scheduler.{
  fetch_job, push_new, enqueue_message, fetch_initial_history_id, init_cursor, poll_from, on_cursor,
  poll_user, poll_once, run_ticks, run,
}

set_cursor_stmt-Inv :
    (user : Uuid) (hid : Bytes) (t : Time) (db : Db)
    → Inv db
    → Inv (set_cursor_stmt user hid t db).1
unfolding set_cursor_stmt
set_cursor_stmt-Inv user hid t db v = elim (Bool-cases (user_known (some user) db.users)) [
  | inl known ↦ rw known (record { rows = v.rows; ids = v.ids; index = v.index })
  | inr unknown ↦ rw unknown v
]

module _ {e : Env} (g : Gmail e) where
  pub push_new-InvW : (r : Result Job × World e) → InvW e r.1 → InvW e (push_new g r)
  unfolding push
  push_new-InvW (err x, w) v = v
  push_new-InvW (ok j, w) v = redis_call-InvW _ w v

  enqueue_message-InvW :
      (user : Uuid) (msg : Bytes) (w : World e) → InvW e w → InvW e (enqueue_message g user msg w)
  unfolding enqueue_message
  enqueue_message-InvW user msg w v =
      push_new-InvW (_, _) (enqueue_job-Inv e (fetch_job user msg) w v)

  set_cursor-InvW :
      (user : Uuid) (hid : Bytes) (w : World e)
      → InvW e w
      → InvW e (set_gmail_sync_state e user hid w).1
  unfolding set_gmail_sync_state
  set_cursor-InvW user hid = run-Inv e _ (set_cursor_stmt-Inv user hid)

  module _ (k : Keeps g (InvW e)) where
    init_cursor-InvW : (user : Uuid) (w : World e) → InvW e w → InvW e (init_cursor g user w).1
    unfolding init_cursor fetch_initial_history_id
    init_cursor-InvW user w v =
        and_then_keeps (InvW e) _ (fetch_initial_history_id g user w)
          (and_then_keeps (InvW e) _ (g.open_client user w) (k.open_client user w v) λ _ w1 v1.
            and_then_keeps (InvW e) _ (g.get_profile user w1) (k.get_profile user w1 v1)
              λ hid w2 v2. v2)
          λ hid w3 v3. set_cursor-InvW user hid w3 v3

    poll_from-InvW :
        (user : Uuid) (cursor : Bytes) (w : World e)
        → InvW e w
        → InvW e (poll_from g user cursor w).1
    unfolding poll_from
    poll_from-InvW user cursor w v =
        and_then_keeps (InvW e) _ (g.open_client user w) (k.open_client user w v) λ _ w1 v1.
          and_then_keeps (InvW e) _ (latest_message_ids g user cursor w1)
            (latest_message_ids_keeps g (InvW e) k user cursor w1 v1)
            λ r w2 v2.
              set_cursor-InvW user r.1 _
                (for_each_keeps (InvW e) _ r.0 w2 (enqueue_message-InvW user) v2)

    on_cursor-InvW :
        (user : Uuid) (cursor : Bytes) (w : World e)
        → InvW e w
        → InvW e (on_cursor g user cursor w).1
    on_cursor-InvW user [] w v = init_cursor-InvW user w v
    on_cursor-InvW user (b ∷ cursor) w v = poll_from-InvW user (b ∷ cursor) w v

    poll_user-InvW : (u : User) (w : World e) → InvW e w → InvW e (poll_user g u w).1
    unfolding poll_user get_gmail_sync_state
    poll_user-InvW u w v =
        and_then_keeps (InvW e) _ (get_gmail_sync_state e u.id w) (run-Inv e _ (λ t db h. h) w v)
          λ cursor w1 v1. on_cursor-InvW u.id cursor w1 v1

    -- A poll of all users keeps the invariant of the job table, whichever of its calls fail, if the
    -- requests to Gmail, which may save refreshed tokens, keep it.
    pub poll_once-InvW : (w : World e) → InvW e w → InvW e (poll_once g w).1
    unfolding poll_once list_users
    poll_once-InvW w v =
        and_then_keeps (InvW e) _ (list_users e w) (run-Inv e _ (λ t db h. h) w v)
          λ users w1 v1. for_each_keeps (InvW e) _ users w1 poll_user-InvW v1

    run_ticks-InvW : (ticks : ℕ) (w : World e) → InvW e w → InvW e (run_ticks g ticks w)
    unfolding run_ticks
    run_ticks-InvW zero w v = v
    run_ticks-InvW (suc ticks) w v = run_ticks-InvW ticks _ (poll_once-InvW w v)

    -- So does a run over any number of ticks.
    pub run_all-InvW : (ticks : ℕ) (w : World e) → InvW e w → InvW e (run g ticks w)
    unfolding run
    run_all-InvW ticks = run_ticks-InvW (suc ticks)
