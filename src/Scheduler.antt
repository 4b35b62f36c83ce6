-- ===== src/Scheduler.antt =====
-- internal/scheduler/scheduler.go.
pub mod Invariant
use dist_task_queue.Prelude.{
  ℕ, zero, suc, ◌≡◌, Bool, true, false, Option, none, some, List, [], ◌∷◌,
}
use dist_task_queue.Prelude.Tests.{Bytes, ◌==◌, if◌then◌else◌}
use dist_task_queue.Prelude.Decimal.{format_uint}
use dist_task_queue.Services.{Env}
use dist_task_queue.World.{World, M, Result, ok, err, and_then, ◌>>=◌, ◌>>◌, for_each}
use dist_task_queue.Store.Types.{Uuid, Time, User, Job, NewJob}
use dist_task_queue.Store.Jobs.{enqueue_job}
use dist_task_queue.Store.Accounts.{list_users, get_gmail_sync_state, set_gmail_sync_state}
use dist_task_queue.Queue.{push}
use dist_task_queue.Gmail.{Gmail, latest_message_ids}

-- "fetch"
abbrev pub fetch_stage : Bytes
fetch_stage = b'f' ∷ b'e' ∷ b't' ∷ b'c' ∷ b'h' ∷ []

-- The fetch job of a message, with the payload `{}`.
abbrev pub fetch_job : Uuid → Bytes → NewJob
fetch_job user msg = record {
  stage = fetch_stage;
  payload = some (b'{' ∷ b'}' ∷ []);
  user_id = some user;
  gmail_message_id = some msg;
  is_synthetic = false;
}

-- `New` fills in 5 minutes.
unfoldable pub interval_or_default : Time → Time
interval_or_default i = if i == 0 then 300000000000 else i

module _ {e : Env} (g : Gmail e) where
  -- An insert that fails, on a duplicate too, and a push that fails are logged, and the loop goes on.
  abbrev pub push_new : Result Job × World e → World e
  push_new (err x, w) = w
  push_new (ok j, w) = (push e fetch_stage (e.format_uuid j.id) w).1

  unfoldable pub enqueue_message : Uuid → Bytes → World e → World e
  enqueue_message user msg w = push_new (enqueue_job e (fetch_job user msg) w)

  -- fetchInitialHistoryID loads the token and makes the service as gmail.New does.
  unfoldable pub fetch_initial_history_id : Uuid → M e Bytes
  fetch_initial_history_id user = do
    g.open_client user
    hid ← g.get_profile user
    λ w. (ok (format_uint hid), w)

  unfoldable pub init_cursor : Uuid → M e (Unit {0})
  init_cursor user = do hid ← fetch_initial_history_id user; set_gmail_sync_state e user hid

  -- From the cursor on: all new messages are enqueued, then the cursor is saved.
  unfoldable pub poll_from : Uuid → Bytes → M e (Unit {0})
  poll_from user cursor = do
    g.open_client user
    r ← latest_message_ids g user cursor
    λ w. set_gmail_sync_state e user r.1 (for_each (enqueue_message user) r.0 w)

  abbrev pub on_cursor : Uuid → Bytes → M e (Unit {0})
  on_cursor user [] = init_cursor user
  on_cursor user (b ∷ cursor) = poll_from user (b ∷ cursor)

  unfoldable pub poll_user : User → M e (Unit {0})
  poll_user u = do cursor ← get_gmail_sync_state e u.id; on_cursor u.id cursor

  -- A user whose poll fails is logged, and the next one is polled.
  unfoldable pub poll_once : M e (Unit {0})
  poll_once = do users ← list_users e; λ w. (ok tt, for_each (λ u v. (poll_user u v).1) users w)

  -- Run: a first poll, then one for each tick of the ticker before ctx is done.
  unfoldable pub run_ticks : ℕ → World e → World e
  run_ticks zero w = w
  run_ticks (suc ticks) w = run_ticks ticks (poll_once w).1

  unfoldable pub run : ℕ → World e → World e
  run ticks w = run_ticks (suc ticks) w
